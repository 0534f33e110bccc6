-- ===== src/Socket/Listen/Sound.antt =====
-- What `listen` makes of any bytes that arrive without an error.
use go_libvirt.Base.{
  ℕ, zero, suc, ◌+◌, ◌-◌, ◌≤◌, ◌<◌, ◌≡◌, ◌⊎◌, inl, inr, refl, sym, ap, ◌∙◌, false, List, [], ◌∷◌,
  ◌++◌, arith, length, take, drop, drop-drop, take-append-drop, length-take, length-drop, All,
  All-take, All-drop, ok, ltb, Bool-cases, append_assoc, ltb→lt, ltb_false→le, lt→ltb, le→ltb_false,
}
use go_libvirt.Base.Text.{Bytes}
use go_libvirt.Socket.Packet.{
  Header, IsFrame, IsByte, frame, put_header, put_packet, get_header, get_len, put_u32-get_len,
  put_header-get_header, get_len-lt, get_header-IsHeader,
}
use go_libvirt.Socket.Reader.{pktlen, extract_header, arriving, read_full-take, read_full-short}
use go_libvirt.Socket.Listen.{
  again, stop, crash, route, turn, after_length, after_header, after_payload, Ending, returned,
  panicked, out_of_fuel, listen,
}
use go_libvirt.Socket.Listen.Steps.{listen-again, listen-stop, listen-crash, listen-route}
use go_libvirt.Socket.Listen.Frames.{frames, AllFrames}

-- The header and the payload of the packet at the front.
abbrev first_header : Bytes → Header
first_header bs = get_header (take 24 (drop 4 bs))

abbrev first_payload : Bytes → Bytes
first_payload bs = take (get_len bs - 28) (drop 28 bs)

-- A round, by what has arrived: no length yet, no header yet, a length that is too short, a payload
-- that is cut off, or a whole packet.
pub turn_no_length : (bs : Bytes) → length bs < 4 → turn (arriving bs) ≡ (stop, [])
unfolding turn after_length pktlen
turn_no_length bs h = let (e, same, lasting) = read_full-short false 4 bs h in rw same (rw lasting)

get_len-take : (bs : Bytes) → get_len (take 4 bs) ≡ get_len bs
unfolding get_len
get_len-take [] = refl
get_len-take (a ∷ []) = refl
get_len-take (a ∷ b ∷ []) = refl
get_len-take (a ∷ b ∷ c ∷ []) = refl
get_len-take (a ∷ b ∷ c ∷ d ∷ bs) = refl

turn-length :
    (bs : Bytes)
    → 4 ≤ length bs
    → turn (arriving bs) ≡ after_header (get_len bs) (extract_header (arriving (drop 4 bs)))
unfolding turn after_length pktlen
turn-length bs h = rw (read_full-take false 4 bs h) (rw get_len-take)

pub turn_no_header :
    (bs : Bytes) → 4 ≤ length bs → length bs < 28 → turn (arriving bs) ≡ (again, [])
unfolding after_header extract_header
turn_no_header bs h k =
    let (e, same, lasting) =
      read_full-short false 24 (drop 4 bs) (omega (arith, length-drop 4 bs)) in
    turn-length bs h ∙ rw same

turn_header :
    (bs : Bytes)
    → 28 ≤ length bs
    → turn (arriving bs) ≡ after_header (get_len bs) (ok (first_header bs), arriving (drop 28 bs))
unfolding extract_header
turn_header bs h =
    turn-length bs (omega arith)
    ∙ rw (read_full-take false 24 (drop 4 bs) (omega (arith, length-drop 4 bs)))
        (rw (drop-drop 4 24 bs))

turn_crash :
    (bs : Bytes)
    → 28 ≤ length bs
    → get_len bs < 28
    → turn (arriving bs) ≡ (crash, arriving (drop 28 bs))
unfolding after_header
turn_crash bs h k = turn_header bs h ∙ rw (lt→ltb (get_len bs) 28 k)

pub turn_cut :
    (bs : Bytes)
    → 28 ≤ length bs
    → 28 ≤ get_len bs
    → length bs < get_len bs
    → turn (arriving bs) ≡ (again, [])
unfolding after_header after_payload
turn_cut bs h k cut =
    let (e, same, lasting) =
      read_full-short false (get_len bs - 28) (drop 28 bs) (omega (arith, length-drop 28 bs)) in
    turn_header bs h ∙ rw (le→ltb_false (get_len bs) 28 k) (rw same)

turn_whole :
    (bs : Bytes)
    → 28 ≤ get_len bs
    → get_len bs ≤ length bs
    → turn (arriving bs)
      ≡ (route (first_header bs) (first_payload bs), arriving (drop (get_len bs) bs))
unfolding after_header after_payload
turn_whole bs k whole =
    turn_header bs (omega arith)
    ∙ rw (le→ltb_false (get_len bs) 28 k) (
        rw (read_full-take false (get_len bs - 28) (drop 28 bs) (omega (arith, length-drop 28 bs)))
          (rw (drop-drop 28 (get_len bs - 28) bs, back)))
  where
    back : 28 + (get_len bs - 28) ≡ get_len bs
    back = omega arith

-- What is left when the loop ends.
abbrev pub LeftBy : Ending → Bytes → Type 0
LeftBy returned rest = (length rest < 28) ⊎ (length rest < get_len rest)
LeftBy panicked rest = (28 ≤ length rest) × (get_len rest < 28)
LeftBy out_of_fuel rest = Unit

-- The bytes are the packets that were routed, end to end, and then what is left.
pub record Splits (bs : Bytes) (run : List (Header × Bytes) × Ending) : Type 0 where
  pub rest : Bytes
  pub splits : bs ≡ frames run.0 ++ rest
  pub valid : AllFrames run.0
  pub left : LeftBy run.1 rest

-- Nothing was routed and the loop has ended.
Splits-nil : (bs : Bytes) (end : Ending) → LeftBy end bs → Splits bs ([], end)
Splits-nil bs end left = record { rest = bs; splits = refl; valid = tt; left = left }

module _ (bs : Bytes) (v : All IsByte bs) (k : 28 ≤ get_len bs)
    (whole : get_len bs ≤ length bs) where
  length-first_payload : 28 + length (first_payload bs) ≡ get_len bs
  length-first_payload =
      omega (arith, length-take (get_len bs - 28) (drop 28 bs) (omega (arith, length-drop 28 bs)))

  put_first_header : put_header (first_header bs) ≡ take 24 (drop 4 bs)
  put_first_header =
      put_header-get_header (take 24 (drop 4 bs)) (All-take IsByte 24 _ (All-drop IsByte 4 bs v))
        (length-take 24 (drop 4 bs) (omega (arith, length-drop 4 bs)))

  payload_and_rest : first_payload bs ++ drop (get_len bs) bs ≡ drop 28 bs
  payload_and_rest =
      ap (λ r. first_payload bs ++ r)
        (ap (λ n. drop n bs) (sym back) ∙ sym (drop-drop 28 (get_len bs - 28) bs))
      ∙ take-append-drop (get_len bs - 28) (drop 28 bs)
    where
      back : 28 + (get_len bs - 28) ≡ get_len bs
      back = omega arith

  header_and_rest : take 24 (drop 4 bs) ++ drop 28 bs ≡ drop 4 bs
  header_and_rest = rw (← drop-drop 4 24 bs) (take-append-drop 24 (drop 4 bs))

  first_frame : frame (first_header bs) (first_payload bs) ++ drop (get_len bs) bs ≡ bs
  unfolding put_packet
  first_frame =
      rw (length-first_payload, put_first_header, put_u32-get_len bs v (omega arith))
        (simp append_assoc (rw (payload_and_rest) (rw (header_and_rest) (take-append-drop 4 bs))))

  first-IsFrame : IsFrame (first_header bs) (first_payload bs)
  first-IsFrame = record {
    header = get_header-IsHeader _ (All-take IsByte 24 _ (All-drop IsByte 4 bs v));
    fits = omega (arith, length-first_payload, get_len-lt bs v);
  }

  Splits-cons :
      (run : List (Header × Bytes) × Ending)
      → Splits (drop (get_len bs) bs) run
      → Splits bs ((first_header bs, first_payload bs) ∷ run.0, run.1)
  Splits-cons run t = record {
    rest = t.rest;
    splits =
        sym first_frame
        ∙ ap (λ r. frame (first_header bs) (first_payload bs) ++ r) t.splits
        ∙ sym (append_assoc (frame (first_header bs) (first_payload bs)) (frames run.0) t.rest);
    valid = (first-IsFrame, t.valid);
    left = t.left;
  }

-- After a round that leaves nothing, the loop returns.
listen_empty :
    (fuel : ℕ) (bs : Bytes)
    → turn (arriving bs) ≡ (again, [])
    → (length bs < 28) ⊎ (length bs < get_len bs)
    → Splits bs (listen (suc fuel) (arriving bs))
listen_empty zero bs e left =
    rw (listen-again zero (arriving bs) e) (unfold listen in Splits-nil bs out_of_fuel tt)
listen_empty (suc fuel) bs e left =
    rw
      (
        listen-again (suc fuel) (arriving bs) e,
        listen-stop fuel [] (turn_no_length [] (omega arith)),
      )
      (Splits-nil bs returned left)

listen_sound_from :
    (fuel : ℕ) (bs : Bytes)
    → All IsByte bs
    → 28 ≤ length bs
    → ((cs : Bytes) → All IsByte cs → Splits cs (listen fuel (arriving cs)))
    → Splits bs (listen (suc fuel) (arriving bs))
listen_sound_from fuel bs v h later = elim (Bool-cases (ltb (get_len bs) 28)) [
  | inl short ↦
      rw (listen-crash fuel _ (turn_crash bs h (ltb→lt _ _ short)))
        (Splits-nil bs panicked (h, ltb→lt _ _ short))
  | inr long ↦
      let k = ltb_false→le _ _ long in
      elim (Bool-cases (ltb (length bs) (get_len bs))) [
        | inl cut ↦
            let missing = ltb→lt _ _ cut in
            listen_empty fuel bs (turn_cut bs h k missing) (inr missing)
        | inr whole ↦
            let all_there = ltb_false→le _ _ whole in
            rw (listen-route fuel _ (turn_whole bs k all_there)) (
              Splits-cons bs v k all_there _
                (later (drop (get_len bs) bs) (All-drop IsByte (get_len bs) bs v)))
      ]
]

-- On bytes that arrive with no error between them, the packets routed, end to end, are exactly the
-- front of the bytes; each is well formed; and when the loop returns, what is left is no whole
-- packet, and when it panics, what is left begins with a length below 28.
pub listen_sound : (fuel : ℕ) (bs : Bytes) → All IsByte bs → Splits bs (listen fuel (arriving bs))
listen_sound zero bs v = unfold listen in Splits-nil bs out_of_fuel tt
listen_sound (suc fuel) bs v = elim (Bool-cases (ltb (length bs) 4)) [
  | inl no_length ↦
      let h = ltb→lt _ _ no_length in
      rw (listen-stop fuel _ (turn_no_length bs h)) (Splits-nil bs returned (inl (omega arith)))
  | inr some_length ↦ elim (Bool-cases (ltb (length bs) 28)) [
    | inl no_header ↦
        let h = ltb→lt _ _ no_header in
        listen_empty fuel bs (turn_no_header bs (ltb_false→le _ _ some_length) h) (inl h)
    | inr some_header ↦
        listen_sound_from fuel bs v (ltb_false→le _ _ some_header) (listen_sound fuel)
  ]
]
