-- ===== src/Socket/Listen/Frames.antt =====
-- `listen` on whole packets routes each of them, in the order in which they arrive.
use Prim.Native.Nat.add
use go_libvirt.Base.{
  ℕ, ◌+◌, ◌-◌, ◌≡◌, refl, ◌∙◌, false, List, [], ◌∷◌, ◌++◌, map, arith, length, concat, All, ok,
  le→ltb_false, append_assoc, map-append,
}
use go_libvirt.Base.Text.{Bytes}
use go_libvirt.Socket.Packet.{
  Header, IsFrame, frame, put_u32, put_header, put_packet, get_header, get_len, get_len-put_u32,
  get_header-put_header,
}
use go_libvirt.Socket.Reader.{Feed, read_full, pktlen, extract_header, arriving, read_full-arriving}
use go_libvirt.Socket.Listen.Steps.{listen-route}
use go_libvirt.Socket.Listen.{route, turn, after_length, after_header, after_payload, listen}

pktlen-frame :
    (n : ℕ) (s : List Feed) → pktlen (arriving (put_u32 n) ++ s) ≡ (ok (get_len (put_u32 n)), s)
unfolding pktlen read_full put_u32
pktlen-frame n s = refl

extract_header-frame :
    (h : Header) (s : List Feed)
    → extract_header (arriving (put_header h) ++ s) ≡ (ok (get_header (put_header h)), s)
unfolding extract_header read_full put_header put_u32
extract_header-frame h s = refl

-- The feed of one packet, with what follows it.
arriving-frame :
    (h : Header) (p : Bytes) (s : List Feed)
    → arriving (frame h p) ++ s
      ≡ arriving (put_u32 (28 + length p)) ++ (arriving (put_header h) ++ (arriving p ++ s))
unfolding put_packet
arriving-frame h p s = simp (map-append, append_assoc)

-- The second half of a round, at a length that is not too short.
after_header-frame :
    (h : Header) (p : Bytes) (s : List Feed)
    → after_header (28 + length p) (ok h, arriving p ++ s) ≡ (route h p, s)
unfolding after_header after_payload
after_header-frame h p s =
    rw (le→ltb_false (28 + length p) 28 (omega arith), add_sub) (rw (read_full-arriving false p s))
  where
    add_sub : 28 + length p - 28 ≡ length p
    add_sub = omega arith

turn-frame :
    (h : Header) (p : Bytes) (s : List Feed)
    → IsFrame h p
    → turn (arriving (frame h p) ++ s) ≡ (route h p, s)
unfolding turn after_length
turn-frame h p s v =
    rw (arriving-frame h p s, pktlen-frame, extract_header-frame)
      (rw (len_same, get_header-put_header h v.header) (after_header-frame h p s))
  where
    len_same : get_len (put_u32 (28 + length p)) ≡ 28 + length p
    len_same = get_len-put_u32 _ v.fits

abbrev pub AllFrames : List (Header × Bytes) → Type 0
AllFrames = All (λ p. IsFrame p.0 p.1)

abbrev pub frames : List (Header × Bytes) → Bytes
frames ps = concat (map (λ p. frame p.0 p.1) ps)

split_first :
    (h : Header) (p : Bytes) (ps : List (Header × Bytes)) (s : List Feed)
    → arriving (frames ((h, p) ∷ ps)) ++ s ≡ arriving (frame h p) ++ (arriving (frames ps) ++ s)
split_first h p ps s = simp (map-append, append_assoc)

-- The packets in front are routed first, whatever follows them.
pub listen-frames :
    (ps : List (Header × Bytes)) (fuel : ℕ) (s : List Feed)
    → AllFrames ps
    → listen (length ps + fuel) (arriving (frames ps) ++ s)
      ≡ (ps ++ (listen fuel s).0, (listen fuel s).1)
listen-frames [] fuel s v = rw add.zero
listen-frames ((h, p) ∷ ps) fuel s v =
    let rest = arriving (frames ps) ++ s in
    rw (add.suc (length ps) fuel, split_first h p ps s)
      (listen-route (length ps + fuel) _ (turn-frame h p rest v.0)
        ∙ rw (listen-frames ps fuel s v.1))
