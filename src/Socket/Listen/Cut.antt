-- ===== src/Socket/Listen/Cut.antt =====
-- `listen` on a packet that the connection may cut off.
use go_libvirt.Base.{
  ◌+◌, ◌<◌, ◌≤◌, ◌≡◌, ◌⊎◌, inl, inr, refl, sym, ap, ◌∙◌, [], ◌∷◌, ◌++◌, arith, length,
  length-append, append-nil, ltb, Bool-cases, ltb→lt, ltb_false→le,
}
use go_libvirt.Base.Text.{Bytes}
use go_libvirt.Socket.Packet.{
  Header, IsFrame, frame, put_packet, put_u32, get_len, get_len-put_u32, length-frame,
}
use go_libvirt.Socket.Reader.{arriving}
use go_libvirt.Socket.Listen.{again, turn, returned, listen}
use go_libvirt.Socket.Listen.Steps.{listen-again, listen-stop}
use go_libvirt.Socket.Listen.Sound.{turn_no_length, turn_no_header, turn_cut}
use go_libvirt.Socket.Listen.Frames.{frames, listen-frames}

get_len-front : (a b : Bytes) → 4 ≤ length a → get_len (a ++ b) ≡ get_len a
unfolding get_len
get_len-front [] b h = absurd (omega arith)
get_len-front (x ∷ []) b h = absurd (omega arith)
get_len-front (x ∷ y ∷ []) b h = absurd (omega arith)
get_len-front (x ∷ y ∷ z ∷ []) b h = absurd (omega arith)
get_len-front (x ∷ y ∷ z ∷ w ∷ a) b h = refl

get_len-frame : (h : Header) (p : Bytes) → get_len (frame h p) ≡ get_len (put_u32 (28 + length p))
unfolding get_len put_packet put_u32
get_len-frame h p = refl

listen_nothing :
    (bs : Bytes) → turn (arriving bs) ≡ (again, []) → listen 2 (arriving bs) ≡ ([], returned)
listen_nothing bs e =
    listen-again 1 (arriving bs) e ∙ listen-stop 0 [] (turn_no_length [] (omega arith))

-- Of a packet that is cut off nothing is routed.
cut_off :
    (h : Header) (p part lost : Bytes)
    → IsFrame h p
    → part ++ lost ≡ frame h p
    → length part < 28 + length p
    → listen 2 (arriving part) ≡ ([], returned)
cut_off h p part lost v same short = elim (Bool-cases (ltb (length part) 4)) [
  | inl no_length ↦ listen-stop 1 (arriving part) (turn_no_length part (ltb→lt _ _ no_length))
  | inr some_length ↦
      let four = ltb_false→le _ _ some_length in
      elim (Bool-cases (ltb (length part) 28)) [
        | inl no_header ↦ listen_nothing part (turn_no_header part four (ltb→lt _ _ no_header))
        | inr some_header ↦
            let len : get_len part ≡ 28 + length p =
              sym (get_len-front part lost four)
              ∙ ap get_len same
              ∙ get_len-frame h p
              ∙ get_len-put_u32 _ v.fits in
            listen_nothing part (
              turn_cut part (ltb_false→le _ _ some_header) (omega (arith, len))
                (omega (arith, len, short)))
      ]
]

whole_frame :
    (h : Header) (p : Bytes)
    → IsFrame h p
    → listen 2 (arriving (frame h p ++ [])) ≡ ((h, p) ∷ [], returned)
whole_frame h p v = rw (← append-nil (arriving (frames ((h, p) ∷ [])))) (
    listen-frames ((h, p) ∷ []) 1 [] (v, tt)
    ∙ ap (λ x. ((h, p) ∷ x.0, x.1)) (listen-stop 0 [] (turn_no_length [] (omega arith))))

-- Of a front of a packet, before the end of the connection: nothing is routed, or it is the whole and
-- the packet is.
pub listen-front :
    (h : Header) (p part lost : Bytes)
    → IsFrame h p
    → part ++ lost ≡ frame h p
    → (listen 2 (arriving part) ≡ ([], returned))
      ⊎ (listen 2 (arriving part) ≡ ((h, p) ∷ [], returned))
listen-front h p part [] v same = inr (
    ap (λ bs. listen 2 (arriving bs)) (sym (append-nil part) ∙ same ∙ sym (append-nil (frame h p)))
    ∙ whole_frame h p v)
listen-front h p part (x ∷ lost) v same = inl (
    cut_off h p part (x ∷ lost) v same
      (omega (arith, ap length same, length-append part (x ∷ lost), length-frame h p)))
