-- ===== src/Socket/Send/Frames.antt =====
-- What calls of `SendPacket` put on the connection.
use go_libvirt.Base.{
  Option-cases, ℕ, ◌+◌, ◌%◌, ◌^◌, ◌<◌, ◌≡◌, ◌≢◌, ◌⊎◌, inl, inr, refl, sym, ap, ◌∙◌, Bool, true,
  false, Option, none, some, List, [], ◌∷◌, ◌++◌, map, arith, suc, length, take, drop, concat, All,
  append_assoc, append-nil, Bool-cases,
}
use go_libvirt.Base.Int.{ℤ}
use go_libvirt.Base.Text.{Bytes}
use go_libvirt.Socket.Packet.{Header, frame, put_packet}
use go_libvirt.Socket.Send.Buffer.{packet-broken, packet-Writes, packet-settled}
use go_libvirt.Socket.Send.{
  Writer, Socket, SendError, write, payload_unless, payload_bytes, sent_header, send_packet,
}

-- Nothing waits in the buffer between two calls, unless the writer is broken.
pub record IsSettled (s : Socket) : Type 0 where
  pub settled : s.writer.broken ≡ false → s.writer.buffered ≡ []

-- The arguments of one call.
pub record Request : Type 0 where
  pub serial : ℤ
  pub proc : ℕ
  pub program : ℕ
  pub payload : Option Bytes
  pub typ : ℕ
  pub status : ℕ

abbrev pub request_header : Request → Header
request_header r = sent_header r.serial r.proc r.program r.typ r.status

abbrev pub request_frame : Request → Bytes
request_frame r = frame (request_header r) (payload_bytes r.payload)

-- The length of the packet fits its field.
abbrev pub Fits : Request → Type 0
Fits r = 28 + length (payload_bytes r.payload) < 2 ^ 32

abbrev pub send_request : Socket → Request → Option SendError × Socket
send_request s r = send_packet s r.serial r.proc r.program r.payload r.typ r.status

-- The connection takes no more packets.
abbrev pub IsDown : Socket → Type 0
IsDown s = (s.is_disconnected ≡ true) ⊎ (s.writer.broken ≡ true)

-- What a call comes to: a front of its packet is on the connection, the whole where it succeeds.
pub record Adds (s : Socket) (r : Request) (run : Option SendError × Socket) : Type 0 where
  pub part : Bytes
  pub lost : Bytes
  pub sent : run.1.writer.sent ≡ s.writer.sent ++ part
  pub splits : part ++ lost ≡ request_frame r
  pub whole : run.0 ≡ none → lost ≡ []
  pub still : IsSettled run.1
  pub down : run.0 ≢ none → IsDown run.1

len_kept : (n : ℕ) → 28 + n < 2 ^ 32 → (4 + 24 + n) % 2 ^ 32 ≡ 28 + n
len_kept n h = omega arith

-- The two writes of a packet, on a writer that has nothing buffered.
packet_and_payload :
    (r : Request)
    → Fits r
    → put_packet (record {
      len = (4 + 24 + length (payload_bytes r.payload)) % 2 ^ 32;
      header = request_header r;
    })
        ++ payload_bytes r.payload
      ≡ request_frame r
packet_and_payload r h = rw (len_kept (length (payload_bytes r.payload)) h)

written :
    (s : Socket) (r : Request) (pk : Bytes)
    → s.writer.buffered ≡ []
    → pk ++ payload_bytes r.payload ≡ request_frame r
    → let run = payload_unless (write s.writer pk) r.payload in
      Adds s r (run.0, record s { writer = run.1 })
written s r pk empty same =
    let run = payload_unless (write s.writer pk) r.payload in
    let done = packet-Writes s.writer pk r.payload in
    record {
      part = done.taken;
      lost = done.lost;
      sent = done.sent;
      splits = done.splits ∙ ap (λ b. b ++ (pk ++ payload_bytes r.payload)) empty ∙ same;
      whole = λ h. sym (done.kept h).1 ∙ packet-settled s.writer pk r.payload h;
      still = record { settled = λ up. settled_after up };
      down = λ h. inr (done.failed h);
    }
  where
    run : Option SendError × Writer
    run = payload_unless (write s.writer pk) r.payload

    settled_after : run.1.broken ≡ false → run.1.buffered ≡ []
    settled_after up = elim (Option-cases run.0) [
      | inl h ↦ packet-settled s.writer pk r.payload h
      | inr (e, h) ↦ absurd (
          ground (
            arith,
            up,
            (packet-Writes s.writer pk r.payload).failed (λ x. absurd (ground (arith, x, h))),
          ))
    ]

-- On a connection that is down a call fails and changes nothing.
send_request-down :
    (s : Socket) (r : Request)
    → IsDown s
    → ((send_request s r).0 ≢ none) × ((send_request s r).1 ≡ s)
unfolding send_packet
send_request-down s r (inl h) = rw h ((λ e. cc), refl)
send_request-down s r (inr h) = by s.is_disconnected s.writer h
  where
    by :
        (b : Bool) (w : Writer)
        → w.broken ≡ true
        → let t : Socket = record { is_disconnected = b; writer = w } in
          ((send_request t r).0 ≢ none) × ((send_request t r).1 ≡ t)
    by true w down = ((λ e. cc), refl)
    by false w down =
        let same = packet-broken w _ r.payload down in
        (
          (λ e. absurd (ground (arith, sym (ap (λ x. x.0) same) ∙ e))),
          ap (λ x. record { is_disconnected = false; writer = x.1 }) same,
        )

-- One call puts its whole packet on the connection, or fails and puts a front of it there.
pub send_request-Adds :
    (s : Socket) (r : Request) → IsSettled s → Fits r → Adds s r (send_request s r)
unfolding send_packet
send_request-Adds s r h fits = elim (Bool-cases s.is_disconnected) [
  | inl down ↦ nothing (inl down)
  | inr up ↦ elim (Bool-cases s.writer.broken) [
    | inl down ↦ nothing (inr down)
    | inr works ↦ connected s.is_disconnected s.writer up (h.settled works)
  ]
]
  where
    connected :
        (b : Bool) (w : Writer)
        → b ≡ false
        → w.buffered ≡ []
        → let t : Socket = record { is_disconnected = b; writer = w } in Adds t r (send_request t r)
    connected true w up empty = absurd (ground (arith, up))
    connected false w up empty =
        written (record { is_disconnected = false; writer = w }) r _ empty
          (packet_and_payload r fits)

    nothing : IsDown s → Adds s r (send_request s r)
    nothing down =
        let (fails, same) = send_request-down s r down in
        record {
          part = [];
          lost = request_frame r;
          sent = ap (λ t. t.writer.sent) same ∙ sym (append-nil s.writer.sent);
          splits = refl;
          whole = λ e. absurd (fails e);
          still = rw same h;
          down = λ e. rw same down;
        }

-- Several calls, by any goroutines, in the order in which they take the lock.
unfoldable pub send_all : Socket → List Request → List (Option SendError) × Socket
send_all s [] = ([], s)
send_all s (r ∷ rs) = let (e, s') = send_request s r in let (es, t) = send_all s' rs in (e ∷ es, t)

abbrev pub is_sent : Option SendError → Bool
is_sent none = true
is_sent (some e) = false

-- The number of calls that succeed before the first that fails.
abbrev pub count_sent : List (Option SendError) → ℕ
count_sent [] = 0
count_sent (none ∷ es) = suc (count_sent es)
count_sent (some e ∷ es) = 0

abbrev pub request_frames : List Request → Bytes
request_frames rs = concat (map request_frame rs)

-- Once down, the connection takes nothing.
send_all-IsDown :
    (s : Socket) (rs : List Request)
    → IsDown s
    → (All (λ e. e ≢ none) (send_all s rs).0) × ((send_all s rs).1.writer.sent ≡ s.writer.sent)
unfolding send_all
send_all-IsDown s [] d = (tt, refl)
send_all-IsDown s (r ∷ rs) d =
    let (failed, same) = send_request-down s r d in
    let (rest, still) = send_all-IsDown (send_request s r).1 rs (rw same d) in
    ((failed, rest), still ∙ ap (λ t. t.writer.sent) same)

-- The calls succeed up to the first that fails; what was sent are the packets of those, and a front of
-- the packet of the first that fails, if there is one.
pub record Delivers (s : Socket) (rs : List Request) (run : List (Option SendError) × Socket)
    : Type 0 where
  pub part : Bytes
  pub lost : Bytes
  pub whole :
      run.1.writer.sent ≡ s.writer.sent ++ (request_frames (take (count_sent run.0) rs) ++ part)
  pub front : part ++ lost ≡ request_frames (take 1 (drop (count_sent run.0) rs))
  pub rest_fail : All (λ e. e ≢ none) (drop (count_sent run.0) run.0)
  pub answers : length run.0 ≡ length rs

Delivers-cons :
    (s : Socket) (r : Request) (rs : List Request) (first : Option SendError × Socket)
    (run : List (Option SendError) × Socket)
    → Adds s r first
    → Delivers first.1 rs run
    → (IsDown first.1 → (All (λ x. x ≢ none) run.0) × (run.1.writer.sent ≡ first.1.writer.sent))
    → Delivers s (r ∷ rs) (first.0 ∷ run.0, run.1)
Delivers-cons s r rs (none, t) run p d down = record {
  part = d.part;
  lost = d.lost;
  whole =
      d.whole
      ∙ ap (λ b. b ++ (request_frames (take (count_sent run.0) rs) ++ d.part))
          (p.sent ∙ ap (λ b. s.writer.sent ++ b) all_of_it)
      ∙ append_assoc s.writer.sent (request_frame r) _
      ∙ ap (λ b. s.writer.sent ++ b)
          (sym
            (append_assoc (request_frame r) (request_frames (take (count_sent run.0) rs)) d.part));
  front = d.front;
  rest_fail = d.rest_fail;
  answers = ap suc d.answers;
}
  where
    all_of_it : p.part ≡ request_frame r
    all_of_it = sym (append-nil p.part) ∙ ap (λ b. p.part ++ b) (sym (p.whole refl)) ∙ p.splits
Delivers-cons s r rs (some e, t) run p d down = record {
  part = p.part;
  lost = p.lost;
  whole = (down (p.down (λ x. cc))).1 ∙ p.sent;
  front = p.splits ∙ sym (append-nil (request_frame r));
  rest_fail = ((λ x. cc), (down (p.down (λ x. cc))).0);
  answers = ap suc d.answers;
}

-- Over any calls on a settled connection, whatever the connection answers, short writes included: calls
-- succeed up to the first that fails and none after it. What has been sent is the whole packets of
-- those that succeeded, in order, and then a front of the packet of the first that fails, which may be
-- empty or the whole, and nothing of any later one.
pub send_all-Delivers :
    (s : Socket) (rs : List Request) → IsSettled s → All Fits rs → Delivers s rs (send_all s rs)
unfolding send_all
send_all-Delivers s [] h v = record {
  part = [];
  lost = [];
  whole = sym (append-nil s.writer.sent);
  front = refl;
  rest_fail = tt;
  answers = refl;
}
send_all-Delivers s (r ∷ rs) h v =
    let p = send_request-Adds s r h v.0 in
    Delivers-cons s r rs (send_request s r) _ p
      (send_all-Delivers (send_request s r).1 rs p.still v.1)
      (send_all-IsDown (send_request s r).1 rs)
