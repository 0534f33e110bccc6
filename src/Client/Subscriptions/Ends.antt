-- ===== src/Client/Subscriptions/Ends.antt =====
-- What reaches a stream in the table, and what opening and removing one does.
use go_libvirt.Base.{
  ℕ, ==_iff, ◌≡◌, ◌≢◌, refl, sym, ap, ◌∙◌, Bool, true, false, Bool-cases, Option-cases, inl, inr,
  none, some, List, [], ◌∷◌, ◌++◌, append_assoc, append-nil, arith, ok, if◌then◌else◌,
}
use go_libvirt.Base.Int.{ℤ, ◌==ℤ◌, ==ℤ_iff}
use go_libvirt.Base.Map.{lookup, insert, lookup-insert, lookup-delete}
use go_libvirt.Event.Stream.{Event, Stream, get_callback_id, new_stream, shutdown}
use go_libvirt.Rpc.Events.{Events, update, push_event, stream, add_stream, remove_stream}
use go_libvirt.Client.Remote.{Request}
use go_libvirt.Client.Subscriptions.{set_stream, open_stream}

-- Events that arrive one after the other, each with the runtime's choice.
abbrev pub arrive : List (Bool × Event) → Events → Events
arrive [] s = s
arrive ((drops, e) ∷ rest) s = arrive rest (stream drops e s)

-- Those of a callback.
abbrev pub of_callback : ℤ → List (Bool × Event) → List Event
of_callback id [] = []
of_callback id ((drops, e) ∷ rest) =
    if get_callback_id e ==ℤ id then e ∷ of_callback id rest else of_callback id rest

stream-table : (drops : Bool) (e : Event) (s : Events) → (stream drops e s).table ≡ s.table
unfolding stream
stream-table drops e s = ground arith

-- The stream of one callback, and no other callback's.
pub record IsOnly (id : ℤ) (r : ℕ) (s : Events) : Type 0 where
  pub there : lookup id s.table ≡ some r
  pub only : (j : ℤ) → lookup j s.table ≡ some r → j ≡ id

stream-IsOnly :
    (id : ℤ) (r : ℕ) (drops : Bool) (e : Event) (s : Events)
    → IsOnly id r s
    → IsOnly id r (stream drops e s)
stream-IsOnly id r drops e s o = record {
  there = ap (λ t. lookup id t) (stream-table drops e s) ∙ o.there;
  only = λ j h. o.only j (sym (ap (λ t. lookup j t) (stream-table drops e s)) ∙ h);
}

-- A stream that is not shut down gets an event of its callback, and no other event.
stream-heap :
    (id : ℤ) (r : ℕ) (drops : Bool) (e : Event) (s : Events)
    → IsOnly id r s
    → (s.heap r).cancelled ≡ false
    → (stream drops e s).heap r ≡ (
        if get_callback_id e ==ℤ id
        then record (s.heap r) { queue = (s.heap r).queue ++ (e ∷ []) }
        else s.heap r)
unfolding stream push_event
stream-heap id r drops e s o alive = elim (Bool-cases (get_callback_id e ==ℤ id)) [
  | inl same ↦
      let found : lookup (get_callback_id e) s.table ≡ some r =
        ap (λ j. lookup j s.table) ((==ℤ_iff (get_callback_id e) id).0 same) ∙ o.there in
      ground (arith, same, found, alive, ==_iff r r)
  | inr other ↦ elim (Option-cases (lookup (get_callback_id e) s.table)) [
    | inl gone ↦ ground (arith, other, gone)
    | inr (q, found) ↦ ground (
      arith,
      other,
      found,
      ==_iff q r,
      o.only (get_callback_id e),
      ==ℤ_iff (get_callback_id e) id,
    )
  ]
]

stream-queue :
    (id : ℤ) (r : ℕ) (drops : Bool) (e : Event) (s : Events)
    → IsOnly id r s
    → (s.heap r).cancelled ≡ false
    → let x = (stream drops e s).heap r in
      (x.queue ≡ (s.heap r).queue ++ of_callback id ((drops, e) ∷ []))
      × (x.cancelled ≡ false)
      × (x.callback_id ≡ (s.heap r).callback_id)
stream-queue id r drops e s o alive =
    rw (stream-heap id r drops e s o alive) (elim (Bool-cases (get_callback_id e ==ℤ id)) [
      | inl same ↦ rw same (refl, alive, refl)
      | inr other ↦ rw other (sym (append-nil (s.heap r).queue), alive, refl)
    ])

of_callback-cons :
    (id : ℤ) (x : Bool × Event) (rest : List (Bool × Event))
    → of_callback id (x ∷ rest) ≡ of_callback id (x ∷ []) ++ of_callback id rest
of_callback-cons id (drops, e) rest = ground arith

-- The events of its callback that have arrived are behind what the stream had, in order.
pub arrive-queue :
    (id : ℤ) (r : ℕ) (es : List (Bool × Event)) (s : Events)
    → IsOnly id r s
    → (s.heap r).cancelled ≡ false
    → let x = (arrive es s).heap r in
      (x.queue ≡ (s.heap r).queue ++ of_callback id es)
      × (x.callback_id ≡ (s.heap r).callback_id)
      × ((arrive es s).table ≡ s.table)
arrive-queue id r [] s o alive = (sym (append-nil (s.heap r).queue), refl, refl)
arrive-queue id r ((drops, e) ∷ rest) s o alive =
    let (queue, still, id_same) = stream-queue id r drops e s o alive in
    let (queues, ids_same, table) =
      arrive-queue id r rest (stream drops e s) (stream-IsOnly id r drops e s o) still in
    (
      queues
          ∙ ap (λ q. q ++ of_callback id rest) queue
          ∙ append_assoc (s.heap r).queue (of_callback id ((drops, e) ∷ [])) (of_callback id rest)
          ∙ ap (λ q. (s.heap r).queue ++ q) (sym (of_callback-cons id (drops, e) rest)),
      ids_same ∙ id_same,
      table ∙ stream-table drops e s,
    )

-- No callback has the stream behind this reference.
abbrev pub IsFresh : ℕ → Events → Type 0
IsFresh r s = (j : ℤ) → lookup j s.table ≢ some r

pub update-same : (heap : ℕ → Stream) (r : ℕ) (x : Stream) → update heap r x r ≡ x
update-same heap r x = rw ((==_iff r r).1 refl) refl

pub open_stream-IsOnly :
    (program r : ℕ) (id : ℤ) (s : Events) (after : List Request)
    → IsFresh r s
    → let t = (open_stream program r s (ok id, after)).events in
      IsOnly id r t
      × (t.heap r ≡ new_stream program id)
      × ((j : ℤ) → j ≢ id → lookup j t.table ≡ lookup j s.table)
unfolding open_stream add_stream new_stream
open_stream-IsOnly program r id s after fresh =
    let x = new_stream program id in
    let table : (j : ℤ)
        → lookup j (insert (update s.heap r x r).callback_id r s.table)
          ≡ (if id ==ℤ j then some r else lookup j s.table) =
      λ j.
        ap (λ i. lookup j (insert i r s.table)) (ap (λ x. x.callback_id) (update-same s.heap r x))
        ∙ lookup-insert id j r s.table in
    (
      record {
        there = table id ∙ rw ((==ℤ_iff id id).1 refl) refl;
        only = λ j h. ground (arith, table j, h, fresh j, ==ℤ_iff id j);
      },
      update-same s.heap r x,
      λ j ne. ground (arith, table j, ne, ==ℤ_iff id j),
    )

pub remove_stream-Ends :
    (id : ℤ) (r : ℕ) (s : Events)
    → lookup id s.table ≡ some r
    → let v = remove_stream id s in
      (lookup id v.table ≡ none)
      × ((j : ℤ) → j ≢ id → lookup j v.table ≡ lookup j s.table)
      × ((v.heap r).cancelled ≡ true)
unfolding remove_stream shutdown
remove_stream-Ends id r s there =
    rw (there, remove_stream)
      (
        lookup-delete id id s.table ∙ rw ((==ℤ_iff id id).1 refl) refl,
        λ j ne. ground (arith, lookup-delete id j s.table, ne, ==ℤ_iff id j),
        ap (λ x. x.cancelled) (update-same s.heap r _),
      )

pub set_stream-cancelled :
    (r : ℕ) (x : Stream) (s : Events) → ((set_stream r (shutdown x) s).heap r).cancelled ≡ true
unfolding shutdown
set_stream-cancelled r x s = ap (λ x. x.cancelled) (update-same s.heap r _)
