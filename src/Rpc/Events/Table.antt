-- ===== src/Rpc/Events/Table.antt =====
-- What the operations on the table of streams keep and bring about.
use go_libvirt.Base.{
  ℕ, ◌≡◌, ◌⊎◌, refl, ◌∙◌, Bool, true, none, some, List, [], ◌∷◌, arith, ==_iff, if◌then◌else◌,
  Bool-cases, Option-cases, inl, inr,
}
use go_libvirt.Base.Int.{ℤ, ◌==ℤ◌, ==ℤ_iff}
use go_libvirt.Base.Map.{lookup, delete, lookup-insert, lookup-delete, lookup-nil, lookup-cons}
use go_libvirt.Event.Stream.{Event, Stream, get_callback_id, shutdown}
use go_libvirt.Rpc.Events.{
  Events, update, push_event, stream, add_stream, remove_stream, drop_stream, remove_each,
  remove_all_streams,
}

-- A stream stands in the table under its own callback.
pub record IsKeyed (s : Events) : Type 0 where
  pub keyed : (id : ℤ) (r : ℕ) → lookup id s.table ≡ some r → (s.heap r).callback_id ≡ id

pub push_event-callback_id :
    (drops : Bool) (s : Stream) (e : Event) → (push_event drops s e).callback_id ≡ s.callback_id
unfolding push_event
push_event-callback_id drops s e = ground arith

shutdown-callback_id : (s : Stream) → (shutdown s).callback_id ≡ s.callback_id
unfolding shutdown
shutdown-callback_id s = refl

-- Changing a stream without its callback keeps the table right.
update-IsKeyed :
    (s : Events) (r : ℕ) (x : Stream)
    → x.callback_id ≡ (s.heap r).callback_id
    → IsKeyed s
    → IsKeyed (record s { heap = update s.heap r x })
update-IsKeyed s r x same v = record {
  keyed = λ id q h. ground (arith, v.keyed id q h, same, ==_iff r q);
}

pub stream-IsKeyed :
    (drops : Bool) (e : Event) (s : Events) → IsKeyed s → IsKeyed (stream drops e s)
unfolding stream
stream-IsKeyed drops e s v = elim (Option-cases (lookup (get_callback_id e) s.table)) [
  | inl gone ↦ rw (gone, stream) v
  | inr (r, found) ↦
      rw (found, stream) (update-IsKeyed s r _ (push_event-callback_id drops (s.heap r) e) v)
]

pub add_stream-IsKeyed : (r : ℕ) (s : Events) → IsKeyed s → IsKeyed (add_stream r s)
unfolding add_stream
add_stream-IsKeyed r s v = record {
  keyed = λ id q h. ground (
    arith,
    lookup-insert (s.heap r).callback_id id r s.table,
    v.keyed id q,
    ==ℤ_iff (s.heap r).callback_id id,
  );
}

delete-IsKeyed :
    (id : ℤ) (s : Events) → IsKeyed s → IsKeyed (record s { table = delete id s.table })
delete-IsKeyed id s v = record {
  keyed = λ j q h. ground (arith, lookup-delete id j s.table, v.keyed j q);
}

pub remove_stream-IsKeyed : (id : ℤ) (s : Events) → IsKeyed s → IsKeyed (remove_stream id s)
unfolding remove_stream
remove_stream-IsKeyed id s v = elim (Option-cases (lookup id s.table)) [
  | inl gone ↦ rw (gone, remove_stream) v
  | inr (r, found) ↦
      rw (found, remove_stream)
        (update-IsKeyed _ r _ (shutdown-callback_id (s.heap r)) (delete-IsKeyed id s v))
]

lookup-remove_stream :
    (id j : ℤ) (s : Events)
    → lookup j (remove_stream id s).table ≡ (if id ==ℤ j then none else lookup j s.table)
unfolding remove_stream
lookup-remove_stream id j s = ground (arith, lookup-delete id j s.table, ==ℤ_iff id j)

remove_stream-gone : (id : ℤ) (s : Events) → lookup id s.table ≡ none → remove_stream id s ≡ s
unfolding remove_stream
remove_stream-gone id s gone = rw (gone, remove_stream)

-- `removeStream` takes the stream out, shuts it down and leaves the other entries; calling it again
-- changes nothing.
pub remove_stream_lem :
    (id : ℤ) (r : ℕ) (s : Events)
    → lookup id s.table ≡ some r
    → let t = remove_stream id s in
      ((t.heap r).cancelled ≡ true)
      × ((j : ℤ) → lookup j t.table ≡ (if id ==ℤ j then none else lookup j s.table))
      × (remove_stream id t ≡ t)
remove_stream_lem id r s found = (
  shut,
  (λ j. lookup-remove_stream id j s),
  remove_stream-gone id _ (lookup-remove_stream id id s ∙ rw ((==ℤ_iff id id).1 refl)),
)
  where
    shut : ((remove_stream id s).heap r).cancelled ≡ true
    shut = unfold remove_stream shutdown in ground (arith, ==_iff r r)

drop_stream-IsKeyed : (r : ℕ) (s : Events) → IsKeyed s → IsKeyed (drop_stream r s)
unfolding drop_stream
drop_stream-IsKeyed r s v =
    delete-IsKeyed _ _ (update-IsKeyed s r _ (shutdown-callback_id (s.heap r)) v)

lookup-drop_stream :
    (r : ℕ) (j : ℤ) (s : Events)
    → lookup j (drop_stream r s).table
      ≡ (if (s.heap r).callback_id ==ℤ j then none else lookup j s.table)
unfolding drop_stream shutdown
lookup-drop_stream r j s =
    ground (arith, ==_iff r r, lookup-delete (s.heap r).callback_id j s.table)

drop_stream-cancelled :
    (r q : ℕ) (s : Events)
    → (r ≡ q) ⊎ ((s.heap q).cancelled ≡ true)
    → ((drop_stream r s).heap q).cancelled ≡ true
unfolding drop_stream shutdown
drop_stream-cancelled r q s h = ground (arith, ==_iff r q)

remove_each-cancelled :
    (l : List (ℤ × ℕ)) (s : Events) (q : ℕ)
    → ((j : ℤ) × (lookup j l ≡ some q)) ⊎ ((s.heap q).cancelled ≡ true)
    → ((remove_each l s).heap q).cancelled ≡ true
unfolding remove_each
remove_each-cancelled [] s q (inl (j, found)) = absurd (ground (arith, lookup-nil {V = ℕ} j))
remove_each-cancelled [] s q (inr h) = h
remove_each-cancelled ((i, r) ∷ l) s q (inr h) =
    remove_each-cancelled l _ q (inr (drop_stream-cancelled r q s (inr h)))
remove_each-cancelled ((i, r) ∷ l) s q (inl (j, found)) = elim (Bool-cases (i ==ℤ j)) [
  | inl same ↦
      remove_each-cancelled l _ q
        (inr (drop_stream-cancelled r q s (inl (ground (arith, lookup-cons i j r l)))))
  | inr other ↦ remove_each-cancelled l _ q (inl (j, ground (arith, lookup-cons i j r l)))
]

-- Each key of the range is either still to come or gone.
remove_each-gone :
    (l : List (ℤ × ℕ)) (s : Events) (j : ℤ)
    → IsKeyed s
    → ((r : ℕ) → lookup j s.table ≡ some r → lookup j l ≡ some r)
    → lookup j (remove_each l s).table ≡ none
unfolding remove_each
remove_each-gone [] s j v h = elim (Option-cases (lookup j s.table)) [
  | inl gone ↦ gone
  | inr (r, found) ↦ absurd (ground (arith, h r found, lookup-nil {V = ℕ} j))
]
remove_each-gone ((i, r) ∷ l) s j v h =
    remove_each-gone l (drop_stream r s) j (drop_stream-IsKeyed r s v) λ q found. ground (
      arith,
      lookup-drop_stream r j s,
      lookup-cons i j r l,
      h q,
      v.keyed j q,
      ==ℤ_iff (s.heap r).callback_id j,
    )

-- `removeAllStreams` empties the table and shuts every stream of it down, if each stands under its
-- own callback, as `addStream` puts it.
remove_all_streams_lem :
    (s : Events)
    → IsKeyed s
    → ((j : ℤ) → lookup j (remove_all_streams s).table ≡ none)
      × ((j : ℤ) (r : ℕ)
          → lookup j s.table ≡ some r
          → ((remove_all_streams s).heap r).cancelled ≡ true)
unfolding remove_all_streams
remove_all_streams_lem s v = (
  (λ j. remove_each-gone s.table s j v (λ r h. h)),
  λ j r found. remove_each-cancelled s.table s r (inl (j, found)),
)
