-- ===== src/Rpc/Events.antt =====
-- rpc.go and libvirt.go: the table of event streams. A stream is shared with the goroutine of its
-- subscriber, so the table holds a reference, and `heap` the stream behind it.
pub mod Table
use go_libvirt.Base.{
  ℕ, Bool, true, false, ◌&&◌, ◌||◌, Option, none, some, List, [], ◌∷◌, ◌++◌, ◌==◌, if◌then◌else◌,
}
use go_libvirt.Base.Int.{ℤ}
use go_libvirt.Base.Map.{lookup, insert, delete}
use go_libvirt.Event.Stream.{Event, Stream, get_callback_id, shutdown}

pub record Events : Type 0 where
  pub table : List (ℤ × ℕ)
  pub heap : ℕ → Stream

abbrev pub update : (ℕ → Stream) → ℕ → Stream → ℕ → Stream
update heap r s q = if r == q then s else heap q

-- `q.Push(e)`. With the context cancelled and `process` not yet gone both cases of its select are
-- ready, and the runtime's choice is `drops`.
unfoldable pub push_event : Bool → Stream → Event → Stream
push_event drops s e =
    if s.cancelled && (drops || s.closed) then s else record s { queue = s.queue ++ (e ∷ []) }

-- `stream`: an event for which nobody has a stream is dropped.
unfoldable pub stream : Bool → Event → Events → Events
stream drops e s = elim (lookup (get_callback_id e) s.table) [
  | none ↦ s
  | some r ↦ record s { heap = update s.heap r (push_event drops (s.heap r) e) }
]

-- `addStream`.
unfoldable pub add_stream : ℕ → Events → Events
add_stream r s = record s { table = insert (s.heap r).callback_id r s.table }

abbrev shutdown_ref : ℕ → Events → Events
shutdown_ref r s = record s { heap = update s.heap r (shutdown (s.heap r)) }

-- `removeStream`, which always returns nil.
unfoldable pub remove_stream : ℤ → Events → Events
remove_stream id s = elim (lookup id s.table) [
  | none ↦ s
  | some r ↦ shutdown_ref r (record s { table = delete id s.table })
]

drop_stream : ℕ → Events → Events
drop_stream r s =
    let t = shutdown_ref r s in record t { table = delete (t.heap r).callback_id t.table }

remove_each : List (ℤ × ℕ) → Events → Events
remove_each [] s = s
remove_each ((id, r) ∷ rest) s = remove_each rest (drop_stream r s)

-- `removeAllStreams`. It deletes by the stream's own callback.
unfoldable pub remove_all_streams : Events → Events
unfolding remove_each drop_stream
remove_all_streams s = remove_each s.table s
