-- ===== src/Event/Stream.antt =====
-- internal/event/event.go and internal/event/stream.go. A stream is a goroutine, `process`, that
-- serves the other goroutines through unbuffered channels; each rendezvous is one action here, and
-- goroutines meet in any order, so what a stream may do is a list of actions.
pub mod Fifo
pub mod Progress
use go_libvirt.Base.{
  ℕ, Bool, true, false, not, ◌&&◌, Option, none, some, List, [], ◌∷◌, ◌++◌, length, if◌then◌else◌,
  ltb,
}
use go_libvirt.Base.Int.{ℤ, pos}
use go_libvirt.Base.Text.{Bytes}

-- `emptyEvent`, or an event with its callback and its contents.
pub data Event : Type 0 where
  empty_event : Event
  message : ℤ → Bytes → Event

unfoldable pub get_callback_id : Event → ℤ
get_callback_id empty_event = pos 0
get_callback_id (message id body) = id

-- `Program` and `CallbackID`, the queue, whether the context is cancelled, and whether `process` has
-- returned and so closed `out`.
pub record Stream : Type 0 where
  pub program : ℕ
  pub callback_id : ℤ
  pub queue : List Event
  pub cancelled : Bool
  pub closed : Bool

-- `NewStream`, with `start`.
unfoldable pub new_stream : ℕ → ℤ → Stream
new_stream program id = record {
  program = program;
  callback_id = id;
  queue = [];
  cancelled = false;
  closed = false;
}

-- `nextEvent`: whether the channel is `s.out` rather than nil, and the event.
next_event : List Event → Bool × Event
next_event [] = (false, empty_event)
next_event (e ∷ es) = (true, e)

-- `s.queue[1:]`.
rest_of : List Event → List Event
rest_of [] = []
rest_of (e ∷ es) = es

-- `Shutdown`: the cancel function of the context. Calling it again changes nothing.
unfoldable pub shutdown : Stream → Stream
shutdown s = record s { cancelled = true }

-- What the goroutines do together:
-- `push e`: `Push` meets the first case of the select;
-- `push_dropped e`: `Push` sees the cancelled context;
-- `len`: `Len` meets the second case;
-- `recv`: a receive from `Recv()` meets the third case, or finds the channel closed;
-- `shut`: `Shutdown`;
-- `exit`: `process` takes the last case and closes `out`.
pub data Action : Type 0 where
  push : Event → Action
  push_dropped : Event → Action
  len recv shut exit : Action

pub data Output : Type 0 where
  nothing : Output
  count : ℕ → Output
  got : Event → Output
  finished : Output

deliver : Stream → Bool × Event → Option (Stream × Output)
deliver s (true, e) = some (record s { queue = rest_of s.queue }, got e)
deliver s (false, e) = none

-- `none` where the action has to wait: the two ends of a rendezvous are not both there.
unfoldable pub step : Stream → Action → Option (Stream × Output)
unfolding deliver next_event rest_of shutdown
step s (push e) =
    if s.closed then none else some (record s { queue = s.queue ++ (e ∷ []) }, nothing)
step s (push_dropped e) = if s.cancelled then some (s, nothing) else none
step s len = if s.closed then none else some (s, count (length s.queue))
step s recv = if s.closed then some (s, finished) else deliver s (next_event s.queue)
step s shut = some (shutdown s, nothing)
step s exit =
    if s.cancelled && not s.closed then some (record s { closed = true }, nothing) else none

abbrev note : Output → Option (Stream × List Output) → Option (Stream × List Output)
note o none = none
note o (some (s, os)) = some (s, o ∷ os)

-- A history: `none` where some action of it has to wait.
unfoldable pub run : Stream → List Action → Option (Stream × List Output)
run s [] = some (s, [])
run s (a ∷ later) = elim (step s a) [ none ↦ none | some (s', o) ↦ note o (run s' later) ]
