-- ===== src/Rpc/Callbacks.antt =====
-- rpc.go: the registry of callers that wait for a response, by serial number. A channel is a number;
-- `closed` says which channels are closed and `sent` what was handed over on which channel. The
-- channels have no buffer.
pub mod Registry
pub mod Channels
use go_libvirt.Base.{
  ℕ, zero, suc, ◌≡◌, Bool, true, false, Option, none, some, List, [], ◌∷◌, ◌++◌, ◌==◌,
  if◌then◌else◌,
}
use go_libvirt.Base.Int.{ℤ}
use go_libvirt.Base.Map.{lookup, insert, delete}
use go_libvirt.Base.Text.{Bytes}

pub record Response : Type 0 where
  pub payload : Bytes
  pub status : ℕ

-- `panicked`: a channel was closed twice, or something was sent on a closed channel. `receives` is how
-- many more responses the caller at a channel receives: one for a plain call, those of a stream.
pub record Calls : Type 0 where
  pub callbacks : List (ℤ × ℕ)
  pub closed : ℕ → Bool
  pub sent : List (ℕ × Response)
  pub receives : ℕ → ℕ
  pub panicked : Bool

-- `close(c)`.
abbrev close_channel : ℕ → Calls → Calls
close_channel c s =
    if s.closed c
    then record s { panicked = true }
    else record s { closed = λ d. if c == d then true else s.closed d }

-- A response that the caller at `c` takes, and after which it takes `n` more.
abbrev pub handed : ℕ → ℕ → Response → Calls → Calls
handed c n res s = record s {
  sent = s.sent ++ ((c, res) ∷ []);
  receives = λ d. if c == d then n else s.receives d;
}

-- `c <- res`, which blocks, `none`, where the caller receives no more.
abbrev send_to : ℕ → Response → Calls → Option Calls
send_to c res s =
    if s.closed c
    then some (record s { panicked = true })
    else elim (s.receives c) [ zero ↦ none | suc n ↦ some (handed c n res s) ]

-- `register`.
unfoldable pub register : ℤ → ℕ → Calls → Calls
register id c s = record s { callbacks = insert id c s.callbacks }

-- `callback`: a response that nobody waits for is dropped. A call that gives no value blocks, and holds
-- the lock of the registry, for ever.
unfoldable pub callback : ℤ → Response → Calls → Option Calls
callback id res s = elim (lookup id s.callbacks) [ none ↦ some s | some c ↦ send_to c res s ]

-- `deregister`.
unfoldable pub deregister : ℤ → Calls → Calls
deregister id s = elim (lookup id s.callbacks) [
  | none ↦ s
  | some c ↦ let t = close_channel c s in record t { callbacks = delete id t.callbacks }
]

deregister_each : List (ℤ × ℕ) → Calls → Calls
deregister_each [] s = s
deregister_each ((id, c) ∷ rest) s = deregister_each rest (deregister id s)

-- `deregisterAll`: the range over the map, whose keys are deleted on the way.
unfoldable pub deregister_all : Calls → Calls
unfolding deregister_each
deregister_all s = deregister_each s.callbacks s
