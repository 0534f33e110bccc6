-- ===== src/Client/Wired/Lost.antt =====
-- A call whose last request waits when the connection is lost.
use go_libvirt.Base.{ℕ, ◌≡◌, ◌≢◌, refl, ◌∙◌, false, inl, inr, Option, none, some, List, [], err}
use go_libvirt.Base.Int.{ℤ}
use go_libvirt.Base.Map.{lookup}
use go_libvirt.Base.Text.{Bytes}
use go_libvirt.Rpc.Callbacks.{Calls, deregister_all}
use go_libvirt.Rpc.Callbacks.Registry.{IsWell}
use go_libvirt.Rpc.Errors.{GoError, interrupted}
use go_libvirt.Rpc.Request.{Inbox, Finished, no_response, request}
use go_libvirt.Rpc.Request.Streams.{inbox_of, lost_connection_returns}
use go_libvirt.Client.Remote.{Remote, Request}
use go_libvirt.Client.Wired.{ClientCall, IsWired, perform}
use go_libvirt.Client.Wired.Performed.{perform-Reports}
use go_libvirt.Client.Wired.Reports.{Carries}

-- The packet of a request has been sent, and its caller is registered with nothing on its channel,
-- when `deregisterAll` is called.
pub record IsLost (arrived : Option GoError × Inbox) : Type 0 where
  pub calls : Calls
  pub call_id : ℤ
  pub channel : ℕ
  pub well : IsWell calls
  pub registered : lookup call_id calls.callbacks ≡ some channel
  pub lost : arrived ≡ (none, inbox_of channel [] (deregister_all calls))

module _ (l : Remote) (decode_error : Bytes → Option GoError)
    (arrives : List Request → Option GoError × Inbox) where
  -- What a call returns whose last request has ended with an error.
  pub error_reported :
      IsWired l decode_error arrives
      → (uri : Bytes) (c : ClientCall) (sent : List Request) (f : Finished) (e : GoError)
      → (perform l uri c sent).1 ≢ sent
      → request decode_error
          (arrives (perform l uri c sent).1).0
          (arrives (perform l uri c sent).1).1
        ≡ some f
      → f.reply.1 ≡ some e
      → (x : GoError) × ((perform l uri c sent).0 ≡ err x) × Carries e x
  error_reported wire uri c sent f e asked ends bad =
      elim ((perform-Reports l uri c).reports sent) [
        | inl same ↦ absurd (asked same)
        | inr told ↦ told e (wire.wired (perform l uri c sent).1 f ends ∙ rw bad refl)
      ]

  -- Over requestStream: a call of the client, a subscription included but not Disconnect, has sent a
  -- request, and the connection is lost while its last request waits with nothing on its channel. The
  -- call returns with an error that is ErrInterrupted or wraps it.
  pub lost_connection_reported :
      IsWired l decode_error arrives
      → (uri : Bytes) (c : ClientCall) (sent : List Request) → (perform l uri c sent).1 ≢ sent
      → IsLost (arrives (perform l uri c sent).1)
      → (x : GoError) × ((perform l uri c sent).0 ≡ err x) × Carries interrupted x
  lost_connection_reported wire uri c sent asked gone =
      error_reported wire uri c sent
        (record { reply = (no_response, some interrupted); aborted = false; sink = none })
        interrupted asked
        (rw gone.lost
          (lost_connection_returns decode_error gone.calls gone.call_id gone.channel [] none none
            gone.well gone.registered tt).1)
        refl
