-- ===== src/Client/Operations/Order.antt =====
-- The order of the arguments of NetworkUpdate, with servers of either order.
use go_libvirt.Base.{ℕ, ◌≡◌, ◌↔◌, Bool, true, Option, none, some, List, ok, if◌then◌else◌}
use go_libvirt.Base.Int.{ℤ, pos}
use go_libvirt.Base.Text.{Bytes}
use go_libvirt.Rpc.Route.{remote_program}
use go_libvirt.Client.Remote.{Remote, Request, Args, Network}
use go_libvirt.Client.Remote.Args.{connect_supports_feature_args, network_update_args}
use go_libvirt.Client.Remote.Sent.{with_request}
use go_libvirt.Client.Operations.{has_correct_order_feature}

-- The command and the section that a server reads in the arguments; an old one takes them the other
-- way round.
abbrev pub read_update : Bool → Args → Option (Network × ℕ × ℕ × ℤ × Bytes × ℤ)
read_update old (network_update_args net first second parent_index xml flags) =
    if old
    then some (net, second, first, parent_index, xml, flags)
    else some (net, first, second, parent_index, xml, flags)
read_update old _ = none

module _ (l : Remote) (old : Bool) where
  -- A server that says whether it is an old one, and takes updates.
  pub record IsHonest : Type 0 where
    pub encodes : (args : Args) → (buf : Bytes) × (l.encode args ≡ ok buf)
    pub tells :
        (sent : List Request) (buf : Bytes)
        → l.encode (connect_supports_feature_args has_correct_order_feature) ≡ ok buf
        → (reply : Bytes) × (n : ℤ) × (l.answer (with_request 60 remote_program buf sent)
            ≡ ok reply)
          × ((l.decode_int reply).value ≡ ok n)
          × ((n ≡ pos 0) ↔ (old ≡ true))
    pub updates :
        (sent : List Request) (buf : Bytes)
        → (reply : Bytes) × (l.answer (with_request 291 remote_program buf sent) ≡ ok reply)

  asked : (h : IsHonest) → List Request → List Request
  asked h sent =
      with_request 60 remote_program
        (h.encodes (connect_supports_feature_args has_correct_order_feature)).0 sent
