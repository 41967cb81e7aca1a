-- ===== src/Tests/Lifecycle.antt =====
-- The theorems of Lifecycle.antt at concrete inputs: a router with the tunnel of node 1.
use sparkl_router.Common.{codes, ◌≡◌, refl, true, false, none, some, [], ◌∷◌, arith, lookup, nat_eq}
use sparkl_router.Mpsc.{Mpsc}
use sparkl_router.Protocol.{InboundFrame}
use sparkl_router.Tunnel.{NodeTunnel, new_tunnel}
use sparkl_router.Capacity.{ModelCapacityKey, key_eq}
use sparkl_router.Lifecycle.{Router, install, teardown, pinger}
use sparkl_router.Lifecycle.Pinger.{comes_after, pinger-comes_after}
use sparkl_router.Lifecycle.Teardown.{install-replaces, teardown-cleans, late_teardown_unregisters}
use sparkl_router.Tests.Queue.{Queue, queue}

abbrev Frame : Type 0
Frame = InboundFrame (Unit {0})

abbrev q : Mpsc Frame
q = queue Frame

abbrev tunnel : NodeTunnel (Unit {0}) (Queue Frame)
tunnel = record {
  node_id = 1;
  moniker = none;
  sender = [];
  sender_open = true;
  pending = (5, 0) ∷ [];
  channels = λ _. q.channel 256;
  created = 1;
  last_pong_at = 0;
  last_models_refresh_at = 0;
  model_count = 0;
  shutdown = false;
}

abbrev key : ModelCapacityKey
key = record { node_id = 1; model_id = codes "llama" }

abbrev router : Router (Unit {0}) (Queue Frame)
router = record {
  tunnels = (1, 0) ∷ [];
  heap = λ _. tunnel;
  made = 1;
  capacity = record { slots = (key, 0) ∷ []; heap = [] };
}

abbrev after_install : Router (Unit {0}) (Queue Frame)
after_install = install q 1 none 9 router

install-replaces_example :
    (lookup 1 after_install.tunnels ≡ some 1)
    × (lookup 2 after_install.tunnels ≡ lookup 2 router.tunnels)
    × (after_install.heap 1 ≡ new_tunnel q 1 none 9)
    × ((after_install.heap 0).shutdown ≡ true)
    × ((after_install.heap 0).pending ≡ [])
unfolding lookup
install-replaces_example =
    install-replaces q 1 2 none 9 0 router refl (omega arith) (λ e. absurd (omega (arith, e)))

abbrev after_end : Router (Unit {0}) (Queue Frame)
after_end = teardown q 1 0 router

teardown-cleans_example :
    ((after_end.heap 0).pending ≡ [])
    × (lookup 1 after_end.tunnels ≡ none)
    × (lookup 2 after_end.tunnels ≡ lookup 2 router.tunnels)
    × (lookup key after_end.capacity.slots ≡ none)
teardown-cleans_example = teardown-cleans q 1 0 2 key router (λ e. absurd (omega (arith, e)))

late_teardown_unregisters_example :
    (lookup 1 (teardown q 1 0 after_install).tunnels ≡ none)
    × (((teardown q 1 0 after_install).heap 1).shutdown ≡ false)
    × (((teardown q 1 0 after_install).heap 1).sender_open ≡ true)
unfolding lookup
late_teardown_unregisters_example = late_teardown_unregisters q 1 none 9 0 router refl (omega arith)

pinger-comes_after_example : (pinger 30 10 (30 ∷ 60 ∷ 90 ∷ []) tunnel).shutdown ≡ true
unfolding comes_after
pinger-comes_after_example =
    pinger-comes_after 30 10 (omega arith) (30 ∷ 60 ∷ 90 ∷ []) tunnel refl refl
