-- ===== src/Lifecycle/Teardown.antt =====
-- Reconnects and ends of tunnels (src/tunnel/connect.rs, src/tunnel/lifecycle.rs).
use sparkl_router.Common.{
  ℕ, ◌<◌, ◌≡◌, ◌≢◌, refl, ◌∙◌, true, false, Option, none, some, [], arith, ◌==◌, if◌then◌else◌,
  lookup, insert, remove, nat_eq, lookup-insert_self, lookup-insert_ne, lookup-remove_self,
  lookup-remove_ne, Text,
}
use sparkl_router.Mpsc.{Mpsc}
use sparkl_router.Protocol.{InboundFrame}
use sparkl_router.Tunnel.{update, new_tunnel, fail_all_pending}
use sparkl_router.Capacity.{ModelCapacityKey, key_eq}
use sparkl_router.Capacity.Clearing.{lookup-clear_node}
use sparkl_router.Lifecycle.{Router, install, teardown, retire, retire_old}

module _ {V : Type 0} (q : Mpsc (InboundFrame V)) where
  retired :
      (node_id a : ℕ) (r : Router V q.Chan)
      → lookup node_id r.tunnels ≡ some a
      → retire_old q node_id r ≡ record r {
        tunnels = remove node_id r.tunnels;
        heap = update r.heap a (retire q (r.heap a));
      }
  retired node_id a r found = rw (found, retire_old) refl

  -- When a node whose tunnel is registered connects again, the new tunnel takes the entry of the node
  -- and no other entry changes; the old tunnel is told to shut down and none of its requests waits.
  pub install-replaces :
      (node_id other : ℕ) (moniker : Option Text) (now a : ℕ) (r : Router V q.Chan)
      → lookup node_id r.tunnels ≡ some a
      → a < r.made
      → node_id ≢ other
      → let r' = install q node_id moniker now r in
        (lookup node_id r'.tunnels ≡ some r.made)
        × (lookup other r'.tunnels ≡ lookup other r.tunnels)
        × (r'.heap r.made ≡ new_tunnel q node_id moniker now)
        × ((r'.heap a).shutdown ≡ true)
        × ((r'.heap a).pending ≡ [])
  unfolding install fail_all_pending
  install-replaces node_id other moniker now a r found made differ =
      let same_made : (r.made == r.made) ≡ true = ground arith in
      let same_a : (a == a) ≡ true = ground arith in
      let apart : (r.made == a) ≡ false = ground arith in
      rw (retired node_id a r found, install)
        (
          lookup-insert_self node_id r.made (remove node_id r.tunnels),
          lookup-insert_ne node_id other r.made (remove node_id r.tunnels) differ
              ∙ lookup-remove_ne node_id other r.tunnels differ,
          rw (update, same_made) refl,
          rw (update, apart, same_a) refl,
          rw (update, apart, same_a) refl,
        )

  -- The end of a tunnel: no request of it waits, the entry of its node is gone and no other entry
  -- changes, and of the slots exactly those of its node are forgotten.
  pub teardown-cleans :
      (node_id a other : ℕ) (key : ModelCapacityKey) (r : Router V q.Chan)
      → node_id ≢ other
      → let r' = teardown q node_id a r in
        ((r'.heap a).pending ≡ [])
        × (lookup node_id r'.tunnels ≡ none)
        × (lookup other r'.tunnels ≡ lookup other r.tunnels)
        × (lookup key r'.capacity.slots
            ≡ (if key.node_id == node_id then none else lookup key r.capacity.slots))
  unfolding teardown fail_all_pending
  teardown-cleans node_id a other key r differ =
      let same_a : (a == a) ≡ true = ground arith in
      (
        rw (update, same_a) refl,
        lookup-remove_self node_id r.tunnels,
        lookup-remove_ne node_id other r.tunnels differ,
        lookup-clear_node r.capacity node_id key,
      )

  -- When the lifecycle of a replaced tunnel ends after the reconnect, the node has no entry any more,
  -- although its new tunnel is not told to shut down and still takes frames.
  pub late_teardown_unregisters :
      (node_id : ℕ) (moniker : Option Text) (now a : ℕ) (r : Router V q.Chan)
      → lookup node_id r.tunnels ≡ some a
      → a < r.made
      → let r' = teardown q node_id a (install q node_id moniker now r) in
        (lookup node_id r'.tunnels ≡ none)
        × ((r'.heap r.made).shutdown ≡ false)
        × ((r'.heap r.made).sender_open ≡ true)
  unfolding teardown install new_tunnel
  late_teardown_unregisters node_id moniker now a r found made =
      let same_made : (r.made == r.made) ≡ true = ground arith in
      let apart : (a == r.made) ≡ false = ground arith in
      rw (retired node_id a r found, install)
        (
          lookup-remove_self node_id (insert node_id r.made (remove node_id r.tunnels)),
          rw (update, apart, same_made) refl,
          rw (update, apart, same_made) refl,
        )
