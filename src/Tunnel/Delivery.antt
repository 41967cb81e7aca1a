-- ===== src/Tunnel/Delivery.antt =====
-- What a waiting request receives (src/tunnel/dispatch.rs).
use mathlib.Core.List.{append_assoc, append-nil}
use sparkl_router.Common.{
  ℕ, suc, ◌≤◌, ◌≡◌, ◌≢◌, refl, sym, ap, subst, ◌∙◌, inl, inr, some, List, [], ◌∷◌, ◌++◌, arith,
  ◌==◌, ==_iff, Map, lookup, insert, remove, nat_eq, length, Bool-cases, Option-cases,
}
use sparkl_router.Tunnel.Views.{
  View, Inv, Status, update_self, update_ne, lost, ends, Over-more, arrive_own, Status-remove,
  Status-insert, View-same, View-prefix, View-all,
}
use sparkl_router.Mpsc.{Mpsc}
use sparkl_router.Protocol.{InboundFrame, is_terminal_frame}
use sparkl_router.Tunnel.{
  NodeTunnel, PendingRequest, update, register_pending, drop_pending, route_inbound, send_or_lose,
  fail_all_pending, fail_entries, disconnected, recv, has_sender,
}
use sparkl_router.Tunnel.Events.{
  Event, arrives, reads, registers, drops, disconnects, State, logged, step, run, meant_for1,
  meant_for, upto_terminal, Foreign1, Foreign,
}
use sparkl_router.Tunnel.Entries.{Free, Owns, Free-ne, Free-remove, Owns-ne}

module _ {V : Type 0} (q : Mpsc (InboundFrame V)) (p : PendingRequest) where
  -- A view past a write to another channel.
  elsewhere :
      (seen log : List (InboundFrame V)) (m : Map ℕ ℕ) (g : ℕ → q.Chan) (c : ℕ) (d : q.Chan)
      (created : ℕ)
      → c ≢ p.rx
      → View q p seen log m (g p.rx) created
      → View q p seen log m (update g c d p.rx) created
  elsewhere seen log m g c d created apart h =
      subst (λ e. View q p seen log m e created) (sym (update_ne q p g c d apart)) h

  arrive_other :
      (seen : List (InboundFrame V)) (s : State V q.Chan) (rid : ℕ) (f : InboundFrame V)
      → rid ≢ p.rid
      → Inv q p seen s
      → Inv q p seen (record s { tunnel = route_inbound q rid f s.tunnel })
  unfolding route_inbound
  arrive_other seen s rid f other (cell, st) =
      let t = s.tunnel in
      elim (Option-cases (lookup rid t.pending)) [
        | inl missing ↦ rw (missing, route_inbound) (cell, st)
        | inr (c, found) ↦
            let apart = apart_of st c found in
            let smaller = Status-remove q p seen s.log t.pending (t.channels p.rx) rid other st in
            elim (Bool-cases (is_terminal_frame f)) [
              | inl e ↦
                  rw (found, e, route_inbound)
                    (elsewhere seen s.log (remove rid t.pending) t.channels c
                      (send_or_lose q f (t.channels c)) t.created apart (cell, smaller))
              | inr e ↦ elim (Option-cases (q.try_send f (t.channels c))) [
                | inl refused ↦ rw (found, e, refused, route_inbound) (cell, smaller)
                | inr (d, sent) ↦
                    rw (found, e, sent, route_inbound)
                      (elsewhere seen s.log t.pending t.channels c d t.created apart (cell, st))
              ]
            ]
      ]
    where
      apart_of :
          Status q p seen s.log s.tunnel.pending (s.tunnel.channels p.rx)
          → (c : ℕ) → lookup rid s.tunnel.pending ≡ some c
          → c ≢ p.rx
      apart_of (inl live) c found = Owns-ne p.rid p.rx rid c s.tunnel.pending live.0 other found
      apart_of (inr over) c found = Free-ne p.rid p.rx rid c s.tunnel.pending over.0 found

  -- The end of the tunnel writes once to a channel that has an entry, and to no other.
  fail_entries-Free :
      (m : Map ℕ ℕ) (g : ℕ → q.Chan) → Free p.rid p.rx m → fail_entries q m g p.rx ≡ g p.rx
  unfolding fail_entries
  fail_entries-Free [] g h = refl
  fail_entries-Free ((k, v) ∷ m) g (_, apart, h) =
      fail_entries-Free m (update g v (send_or_lose q (disconnected q) (g v))) h
      ∙ update_ne q p g v _ apart

  pub fail_entries-Owns :
      (m : Map ℕ ℕ) (g : ℕ → q.Chan)
      → Owns p.rid p.rx m
      → fail_entries q m g p.rx ≡ send_or_lose q (disconnected q) (g p.rx)
  unfolding fail_entries
  fail_entries-Owns [] g h = absurd h
  fail_entries-Owns ((k, v) ∷ m) g (inl (_, here, h)) =
      fail_entries-Free m (update g v (send_or_lose q (disconnected q) (g v))) h
      ∙ ap (λ v. update g v (send_or_lose q (disconnected q) (g v)) p.rx) here
      ∙ update_self q p g (send_or_lose q (disconnected q) (g p.rx))
  fail_entries-Owns ((k, v) ∷ m) g (inr (_, apart, h)) =
      fail_entries-Owns m (update g v (send_or_lose q (disconnected q) (g v))) h
      ∙ ap (send_or_lose q (disconnected q)) (update_ne q p g v _ apart)

  disconnect :
      (seen : List (InboundFrame V)) (s : State V q.Chan)
      → Inv q p seen s
      → Inv q p (seen ++ disconnected q ∷ []) (record s { tunnel = fail_all_pending q s.tunnel })
  unfolding fail_all_pending send_or_lose
  disconnect seen s (cell, inl live) =
      let t = s.tunnel in
      let chan = t.channels p.rx in
      rw (fail_entries-Owns t.pending t.channels live.0)
        (elim (Option-cases (q.try_send (disconnected q) chan)) [
          | inl refused ↦
              rw (refused, send_or_lose)
                (lost q p seen s.log t.pending chan t.created (disconnected q) cell live [] tt
                  refused)
          | inr (d, sent) ↦
              rw (sent, send_or_lose)
                (ends q p seen s.log t.pending chan t.created (disconnected q) cell live d sent []
                  tt refl)
        ])
  disconnect seen s (cell, inr over) =
      rw (fail_entries-Free s.tunnel.pending s.tunnel.channels over.0) (
        let (_, kept, whole) =
          Over-more q p seen s.log (disconnected q ∷ []) s.tunnel.pending (s.tunnel.channels p.rx)
            over in
        (cell, inr (tt, kept, whole)))

  register :
      (seen : List (InboundFrame V)) (s : State V q.Chan) (rid : ℕ)
      → rid ≢ p.rid
      → Inv q p seen s
      → Inv q p seen (record s { tunnel = (register_pending q rid s.tunnel).0 })
  unfolding register_pending
  register seen s rid other (cell, st) =
      let t = s.tunnel in
      let apart : t.created ≢ p.rx = omega (arith, cell.made) in
      elsewhere seen s.log (insert rid t.created t.pending) t.channels t.created (q.channel 256)
        (suc t.created) apart
        (
          record { made = omega (arith, cell.made); sized = cell.sized; open_rx = cell.open_rx },
          Status-insert q p seen s.log t.pending (t.channels p.rx) rid t.created other apart st,
        )

  drop_other :
      (seen : List (InboundFrame V)) (s : State V q.Chan) (other : PendingRequest)
      → other.rid ≢ p.rid
      → other.rx ≢ p.rx
      → Inv q p seen s
      → Inv q p seen (record s { tunnel = drop_pending q other s.tunnel })
  unfolding drop_pending
  drop_other seen s other differ apart (cell, st) =
      let t = s.tunnel in
      elsewhere seen s.log (remove other.rid t.pending) t.channels other.rx
        (q.close (t.channels other.rx)) t.created apart
        (cell, Status-remove q p seen s.log t.pending (t.channels p.rx) other.rid differ st)

  read_one :
      (seen : List (InboundFrame V)) (s : State V q.Chan)
      → Inv q p seen s
      → Inv q p seen (step q p reads s)
  unfolding step recv
  read_one seen s h =
      let t = s.tunnel in
      let chan = t.channels p.rx in
      elim (Option-cases (q.recv chan)) [
        | inl none_left ↦ elim (Bool-cases (has_sender p.rx t.pending)) [
          | inl e ↦
              rw (none_left, recv, e, logged)
                (View-same q p seen s.log (s.log ++ []) t.pending chan chan t.created
                  (rw append-nil) refl refl h)
          | inr e ↦
              rw (none_left, recv, e, logged)
                (View-same q p seen s.log (s.log ++ []) t.pending chan chan t.created
                  (rw append-nil) refl refl h)
        ]
        | inr ((f, d), taken) ↦
            let (e, b, o) = q.recv_some chan f d taken in
            rw (taken, recv)
              (subst (λ c. View q p seen (s.log ++ f ∷ []) t.pending c t.created)
                (sym (update_self q p t.channels d))
                (View-same q p seen s.log (s.log ++ f ∷ []) t.pending chan d t.created
                  (append_assoc s.log (f ∷ []) (q.contents d) ∙ ap (λ l. s.log ++ l) (sym e)) b o
                  h))
      ]

  step-Inv :
      (seen : List (InboundFrame V)) (e : Event V) (s : State V q.Chan)
      → Foreign1 p e
      → Inv q p seen s
      → Inv q p (seen ++ meant_for1 q p.rid e) (step q p e s)
  unfolding step
  step-Inv seen (arrives rid f) s ok h = elim (Bool-cases (rid == p.rid)) [
    | inl e ↦ rw e (
        subst (λ r. Inv q p (seen ++ f ∷ []) (record s { tunnel = route_inbound q r f s.tunnel }))
          (sym ((==_iff rid p.rid).0 e)) (arrive_own q p seen s f h))
    | inr e ↦ rw (e, append-nil) (arrive_other seen s rid f (ground arith) h)
  ]
  step-Inv seen reads s ok h = rw append-nil (read_one seen s h)
  step-Inv seen (registers rid) s ok h = rw append-nil (register seen s rid ok h)
  step-Inv seen (drops other) s ok h = rw append-nil (drop_other seen s other ok.0 ok.1 h)
  step-Inv seen disconnects s ok h = disconnect seen s h

  run-Inv :
      (seen : List (InboundFrame V)) (es : List (Event V)) (s : State V q.Chan)
      → Foreign p es
      → Inv q p seen s
      → Inv q p (seen ++ meant_for q p.rid es) (run q p es s)
  unfolding run meant_for
  run-Inv seen [] s ok h = rw append-nil h
  run-Inv seen (e ∷ es) s ok h =
      rw (← append_assoc)
        (run-Inv (seen ++ meant_for1 q p.rid e) es (step q p e s) ok.1 (step-Inv seen e s ok.0 h))

-- The request right after `register_pending`.
abbrev pub registered :
    {V : Type 0} (q : Mpsc (InboundFrame V)) → ℕ → NodeTunnel V q.Chan → State V q.Chan
registered q rid t = record { tunnel = (register_pending q rid t).0; log = [] }

-- An id is fresh if no entry has it, nor the number of the channel that is made next.
abbrev pub IsFresh : {V C : Type 0} → ℕ → NodeTunnel V C → Type 0
IsFresh rid t = Free rid t.created t.pending

module _ {V : Type 0} (q : Mpsc (InboundFrame V)) (rid : ℕ) (t : NodeTunnel V q.Chan)
    (fresh : IsFresh rid t) where
  start-Inv : Inv q (register_pending q rid t).1 [] (registered q rid t)
  unfolding register_pending insert upto_terminal
  start-Inv =
      let (empty, size, alive) = q.channel_fresh 256 in
      subst
        (λ c.
          View q (record { rid = rid; rx = t.created }) [] []
            ((rid, t.created) ∷ remove rid t.pending) c (suc t.created))
        (sym (update_self q (record { rid = rid; rx = t.created }) t.channels (q.channel 256)))
        (
          record { made = omega arith; sized = size; open_rx = alive },
          inl (inl (refl, refl, Free-remove rid t.created rid t.pending fresh), empty, tt),
        )

  module _ (es : List (Event V)) (ok : Foreign (register_pending q rid t).1 es) where
    done :
        Inv q
          (register_pending q rid t).1
          (meant_for q rid es)
          (run q (register_pending q rid t).1 es (registered q rid t))
    unfolding register_pending
    done = run-Inv q (register_pending q rid t).1 [] es (registered q rid t) ok start-Inv

    -- Whatever frames come for this and for other requests, in whatever order, whatever other requests
    -- come and go with other ids and channels, and whether or not the tunnel ends: what a registered
    -- request has read is a beginning of the frames that were meant for it, in their order, and
    -- nothing after the first terminal one.
    pub received_prefix :
        (zs : List (InboundFrame V)) × ((run q
              (register_pending q rid t).1
              es
              (registered q rid t)).log
            ++ zs
          ≡ upto_terminal (meant_for q rid es))
    received_prefix = View-prefix q (register_pending q rid t).1 (meant_for q rid es) _ _ _ _ done

    -- Whatever happens to the tunnel while a registered request waits, if at most 256 frames are meant
    -- for it, none is lost: what it has read and what its channel still holds are these frames up to
    -- the first terminal one.
    pub received_all :
        length (meant_for q rid es) ≤ 256
        → (run q (register_pending q rid t).1 es (registered q rid t)).log
            ++ q.contents (
                (run q (register_pending q rid t).1 es (registered q rid t)).tunnel.channels
                  t.created)
          ≡ upto_terminal (meant_for q rid es)
    unfolding register_pending
    received_all short =
        View-all q (register_pending q rid t).1 (meant_for q rid es) _ _ _ _ done short
