-- ===== src/Tunnel/Views.antt =====
-- How the arrival of a frame changes what a waiting request has received and can still receive
-- (src/tunnel/dispatch.rs).
use mathlib.Core.List.{append_assoc, append-nil}
use native.Mathlib.Decide.{dec_lt}
use sparkl_router.Common.{
  ℕ, ◌≤◌, ◌<◌, ◌≡◌, ◌≢◌, sym, ap, subst, ◌∙◌, ◌⊎◌, inl, inr, true, false, none, some, List, [], ◌∷◌,
  ◌++◌, arith, Map, insert, remove, nat_eq, length, length-append, Bool-cases, Option-cases,
}
use sparkl_router.Mpsc.{Mpsc}
use sparkl_router.Protocol.{InboundFrame, is_terminal_frame}
use sparkl_router.Tunnel.{PendingRequest, update, route_inbound, send_or_lose}
use sparkl_router.Tunnel.Events.{State, upto_terminal}
use sparkl_router.Tunnel.Frames.{
  NoTerminal, terminated, NoTerminal-append, terminated-append, terminated_still,
  upto_terminal-live, upto_terminal-terminated, upto_terminal-append, upto_terminal-quiet,
}
use sparkl_router.Tunnel.Entries.{
  Free, Owns, Free-lookup, Free-remove, Owns-lookup, Owns-remove, Owns-remove_self,
}

module _ {V : Type 0} (q : Mpsc (InboundFrame V)) (p : PendingRequest) where
  -- The view of the request: what it has read, the entries, its channel, the channels made.
  pub record Cell (chan : q.Chan) (created : ℕ) : Type 0 where
    pub made : p.rx < created
    pub sized : q.bound chan ≡ 256
    pub open_rx : q.rx_open chan ≡ true

  -- Nothing is lost so far, and more may come.
  abbrev pub Live : List (InboundFrame V) → List (InboundFrame V) → Map ℕ ℕ → q.Chan → Type 0
  Live seen log pending chan =
      Owns p.rid p.rx pending × (log ++ q.contents chan ≡ seen) × NoTerminal seen

  -- Nothing more comes: after a terminal frame, or after one that found no room.
  abbrev pub Over : List (InboundFrame V) → List (InboundFrame V) → Map ℕ ℕ → q.Chan → Type 0
  Over seen log pending chan =
      Free p.rid p.rx pending
      × ((zs : List (InboundFrame V)) × (log ++ q.contents chan ++ zs ≡ upto_terminal seen))
      × (length seen ≤ 256
          → (log ++ q.contents chan ≡ upto_terminal seen) × (terminated seen ≡ true))

  abbrev pub Status : List (InboundFrame V) → List (InboundFrame V) → Map ℕ ℕ → q.Chan → Type 0
  Status seen log pending chan = Live seen log pending chan ⊎ Over seen log pending chan

  abbrev pub View : List (InboundFrame V) → List (InboundFrame V) → Map ℕ ℕ → q.Chan → ℕ → Type 0
  View seen log pending chan created = Cell chan created × Status seen log pending chan

  abbrev pub Inv : List (InboundFrame V) → State V q.Chan → Type 0
  Inv seen s = View seen s.log s.tunnel.pending (s.tunnel.channels p.rx) s.tunnel.created

  pub update_self : (g : ℕ → q.Chan) (c : q.Chan) → update g p.rx c p.rx ≡ c
  update_self g c = ground arith

  pub update_ne : (g : ℕ → q.Chan) (i : ℕ) (c : q.Chan) → i ≢ p.rx → update g i c p.rx ≡ g p.rx
  update_ne g i c h = ground arith

  refused_full :
      (c : q.Chan) (f : InboundFrame V)
      → q.rx_open c ≡ true
      → q.bound c ≡ 256
      → q.try_send f c ≡ none
      → 256 ≤ length (q.contents c)
  refused_full c f o b refused = elim (dec_lt (length (q.contents c)) 256) [
    | yes room ↦ let (d, sent) = q.try_send_room f c o (omega arith) in cc
    | no full ↦ omega arith
  ]

  -- One more frame `f` for the request while its entry is there.
  module _ (seen log : List (InboundFrame V)) (pending : Map ℕ ℕ) (chan : q.Chan) (created : ℕ)
      (f : InboundFrame V) (cell : Cell chan created) (live : Live seen log pending chan) where
    -- It does not fit: a beginning is kept, and more was sent than the channel holds.
    pub lost :
        (after : Map ℕ ℕ)
        → Free p.rid p.rx after
        → q.try_send f chan ≡ none
        → View (seen ++ f ∷ []) log after chan created
    lost after free refused =
        let full = refused_full chan f cell.open_rx cell.sized refused in
        (
          cell,
          inr (
            free,
            (f ∷ [], rw (live.1, upto_terminal-live seen f live.2)),
            λ short. absurd (
                omega (
                  arith,
                  ap length live.1,
                  length-append seen (f ∷ []),
                  length-append log (q.contents chan),
                )),
          ),
        )

    module _ (d : q.Chan) (sent : q.try_send f chan ≡ some d) where
      Cell-kept : Cell d created
      Cell-kept =
          let (_, same_bound, same_rx) = q.try_send_sent f chan d sent in
          record {
            made = cell.made;
            sized = same_bound ∙ cell.sized;
            open_rx = same_rx ∙ cell.open_rx;
          }

      grows : log ++ q.contents d ≡ seen ++ f ∷ []
      grows = rw ((q.try_send_sent f chan d sent).0, ← append_assoc, live.1)

      goes_on : is_terminal_frame f ≡ false → View (seen ++ f ∷ []) log pending d created
      goes_on e = (Cell-kept, inl (live.0, grows, NoTerminal-append seen f live.2 e))

      pub ends :
          (after : Map ℕ ℕ)
          → Free p.rid p.rx after
          → is_terminal_frame f ≡ true
          → View (seen ++ f ∷ []) log after d created
      ends after free e =
          let whole = grows ∙ sym (upto_terminal-live seen f live.2) in
          (
            Cell-kept,
            inr (free, ([], append-nil _ ∙ whole), λ short. (whole, terminated-append seen f e)),
          )

  -- A view through the channel that was just written.
  pub written :
      (seen log : List (InboundFrame V)) (pending : Map ℕ ℕ) (g : ℕ → q.Chan) (d : q.Chan)
      (created : ℕ)
      → View seen log pending d created
      → View seen log pending (update g p.rx d p.rx) created
  written seen log pending g d created h =
      subst (λ c. View seen log pending c created) (sym (update_self g d)) h

  arrive-Live :
      (seen : List (InboundFrame V)) (s : State V q.Chan) (f : InboundFrame V)
      → Cell (s.tunnel.channels p.rx) s.tunnel.created
      → Live seen s.log s.tunnel.pending (s.tunnel.channels p.rx)
      → Inv (seen ++ f ∷ []) (record s { tunnel = route_inbound q p.rid f s.tunnel })
  unfolding route_inbound
  arrive-Live seen s f cell live =
      let t = s.tunnel in
      let chan = t.channels p.rx in
      let gone = remove p.rid t.pending in
      let free = Owns-remove_self p.rid p.rx t.pending live.0 in
      let found = Owns-lookup p.rid p.rx t.pending live.0 in
      elim (Option-cases (q.try_send f chan)) [
        | inl refused ↦ elim (Bool-cases (is_terminal_frame f)) [
          | inl e ↦
              rw (found, e, refused, route_inbound, send_or_lose)
                (written (seen ++ f ∷ []) s.log gone t.channels chan t.created
                  (lost seen s.log t.pending chan t.created f cell live gone free refused))
          | inr e ↦
              rw (found, e, refused, route_inbound)
                (lost seen s.log t.pending chan t.created f cell live gone free refused)
        ]
        | inr (d, sent) ↦ elim (Bool-cases (is_terminal_frame f)) [
          | inl e ↦
              rw (found, e, sent, route_inbound, send_or_lose)
                (written (seen ++ f ∷ []) s.log gone t.channels d t.created
                  (ends seen s.log t.pending chan t.created f cell live d sent gone free e))
          | inr e ↦
              rw (found, e, sent, route_inbound)
                (written (seen ++ f ∷ []) s.log t.pending t.channels d t.created
                  (goes_on seen s.log t.pending chan t.created f cell live d sent e))
        ]
      ]

  -- Nothing that is sent later changes what was received.
  pub Over-more :
      (seen log more : List (InboundFrame V)) (pending : Map ℕ ℕ) (chan : q.Chan)
      → Over seen log pending chan
      → Over (seen ++ more) log pending chan
  Over-more seen log more pending chan (free, (zs, kept), whole) =
      let (ys, longer) = upto_terminal-append seen more in
      (
        free,
        (zs ++ ys, sym (append_assoc _ zs ys) ∙ ap (λ l. l ++ ys) kept ∙ longer),
        λ short.
            let (all, over) = whole (omega (arith, length-append seen more)) in
            (all ∙ sym (upto_terminal-terminated seen more over), terminated_still seen more over),
      )

  pub arrive_own :
      (seen : List (InboundFrame V)) (s : State V q.Chan) (f : InboundFrame V)
      → Inv seen s
      → Inv (seen ++ f ∷ []) (record s { tunnel = route_inbound q p.rid f s.tunnel })
  unfolding route_inbound
  arrive_own seen s f (cell, inl live) = arrive-Live seen s f cell live
  arrive_own seen s f (cell, inr over) =
      rw (Free-lookup p.rid p.rx s.tunnel.pending over.0, route_inbound)
        (cell, inr (Over-more seen s.log (f ∷ []) s.tunnel.pending (s.tunnel.channels p.rx) over))

  -- Entries of other requests come and go.
  pub Status-remove :
      (seen log : List (InboundFrame V)) (pending : Map ℕ ℕ) (chan : q.Chan) (rid : ℕ)
      → rid ≢ p.rid
      → Status seen log pending chan
      → Status seen log (remove rid pending) chan
  Status-remove seen log pending chan rid other (inl live) =
      inl (Owns-remove p.rid p.rx rid pending live.0 other, live.1, live.2)
  Status-remove seen log pending chan rid other (inr over) =
      inr (Free-remove p.rid p.rx rid pending over.0, over.1, over.2)

  pub Status-insert :
      (seen log : List (InboundFrame V)) (pending : Map ℕ ℕ) (chan : q.Chan) (rid c : ℕ)
      → rid ≢ p.rid
      → c ≢ p.rx
      → Status seen log pending chan
      → Status seen log (insert rid c pending) chan
  unfolding insert
  Status-insert seen log pending chan rid c other apart (inl live) =
      inl (inr (other, apart, Owns-remove p.rid p.rx rid pending live.0 other), live.1, live.2)
  Status-insert seen log pending chan rid c other apart (inr over) =
      inr ((other, apart, Free-remove p.rid p.rx rid pending over.0), over.1, over.2)

  -- A read moves a frame from the channel to the log.
  pub View-same :
      (seen log log' : List (InboundFrame V)) (pending : Map ℕ ℕ) (c d : q.Chan) (created : ℕ)
      → log' ++ q.contents d ≡ log ++ q.contents c
      → q.bound d ≡ q.bound c
      → q.rx_open d ≡ q.rx_open c
      → View seen log pending c created
      → View seen log' pending d created
  View-same seen log log' pending c d created e b o (cell, st) =
      (record { made = cell.made; sized = b ∙ cell.sized; open_rx = o ∙ cell.open_rx }, status st)
    where
      status : Status seen log pending c → Status seen log' pending d
      status (inl (owns, g, quiet)) = inl (owns, e ∙ g, quiet)
      status (inr (free, (zs, kept), whole)) = inr (
        free,
        (zs, ap (λ l. l ++ zs) e ∙ kept),
        λ short. let (all, over) = whole short in (e ∙ all, over),
      )

  pub View-prefix :
      (seen log : List (InboundFrame V)) (pending : Map ℕ ℕ) (c : q.Chan) (created : ℕ)
      → View seen log pending c created
      → (zs : List (InboundFrame V)) × (log ++ zs ≡ upto_terminal seen)
  View-prefix seen log pending c created (_, inl (_, g, quiet)) =
      (q.contents c, g ∙ sym (upto_terminal-quiet seen quiet))
  View-prefix seen log pending c created (_, inr (_, (zs, kept), _)) =
      (q.contents c ++ zs, sym (append_assoc log (q.contents c) zs) ∙ kept)

  pub View-all :
      (seen log : List (InboundFrame V)) (pending : Map ℕ ℕ) (c : q.Chan) (created : ℕ)
      → View seen log pending c created
      → length seen ≤ 256
      → log ++ q.contents c ≡ upto_terminal seen
  View-all seen log pending c created (_, inl (_, g, quiet)) short =
      g ∙ sym (upto_terminal-quiet seen quiet)
  View-all seen log pending c created (_, inr (_, _, whole)) short = (whole short).0
