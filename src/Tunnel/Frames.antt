-- ===== src/Tunnel/Frames.antt =====
-- Lists of inbound frames cut after their first terminal frame (src/tunnel/dispatch.rs).
use sparkl_router.Common.{
  ◌≡◌, refl, ap, Bool, true, false, ◌||◌, List, [], ◌∷◌, ◌++◌, arith, if◌then◌else◌,
}
use sparkl_router.Protocol.{InboundFrame, is_terminal_frame}
use sparkl_router.Tunnel.Events.{upto_terminal}

module _ {V : Type 0} where
  abbrev pub NoTerminal : List (InboundFrame V) → Type 0
  NoTerminal [] = Unit {0}
  NoTerminal (f ∷ fs) = (is_terminal_frame f ≡ false) × NoTerminal fs

  abbrev pub terminated : List (InboundFrame V) → Bool
  terminated [] = false
  terminated (f ∷ fs) = is_terminal_frame f || terminated fs

  pub NoTerminal-append :
      (a : List (InboundFrame V)) (f : InboundFrame V)
      → NoTerminal a
      → is_terminal_frame f ≡ false
      → NoTerminal (a ++ f ∷ [])
  NoTerminal-append [] f h e = (e, tt)
  NoTerminal-append (x ∷ a) f h e = (h.0, NoTerminal-append a f h.1 e)

  pub terminated-append :
      (a : List (InboundFrame V)) (f : InboundFrame V)
      → is_terminal_frame f ≡ true
      → terminated (a ++ f ∷ []) ≡ true
  terminated-append [] f e = rw e
  terminated-append (x ∷ a) f e = ground (arith, terminated-append a f e)

  pub terminated_still :
      (a b : List (InboundFrame V)) → terminated a ≡ true → terminated (a ++ b) ≡ true
  terminated_still [] b h = absurd (ground arith)
  terminated_still (x ∷ a) b h = ground (arith, terminated_still a b)

  pub upto_terminal-live :
      (a : List (InboundFrame V)) (f : InboundFrame V)
      → NoTerminal a
      → upto_terminal (a ++ f ∷ []) ≡ a ++ f ∷ []
  unfolding upto_terminal
  upto_terminal-live [] f h = ground arith
  upto_terminal-live (x ∷ a) f h = rw h.0 (ap (◌∷◌ x) (upto_terminal-live a f h.1))

  pub upto_terminal-terminated :
      (a b : List (InboundFrame V)) → terminated a ≡ true → upto_terminal (a ++ b) ≡ upto_terminal a
  unfolding upto_terminal
  upto_terminal-terminated [] b h = absurd (ground arith)
  upto_terminal-terminated (x ∷ a) b h = ground (arith, upto_terminal-terminated a b)

  after_frame :
      (x : InboundFrame V) (kept more : List (InboundFrame V)) (t : Bool)
      → ((zs : List (InboundFrame V)) × (kept ++ zs ≡ more))
      → (zs : List (InboundFrame V)) × ((x ∷ (if t then [] else kept)) ++ zs
          ≡ x ∷ (if t then [] else more))
  after_frame x kept more true h = ([], refl)
  after_frame x kept more false h = (h.0, ap (◌∷◌ x) h.1)

  -- More frames never change what was kept so far.
  pub upto_terminal-append :
      (a b : List (InboundFrame V))
      → (zs : List (InboundFrame V)) × (upto_terminal a ++ zs ≡ upto_terminal (a ++ b))
  unfolding upto_terminal
  upto_terminal-append [] b = (upto_terminal b, refl)
  upto_terminal-append (x ∷ a) b =
      after_frame x (upto_terminal a) (upto_terminal (a ++ b)) (is_terminal_frame x)
        (upto_terminal-append a b)

  pub upto_terminal-quiet : (a : List (InboundFrame V)) → NoTerminal a → upto_terminal a ≡ a
  unfolding upto_terminal
  upto_terminal-quiet [] h = refl
  upto_terminal-quiet (x ∷ a) h = rw h.0 (ap (◌∷◌ x) (upto_terminal-quiet a h.1))
