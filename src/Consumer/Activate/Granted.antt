-- ===== src/Consumer/Activate/Granted.antt =====
-- src/consumer/activate.rs: when an activation succeeds, and with which key.
use sparkl_router.Common.{
  some-inj, ℕ, ◌≡◌, ◌↔◌, refl, sym, ap, ◌∙◌, inl, inr, true, false, Option, none, some, List, [],
  ◌∷◌, ◌++◌, Text, ◌==◌, ==_iff, Bool-cases, Option-cases,
}
use sparkl_router.Mpsc.{Mpsc}
use sparkl_router.Protocol.{InboundFrame}
use sparkl_router.Tunnel.{NodeTunnel, send_frame, register_pending}
use sparkl_router.Tunnel.Dispatch.{forward_activate, send_or_drop}
use sparkl_router.Chain.Session.{ChainSession, is_open}
use sparkl_router.Consumer.Sse.{Tail, closes, times_out}
use sparkl_router.Consumer.Activate.{
  ActivateBody, ActivateReply, activated, activate_error, activation_message, await_api_key,
  reply_of, parse_session_id, session_id_hex, recover_eip191_signer, ask_node, check_signed,
  activate_session,
}

-- Frames that neither answer the request nor fail it.
abbrev pub IsSilent : {V : Type 0} → List (InboundFrame V) → Type 0
IsSilent [] = Unit
IsSilent (InboundFrame.response status headers ∷ fs) = IsSilent fs
IsSilent (InboundFrame.chunk text ∷ fs) = IsSilent fs
IsSilent (InboundFrame.end status ∷ fs) = IsSilent fs
IsSilent (InboundFrame.error code message ∷ fs) = ⊥
IsSilent (InboundFrame.activate_response api_key ∷ fs) = ⊥

-- The key is in the first frame that is not silent.
abbrev pub Answers : {V : Type 0} → List (InboundFrame V) → Text → Type 0
Answers {V} frames api_key =
    (before : List (InboundFrame V)) × ((after : List (InboundFrame V)) × ((frames
          ≡ before ++ InboundFrame.activate_response api_key ∷ after)
        × IsSilent before))

reply_of_inv :
    (id : ℕ) (answer : Option Text × ℕ) (api_key text : Text)
    → reply_of id answer ≡ activated api_key text
    → (answer.0 ≡ some api_key) × (session_id_hex id ≡ text)
reply_of_inv id (none, status) k text h = absurd (cc)
reply_of_inv id (some a, status) k text h = (cc, cc)

module _ {V : Type 0} where
  later :
      (f : InboundFrame V) (fs : List (InboundFrame V)) (api_key : Text)
      → (IsSilent (f ∷ []))
      → ((before : List (InboundFrame V)) → IsSilent before → IsSilent (f ∷ before))
      → Answers fs api_key
      → Answers (f ∷ fs) api_key
  later f fs api_key quiet grow (before, (after, (e, s))) =
      (f ∷ before, (after, (ap (◌∷◌ f) e, grow before s)))

  await_sound :
      (frames : List (InboundFrame V)) (tail : Tail) (api_key : Text)
      → (await_api_key frames tail).0 ≡ some api_key
      → Answers frames api_key
  unfolding await_api_key
  await_sound [] closes k h = absurd (cc)
  await_sound [] times_out k h = absurd (cc)
  await_sound (InboundFrame.activate_response a ∷ fs) tail k h =
      ([], (fs, (ap (λ x. InboundFrame.activate_response x ∷ fs) (some-inj h), tt)))
  await_sound (InboundFrame.error code message ∷ fs) tail k h = absurd (cc)
  await_sound (InboundFrame.response s v ∷ fs) tail k h =
      later (InboundFrame.response s v) fs k tt (λ b q. q) (await_sound fs tail k h)
  await_sound (InboundFrame.chunk t ∷ fs) tail k h =
      later (InboundFrame.chunk t) fs k tt (λ b q. q) (await_sound fs tail k h)
  await_sound (InboundFrame.end s ∷ fs) tail k h =
      later (InboundFrame.end s) fs k tt (λ b q. q) (await_sound fs tail k h)

  await_complete :
      (before after : List (InboundFrame V)) (tail : Tail) (api_key : Text)
      → IsSilent before
      → await_api_key (before ++ InboundFrame.activate_response api_key ∷ after) tail
        ≡ (some api_key, 200)
  unfolding await_api_key
  await_complete [] after tail k s = refl
  await_complete (InboundFrame.activate_response a ∷ fs) after tail k s = absurd s
  await_complete (InboundFrame.error code message ∷ fs) after tail k s = absurd s
  await_complete (InboundFrame.response x v ∷ fs) after tail k s = await_complete fs after tail k s
  await_complete (InboundFrame.chunk t ∷ fs) after tail k s = await_complete fs after tail k s
  await_complete (InboundFrame.end x ∷ fs) after tail k s = await_complete fs after tail k s

module _ (decode : Text → Option (List ℕ)) (keccak : List ℕ → List ℕ) (decimal : ℕ → Text)
    (recover : List ℕ → List ℕ → ℕ → Option (List ℕ)) (get_session : ℕ → Option ChainSession)
    {V : Type 0} (q : Mpsc (InboundFrame V)) where
  -- Everything that an activation asks for.
  pub record IsGranted (tunnel : ℕ → Option (NodeTunnel V q.Chan)) (session_id_str : Text)
      (body : ActivateBody) (frames : List (InboundFrame V)) (api_key text : Text) : Type 0 where
    pub id : ℕ
    pub chain_sess : ChainSession
    pub t : NodeTunnel V q.Chan
    pub names_id : parse_session_id decode session_id_str ≡ some id
    pub on_chain : get_session id ≡ some chain_sess
    pub open_session : is_open chain_sess ≡ true
    pub by_user :
        recover_eip191_signer keccak decimal decode recover
          (activation_message decimal id body)
          body.signature
        ≡ some chain_sess.user
    pub connected : tunnel chain_sess.node_id ≡ some t
    pub can_send : t.sender_open ≡ true
    pub answered : Answers frames api_key
    pub same_id : session_id_hex id ≡ text

  ask_node_open :
      (rid id : ℕ) (body : ActivateBody) (frames : List (InboundFrame V)) (tail : Tail)
      (t : NodeTunnel V q.Chan)
      → t.sender_open ≡ true
      → ask_node decode keccak decimal recover get_session q rid id body frames tail t
        ≡ reply_of id (await_api_key frames tail)
  unfolding ask_node forward_activate send_or_drop send_frame register_pending
  ask_node_open rid id body frames tail t o = rw (o) refl

  ask_node_closed :
      (rid id : ℕ) (body : ActivateBody) (frames : List (InboundFrame V)) (tail : Tail)
      (t : NodeTunnel V q.Chan)
      → t.sender_open ≡ false
      → ask_node decode keccak decimal recover get_session q rid id body frames tail t
        ≡ activate_error 502
  unfolding ask_node forward_activate send_or_drop send_frame register_pending
  ask_node_closed rid id body frames tail t o = rw (o) refl

  ask_node_inv :
      (rid id : ℕ) (body : ActivateBody) (frames : List (InboundFrame V)) (tail : Tail)
      (t : NodeTunnel V q.Chan) (api_key text : Text)
      → ask_node decode keccak decimal recover get_session q rid id body frames tail t
        ≡ activated api_key text
      → (t.sender_open ≡ true) × (Answers frames api_key × (session_id_hex id ≡ text))
  ask_node_inv rid id body frames tail t k text h = elim (Bool-cases t.sender_open) [
    | inl o ↦
        let (answered, same) =
          reply_of_inv id (await_api_key frames tail) k text
            (sym (ask_node_open rid id body frames tail t o) ∙ h) in
        (o, (await_sound frames tail k answered, same))
    | inr o ↦ let wrong = sym (ask_node_closed rid id body frames tail t o) ∙ h in absurd (cc)
  ]

  -- What a session that the chain knows still needs.
  record IsSigned (tunnel : ℕ → Option (NodeTunnel V q.Chan)) (id : ℕ) (chain_sess : ChainSession)
      (body : ActivateBody) (frames : List (InboundFrame V)) (api_key text : Text) : Type 0 where
    t : NodeTunnel V q.Chan
    open_session : is_open chain_sess ≡ true
    by_user :
        recover_eip191_signer keccak decimal decode recover
          (activation_message decimal id body)
          body.signature
        ≡ some chain_sess.user
    connected : tunnel chain_sess.node_id ≡ some t
    can_send : t.sender_open ≡ true
    answered : Answers frames api_key
    same_id : session_id_hex id ≡ text

  check_signed_sound :
      (tunnel : ℕ → Option (NodeTunnel V q.Chan)) (rid id : ℕ) (sess : ChainSession)
      (body : ActivateBody) (frames : List (InboundFrame V)) (tail : Tail) (api_key text : Text)
      → check_signed decode keccak decimal recover get_session q tunnel rid id sess body frames tail
        ≡ activated api_key text
      → IsSigned tunnel id sess body frames api_key text
  unfolding check_signed
  check_signed_sound tunnel rid id sess body frames tail k text h =
      let signer =
        recover_eip191_signer keccak decimal decode recover (activation_message decimal id body)
          body.signature in
      elim (Bool-cases (is_open sess)) [
        | inr o ↦
            let wrong : activate_error 401 ≡ activated k text = rw (o, check_signed) at h in
            absurd (cc)
        | inl o ↦ elim (Option-cases signer) [
          | inl e ↦
              let wrong : activate_error 401 ≡ activated k text =
                rw e at (rw (o, check_signed) at h) in
              absurd (cc)
          | inr (recovered, e) ↦ elim (Bool-cases (recovered == sess.user)) [
            | inr b ↦
                let wrong : activate_error 401 ≡ activated k text =
                  rw b at (rw e at (rw (o, check_signed) at h)) in
                absurd (cc)
            | inl b ↦ elim (Option-cases (tunnel sess.node_id)) [
              | inl n ↦
                  let wrong : activate_error 503 ≡ activated k text =
                    rw n at (rw b at (rw e at (rw (o, check_signed) at h))) in
                  absurd (cc)
              | inr (t, n) ↦
                  let asked = rw n at (rw b at (rw e at (rw (o, check_signed) at h))) in
                  let (can, (answers, same)) =
                    ask_node_inv rid id body frames tail t k text asked in
                  record {
                    t = t;
                    open_session = o;
                    by_user = e ∙ ap some ((==_iff recovered sess.user).0 b);
                    connected = n;
                    can_send = can;
                    answered = answers;
                    same_id = same;
                  }
            ]
          ]
        ]
      ]

  abbrev run :
      (ℕ → Option (NodeTunnel V q.Chan))
      → ℕ
      → Text
      → ActivateBody
      → List (InboundFrame V)
      → Tail
      → ActivateReply
  run = activate_session decode keccak decimal recover get_session q

  IsGranted-sound :
      (tunnel : ℕ → Option (NodeTunnel V q.Chan)) (rid : ℕ) (session_id_str : Text)
      (body : ActivateBody) (frames : List (InboundFrame V)) (tail : Tail) (api_key text : Text)
      → run tunnel rid session_id_str body frames tail ≡ activated api_key text
      → IsGranted tunnel session_id_str body frames api_key text
  unfolding activate_session
  IsGranted-sound tunnel rid str body frames tail k text h =
      elim (Option-cases (parse_session_id decode str)) [
        | inl e ↦
            let wrong : activate_error 400 ≡ activated k text = rw (e, activate_session) at h in
            absurd (cc)
        | inr (id, e1) ↦ elim (Option-cases (get_session id)) [
          | inl e ↦
              let wrong : activate_error 401 ≡ activated k text =
                rw (e) at (rw (e1, activate_session) at h) in
              absurd (cc)
          | inr (sess, e2) ↦
              let s =
                check_signed_sound tunnel rid id sess body frames tail k text
                  (rw (e2) at (rw (e1, activate_session) at h)) in
              record {
                id = id;
                chain_sess = sess;
                t = s.t;
                names_id = e1;
                on_chain = e2;
                open_session = s.open_session;
                by_user = s.by_user;
                connected = s.connected;
                can_send = s.can_send;
                answered = s.answered;
                same_id = s.same_id;
              }
        ]
      ]

  IsGranted-complete :
      (tunnel : ℕ → Option (NodeTunnel V q.Chan)) (rid : ℕ) (session_id_str : Text)
      (body : ActivateBody) (frames : List (InboundFrame V)) (tail : Tail) (api_key text : Text)
      → IsGranted tunnel session_id_str body frames api_key text
      → run tunnel rid session_id_str body frames tail ≡ activated api_key text
  unfolding activate_session check_signed
  IsGranted-complete tunnel rid str body frames tail k text g =
      let (before, (after, (made, silent))) = g.answered in
      let user : (g.chain_sess.user == g.chain_sess.user) ≡ true = (==_iff _ _).1 refl in
      rw (g.names_id, activate_session)
        (rw (g.on_chain) (
          rw (g.open_session, check_signed)
            (rw (g.by_user) (
              rw user (
                rw (g.connected) (
                  ask_node_open rid g.id body frames tail g.t g.can_send
                  ∙ rw (made, await_complete before after tail k silent)
                      (ap (activated k) g.same_id)))))))

  -- An activation succeeds with a key exactly when the id parses, the chain has the session and it is
  -- open, the signature over the activation message recovers to the session's user, the session's node
  -- is connected and its sender is open, and the first frame that is not silent answers with the key; the
  -- reply repeats the id.
  pub activate_session_iff :
      (tunnel : ℕ → Option (NodeTunnel V q.Chan)) (rid : ℕ) (session_id_str : Text)
      (body : ActivateBody) (frames : List (InboundFrame V)) (tail : Tail) (api_key text : Text)
      → (activate_session decode keccak decimal recover get_session q tunnel rid session_id_str body
            frames tail
          ≡ activated api_key text)
        ↔ IsGranted tunnel session_id_str body frames api_key text
  activate_session_iff tunnel rid str body frames tail k text = (
    IsGranted-sound tunnel rid str body frames tail k text,
    IsGranted-complete tunnel rid str body frames tail k text,
  )
