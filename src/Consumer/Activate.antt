-- ===== src/Consumer/Activate.antt =====
-- src/consumer/activate.rs: the activation of a session by the signature of its user. The hexadecimal
-- decoder, the hash and the recovery of a public key are parameters; an error of a helper is `none`.
pub mod SessionId
pub mod Granted
use sparkl_router.Common.{
  ℕ, ◌-◌, ◌^◌, Bool, true, false, not, Option, none, some, List, [], ◌∷◌, ◌++◌, Text, codes, ltb,
  leb, ◌==◌, if◌then◌else◌, length, take, drop, min, trim, strip_prefix, from_be, to_be,
  from_str_radix, digits_of, replicate,
}
use sparkl_router.Json.{◌>>=◌, unwrap_or}
use sparkl_router.Mpsc.{Mpsc}
use sparkl_router.Protocol.{InboundFrame}
use sparkl_router.Tunnel.{NodeTunnel, drop_pending}
use sparkl_router.Tunnel.Dispatch.{forward_activate}
use sparkl_router.Chain.Session.{ChainSession, is_open}
use sparkl_router.Consumer.Sse.{Tail, closes, times_out}

pub record ActivateBody : Type 0 where
  pub signature : Text
  pub block_number : ℕ
  pub message : Option Text

-- `s.trim_start_matches('0')`
unfoldable pub without_zeros : Text → Text
without_zeros [] = []
without_zeros (c ∷ s) = let rest = without_zeros s in if c == 48 then rest else c ∷ s

abbrev pub parse_u64_hex : Text → Option ℕ
parse_u64_hex s = from_str_radix 16 (2 ^ 64 - 1) s

abbrev pub is_all_zero : List ℕ → Bool
is_all_zero [] = true
is_all_zero (b ∷ bs) = if b == 0 then is_all_zero bs else false

-- `&format!("{:0>64}", hex)[..64]`
abbrev pub padded_64 : Text → Text
padded_64 hex = take 64 (replicate (64 - length hex) 48 ++ hex)

-- The last 8 of 32 bytes, the others being zero.
abbrev pub u64_of_bytes : List ℕ → Option ℕ
u64_of_bytes bytes =
    if not (length bytes == 32)
    then none
    else if not (is_all_zero (take 24 bytes))
    then none
    else some (from_be (drop 24 bytes))

-- What follows `0x`.
unfoldable pub parse_hex_id : (Text → Option (List ℕ)) → Text → Option ℕ
unfolding without_zeros
parse_hex_id decode digits =
    let hex = without_zeros digits in
    if length hex == 0
    then some 0
    else if leb (length hex) 16
    then parse_u64_hex hex
    else decode (padded_64 hex) >>= u64_of_bytes

unfoldable pub parse_session_id : (Text → Option (List ℕ)) → Text → Option ℕ
unfolding trim parse_hex_id
parse_session_id decode s = elim (strip_prefix (codes "0x") (trim s)) [
  | some digits ↦ parse_hex_id decode digits
  | none ↦ from_str_radix 10 (2 ^ 64 - 1) (trim s)
]

-- `format!("0x{:064x}", session_id)`
unfoldable pub session_id_hex : ℕ → Text
session_id_hex session_id = codes "0x" ++ digits_of 16 64 session_id

-- Wallets write 27 or 28 for 0 or 1.
abbrev pub recovery_byte : ℕ → ℕ
recovery_byte v = if leb 27 v then v - 27 else v

module _ (keccak : List ℕ → List ℕ) (decimal : ℕ → Text) where
  unfoldable pub eip191_hash : Text → List ℕ
  eip191_hash message =
      keccak
        (25 ∷ (codes "Ethereum Signed Message:" ++ (10 ∷ (decimal (length message) ++ message))))

  -- `recover` takes the digest, the 64 bytes of a signature and the recovery byte; it fails where
  -- `from_compact` or `recover_ecdsa` does, and returns the uncompressed key.
  unfoldable pub recover_eip191_signer :
      (Text → Option (List ℕ)) → (List ℕ → List ℕ → ℕ → Option (List ℕ)) → Text → Text → Option ℕ
  unfolding eip191_hash
  recover_eip191_signer decode recover message sig_hex =
      decode (unwrap_or (strip_prefix (codes "0x") sig_hex) sig_hex) >>= (λ sig_bytes.
        if not (length sig_bytes == 65)
        then none
        else recover (eip191_hash message) (take 64 sig_bytes)
            (recovery_byte (from_be (drop 64 sig_bytes)))
          >>= (λ key. some (from_be (drop 12 (keccak (drop 1 key))))))

-- The loop over the frames: the key, or the status of an error.
unfoldable pub await_api_key : {V : Type 0} → List (InboundFrame V) → Tail → Option Text × ℕ
await_api_key [] closes = (none, 502)
await_api_key [] times_out = (none, 504)
await_api_key (InboundFrame.activate_response api_key ∷ fs) tail = (some api_key, 200)
await_api_key (InboundFrame.error code message ∷ fs) tail = (none, 502)
await_api_key (InboundFrame.response status headers ∷ fs) tail = await_api_key fs tail
await_api_key (InboundFrame.chunk text ∷ fs) tail = await_api_key fs tail
await_api_key (InboundFrame.end status ∷ fs) tail = await_api_key fs tail

pub data ActivateReply : Type 0 where
  activated : (api_key session_id : Text) → ActivateReply
  activate_error : (status : ℕ) → ActivateReply

abbrev pub reply_of : ℕ → Option Text × ℕ → ActivateReply
reply_of session_id (some api_key, status) = activated api_key (session_id_hex session_id)
reply_of session_id (none, status) = activate_error status

abbrev pub activation_message : (ℕ → Text) → ℕ → ActivateBody → Text
activation_message decimal session_id body =
    unwrap_or body.message
      (codes "sparkl-activate:" ++ (decimal session_id ++ (codes ":" ++ decimal body.block_number)))

-- `decode` is `hex::decode`, `get_session` what the chain answers, `tunnel` the tunnel of a node that is
-- connected; the frames are those that come before the end of the channel or the timeout.
module _ (decode : Text → Option (List ℕ)) (keccak : List ℕ → List ℕ) (decimal : ℕ → Text)
    (recover : List ℕ → List ℕ → ℕ → Option (List ℕ)) (get_session : ℕ → Option ChainSession)
    {V : Type 0} (q : Mpsc (InboundFrame V)) where
  -- From the tunnel on.
  unfoldable pub ask_node :
      ℕ → ℕ → ActivateBody → List (InboundFrame V) → Tail → NodeTunnel V q.Chan → ActivateReply
  unfolding forward_activate await_api_key
  ask_node rid session_id body frames tail t =
      elim (forward_activate q rid (session_id_hex session_id) body.signature body.block_number
        (some (activation_message decimal session_id body)) t).1 [
          | none ↦ activate_error 502
          | some pending ↦ reply_of session_id (await_api_key frames tail)
        ]

  -- From the test of the session on.
  unfoldable pub check_signed :
      (ℕ → Option (NodeTunnel V q.Chan))
      → ℕ
      → ℕ
      → ChainSession
      → ActivateBody
      → List (InboundFrame V)
      → Tail
      → ActivateReply
  unfolding recover_eip191_signer ask_node
  check_signed tunnel rid session_id chain_sess body frames tail =
      if not (is_open chain_sess)
      then activate_error 401
      else elim (recover_eip191_signer keccak decimal decode recover
          (activation_message decimal session_id body) body.signature) [
            | none ↦ activate_error 401
            | some recovered ↦
                if not (recovered == chain_sess.user)
                then activate_error 401
                else elim (tunnel chain_sess.node_id) [
                  | none ↦ activate_error 503
                  | some t ↦ ask_node rid session_id body frames tail t
                ]
          ]

  unfoldable pub activate_session :
      (ℕ → Option (NodeTunnel V q.Chan))
      → ℕ
      → Text
      → ActivateBody
      → List (InboundFrame V)
      → Tail
      → ActivateReply
  unfolding parse_session_id check_signed
  activate_session tunnel rid session_id_str body frames tail =
      elim (parse_session_id decode session_id_str) [
        | none ↦ activate_error 400
        | some session_id ↦ elim (get_session session_id) [
          | none ↦ activate_error 401
          | some chain_sess ↦ check_signed tunnel rid session_id chain_sess body frames tail
        ]
      ]
