-- ===== src/Chain/Session/Decode.antt =====
-- What the decoder of src/chain/session.rs reads from the words of the contract's getter.
use sparkl_router.Common.{
  ℕ, ◌+◌, ◌^◌, ◌<◌, ◌≡◌, ◌≢◌, refl, Bool, true, false, not, some, List, [], ◌∷◌, ◌++◌, arith, ltb,
  ◌==◌, length, length-append, drop, drop-append, get_elem?, from_be, be_from, to_be, length-to_be,
  from_be-to_be,
}
use sparkl_router.Chain.Session.{
  ChainSession, word, session_head_bytes, decode_fields, decode_session_head, to_u128,
}
use sparkl_router.Chain.Session.Words.{word-zero, join, AreWords, length-join, word_at}

abbrev zeros8 : List ℕ
zeros8 = 0 ∷ 0 ∷ 0 ∷ 0 ∷ 0 ∷ 0 ∷ 0 ∷ 0 ∷ []

abbrev zeros12 : List ℕ
zeros12 = 0 ∷ 0 ∷ 0 ∷ 0 ∷ zeros8

abbrev zeros24 : List ℕ
zeros24 = zeros8 ++ zeros8 ++ zeros8

abbrev zeros31 : List ℕ
zeros31 = 0 ∷ 0 ∷ 0 ∷ 0 ∷ 0 ∷ 0 ∷ 0 ∷ zeros24

abbrev pub byte_of : Bool → ℕ
byte_of false = 0
byte_of true = 1

-- The four words that the decoder skips.
pub record Skipped : Type 0 where
  pub word6 : List ℕ
  pub word7 : List ℕ
  pub word8 : List ℕ
  pub word9 : List ℕ

-- The static head of a session as the ABI lays it out.
abbrev pub head_words : ChainSession → Skipped → List (List ℕ)
head_words s k =
    (zeros12 ++ to_be 20 s.user)
    ∷ to_be 32 s.node_id
    ∷ to_be 32 s.model_id
    ∷ (zeros31 ++ s.tier ∷ [])
    ∷ to_be 32 s.locked_internal
    ∷ to_be 32 s.usage_recorded
    ∷ k.word6
    ∷ k.word7
    ∷ k.word8
    ∷ k.word9
    ∷ (zeros31 ++ byte_of s.settled ∷ [])
    ∷ (zeros24 ++ to_be 8 s.input_tokens_recorded)
    ∷ (zeros24 ++ to_be 8 s.output_tokens_recorded)
    ∷ []

-- The ranges of the fields' types.
pub record IsInRange (s : ChainSession) : Type 0 where
  pub user_bound : s.user < 256 ^ 20
  pub node_id_bound : s.node_id < 256 ^ 32
  pub model_id_bound : s.model_id < 256 ^ 32
  pub locked_bound : s.locked_internal < 2 ^ 128
  pub usage_bound : s.usage_recorded < 2 ^ 128
  pub input_bound : s.input_tokens_recorded < 256 ^ 8
  pub output_bound : s.output_tokens_recorded < 256 ^ 8

abbrev pub AreSkipped : Skipped → Type 0
AreSkipped k =
    (length k.word6 ≡ 32) × (length k.word7 ≡ 32) × (length k.word8 ≡ 32) × (length k.word9 ≡ 32)

head_words-AreWords : (s : ChainSession) (k : Skipped) → AreSkipped k → AreWords (head_words s k)
head_words-AreWords s k (h6, h7, h8, h9) = (
  omega (arith, length-to_be 20 s.user),
  (
    length-to_be 32 s.node_id,
    (
      length-to_be 32 s.model_id,
      (
        refl,
        (
          length-to_be 32 s.locked_internal,
          (
            length-to_be 32 s.usage_recorded,
            (
              h6,
              (
                h7,
                (
                  h8,
                  (
                    h9,
                    (
                      refl,
                      (
                        omega (arith, length-to_be 8 s.input_tokens_recorded),
                        (omega (arith, length-to_be 8 s.output_tokens_recorded), tt),
                      ),
                    ),
                  ),
                ),
              ),
            ),
          ),
        ),
      ),
    ),
  ),
)

wide : (v : ℕ) → v < 2 ^ 128 → to_u128 (from_be (to_be 32 v)) ≡ v
wide v h = let fits : v < 256 ^ 32 = omega arith in rw (from_be-to_be 32 v fits) (ground arith)

one_byte : (b : ℕ) → from_be (b ∷ []) ≡ b
unfolding be_from
one_byte b = omega arith

padded_user : (u : ℕ) → u < 256 ^ 20 → from_be (zeros12 ++ to_be 20 u) ≡ u
unfolding be_from
padded_user u h = from_be-to_be 20 u h

settled_bit : (b : Bool) → not (from_be (byte_of b ∷ []) == 0) ≡ b
unfolding be_from
settled_bit true = refl
settled_bit false = refl

module _ (s : ChainSession) (k : Skipped) (rest : List ℕ) (ok : IsInRange s)
    (skip : AreSkipped k) where
  abbrev ws : List (List ℕ)
  ws = head_words s k

  at : (i : ℕ) (w : List ℕ) → get_elem? ws i ≡ some w → word (join ws ++ rest) i ≡ some w
  at i w = word_at ws rest i w (head_words-AreWords s k skip)

  fields : decode_fields (join ws ++ rest) ≡ some s
  unfolding decode_fields
  fields =
      rw
        (
          at 0 _ refl,
          at 1 _ refl,
          at 2 _ refl,
          at 3 _ refl,
          at 4 _ refl,
          at 5 _ refl,
          at 11 _ refl,
          at 12 _ refl,
          at 10 _ refl,
        )
        (rw
          (
            from_be-to_be 20 s.user ok.user_bound,
            from_be-to_be 32 s.node_id ok.node_id_bound,
            from_be-to_be 32 s.model_id ok.model_id_bound,
            one_byte s.tier,
            wide s.locked_internal ok.locked_bound,
            wide s.usage_recorded ok.usage_bound,
            from_be-to_be 8 s.input_tokens_recorded ok.input_bound,
            from_be-to_be 8 s.output_tokens_recorded ok.output_bound,
            settled_bit s.settled,
          )
          refl)

  size : length (join ws ++ rest) ≡ 416 + length rest
  size = omega (arith, length-append (join ws) rest, length-join ws (head_words-AreWords s k skip))

  -- The head behind the offset word 0x20, whatever stands in the words that are skipped and after the
  -- head, is decoded to the session whose fields were laid out, if each field is in its range.
  pub decode_with_offset : decode_session_head (to_be 32 32 ++ (join ws ++ rest)) ≡ some s
  unfolding decode_session_head session_head_bytes
  decode_with_offset =
      let bytes = to_be 32 32 ++ (join ws ++ rest) in
      let full : length bytes ≡ 448 + length rest =
        omega (arith, length-append (to_be 32 32) (join ws ++ rest), length-to_be 32 32, size) in
      let long : ltb (length bytes) 32 ≡ false = ground (arith, full) in
      let enough : ltb (length bytes) 448 ≡ false = ground (arith, full) in
      let offset : from_be (to_be 32 32) ≡ 32 = from_be-to_be 32 32 (omega arith) in
      let body : drop 32 bytes ≡ join ws ++ rest =
        drop-append (to_be 32 32) (join ws ++ rest) 32 (length-to_be 32 32) in
      rw
        (long, word-zero (to_be 32 32) (join ws ++ rest) (length-to_be 32 32), offset, enough, body)
        fields

  -- Without an offset word the same holds, unless the user's address is the number 32, which reads as
  -- the offset.
  decode_without_offset : s.user ≢ 32 → decode_session_head (join ws ++ rest) ≡ some s
  unfolding decode_session_head session_head_bytes
  decode_without_offset other =
      let long : ltb (length (join ws ++ rest)) 32 ≡ false = ground (arith, size) in
      let enough : ltb (length (join ws ++ rest)) 416 ≡ false = ground (arith, size) in
      let differs : (s.user == 32) ≡ false = ground arith in
      rw (long, at 0 _ refl, padded_user s.user ok.user_bound, differs, enough) fields
