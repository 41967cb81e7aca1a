-- ===== src/Models/NodeId.antt =====
-- src/node_auth.rs: a node id is read back from the text that `node_id_hex` makes of it. What the
-- `hex` crate promises is an interface.
use sparkl_router.Common.{
  ℕ, zero, suc, ◌/◌, ◌%◌, ◌^◌, ◌<◌, ◌≡◌, refl, ap, ◌∙◌, false, Option, some, List, [], ◌∷◌, ◌++◌,
  arith, Text, codes, may_space, trim, trim_start, trim_end, skip, space_width_back,
  trim_start-stays, skip_back-stays, length-to_be, to_be, from_be-to_be,
}
use mathlib.Core.List.{reverse, reverse-cons, reverse-reverse}
use sparkl_router.Handshake.{parse_node_id_hex}
use sparkl_router.Models.Offering.{node_id_key}

abbrev pub AreBytes : List ℕ → Type 0
AreBytes [] = Unit
AreBytes (b ∷ bs) = (b < 256) × AreBytes bs

-- ASCII, with no white space.
abbrev pub HasNoSpace : Text → Type 0
HasNoSpace [] = Unit
HasNoSpace (c ∷ s) = (may_space c ≡ false) × HasNoSpace s

-- `hex::encode` and `hex::decode`
pub record Hex : Type 0 where
  pub encode : List ℕ → Text
  pub decode : Text → Option (List ℕ)
  pub decode_encode : (bs : List ℕ) → AreBytes bs → decode (encode bs) ≡ some bs
  pub encode_no_space : (bs : List ℕ) → HasNoSpace (encode bs)

pub HasNoSpace-append : (s t : Text) → HasNoSpace s → HasNoSpace t → HasNoSpace (s ++ t)
HasNoSpace-append [] t a b = b
HasNoSpace-append (c ∷ s) t (h, a) b = (h, HasNoSpace-append s t a b)

HasNoSpace-reverse : (s : Text) → HasNoSpace s → HasNoSpace (reverse s)
HasNoSpace-reverse [] a = tt
HasNoSpace-reverse (c ∷ s) (h, a) =
    rw (reverse-cons c s) (HasNoSpace-append (reverse s) (c ∷ []) (HasNoSpace-reverse s a) (h, tt))

trim_start-id : (s : Text) → HasNoSpace s → trim_start s ≡ s
unfolding trim_start
trim_start-id [] a = refl
trim_start-id (c ∷ s) (h, a) = trim_start-stays c s h

skip_back-id : (s : Text) → HasNoSpace s → skip space_width_back 0 s ≡ s
skip_back-id [] a = refl
skip_back-id (c ∷ s) (h, a) = skip_back-stays c s h

pub trim-id : (s : Text) → HasNoSpace s → trim s ≡ s
unfolding trim trim_end
trim-id s a =
    ap (λ t. reverse (skip space_width_back 0 (reverse t))) (trim_start-id s a)
    ∙ ap reverse (skip_back-id (reverse s) (HasNoSpace-reverse s a))
    ∙ reverse-reverse s

AreBytes-append : (xs ys : List ℕ) → AreBytes xs → AreBytes ys → AreBytes (xs ++ ys)
AreBytes-append [] ys a b = b
AreBytes-append (x ∷ xs) ys (h, a) b = (h, AreBytes-append xs ys a b)

to_be-AreBytes : (n v : ℕ) → AreBytes (to_be n v)
unfolding to_be
to_be-AreBytes zero v = tt
to_be-AreBytes (suc n) v =
    AreBytes-append (to_be n (v / 256)) ((v % 256) ∷ []) (to_be-AreBytes n (v / 256))
      (omega arith, tt)

-- A node id is read back.
pub parse_node_id_hex-node_id_key :
    (h : Hex) (node : ℕ)
    → node < 256 ^ 32
    → parse_node_id_hex h.decode (node_id_key h.encode node) ≡ some node
unfolding parse_node_id_hex node_id_key
parse_node_id_hex-node_id_key h node small =
    let bytes = to_be 32 node in
    let digits = h.encode bytes in
    let whole : trim (codes "0x" ++ digits) ≡ codes "0x" ++ digits =
      trim-id (codes "0x" ++ digits) (refl, (refl, h.encode_no_space bytes)) in
    let read : h.decode digits ≡ some bytes = h.decode_encode bytes (to_be-AreBytes 32 node) in
    rw (whole, parse_node_id_hex)
      (rw (read) (rw (length-to_be 32 node) (ap some (from_be-to_be 32 node small))))
