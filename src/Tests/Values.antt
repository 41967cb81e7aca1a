-- ===== src/Tests/Values.antt =====
-- A concrete JSON and a concrete hexadecimal codec for the tests.
use sparkl_router.Common.{
  ℕ, ◌+◌, ◌*◌, ◌/◌, ◌%◌, ◌<◌, ◌≡◌, refl, ap, Bool, false, Option, none, some, List, [], ◌∷◌, arith,
  Text, Map, text_eq, text_eq_iff, if◌then◌else◌, may_space, to_digit, digit_char,
  to_digit-digit_char,
}
use sparkl_router.Json.{Json, ◌>>=◌}
use sparkl_router.Models.NodeId.{Hex, AreBytes, HasNoSpace}

mutual
  pub data Value : Type 0 where
    null : Value
    number : ℕ → Value
    boolean : Bool → Value
    string : Text → Value
    array : Values → Value
    fields : Fields → Value

  pub data Values : Type 0 where
    no_values : Values
    value : Value → Values → Values

  pub data Fields : Type 0 where
    no_fields : Fields
    field : Text → Value → Fields → Fields

abbrev to_list : Values → List Value
to_list no_values = []
to_list (value v vs) = v ∷ to_list vs

abbrev of_list : List Value → Values
of_list [] = no_values
of_list (v ∷ vs) = value v (of_list vs)

pub to_list-of_list : (vs : List Value) → to_list (of_list vs) ≡ vs
to_list-of_list [] = refl
to_list-of_list (v ∷ vs) = ap (◌∷◌ v) (to_list-of_list vs)

abbrev find : Fields → Text → Option Value
find no_fields k = none
find (field l v o) k = if text_eq l k then some v else find o k

abbrev put : Text → Value → Fields → Fields
put k v no_fields = field k v no_fields
put k v (field l w o) = if text_eq l k then field k v o else field l w (put k v o)

abbrev entries : Fields → Map Text Value
entries no_fields = []
entries (field k v o) = (k, v) ∷ entries o

pub find_put :
    (k l : Text) (v : Value) (o : Fields)
    → find (put k v o) l ≡ (if text_eq k l then some v else find o l)
find_put k l v no_fields = refl
find_put k l v (field m w o) =
    ground (arith, find_put k l v o, text_eq_iff m k, text_eq_iff k l, text_eq_iff m l)

abbrev as_u64 : Value → Option ℕ
as_u64 (number n) = some n
as_u64 _ = none

abbrev as_bool : Value → Option Bool
as_bool (boolean b) = some b
as_bool _ = none

abbrev as_str : Value → Option Text
as_str (string s) = some s
as_str _ = none

abbrev as_array : Value → Option (List Value)
as_array (array vs) = some (to_list vs)
as_array _ = none

abbrev as_object : Value → Option Fields
as_object (fields o) = some o
as_object _ = none

-- A JSON whose parser is given.
abbrev pub json : (Text → Option Value) → Json
json parse = record {
  Value = Value;
  Object = Fields;
  as_u64 = as_u64;
  as_bool = as_bool;
  as_str = as_str;
  as_array = as_array;
  as_object = as_object;
  of_u64 = number;
  of_bool = boolean;
  of_str = string;
  of_array = λ vs. array (of_list vs);
  of_object = fields;
  empty = no_fields;
  find = find;
  put = put;
  entries = entries;
  from_str = parse;
  to_string = λ v. [];
  as_u64_of_u64 = λ n h. refl;
  as_bool_of_bool = λ b. refl;
  as_str_of_str = λ s. refl;
  as_array_of_array = λ vs. ap some (to_list-of_list vs);
  as_object_of_object = λ o. refl;
  find_empty = λ k. refl;
  find_put = find_put;
}

abbrev encode : List ℕ → Text
encode [] = []
encode (b ∷ bs) = digit_char ((b / 16) % 16) ∷ digit_char (b % 16) ∷ encode bs

abbrev byte : Option ℕ → Option ℕ → Option ℕ
byte high low = high >>= λ h. low >>= λ l. some (h * 16 + l)

abbrev push : Option ℕ → Option (List ℕ) → Option (List ℕ)
push b bs = b >>= λ x. bs >>= λ xs. some (x ∷ xs)

pub decode : Text → Option (List ℕ)
unfolding to_digit
decode [] = some []
decode (c ∷ []) = none
decode (c ∷ d ∷ s) = let rest = decode s in push (byte (to_digit 16 c) (to_digit 16 d)) rest

pub decode-encode : (bs : List ℕ) → AreBytes bs → decode (encode bs) ≡ some bs
unfolding decode
decode-encode [] w = refl
decode-encode (b ∷ bs) (h, w) =
    let high = to_digit-digit_char ((b / 16) % 16) (omega arith) in
    let low = to_digit-digit_char (b % 16) (omega arith) in
    let whole : ((b / 16) % 16) * 16 + b % 16 ≡ b = omega arith in
    rw (high, low, decode-encode bs w) (rw whole refl)

digit_no_space : (d : ℕ) → d < 16 → may_space (digit_char d) ≡ false
digit_no_space d h = ground arith

pub encode-HasNoSpace : (bs : List ℕ) → HasNoSpace (encode bs)
encode-HasNoSpace [] = tt
encode-HasNoSpace (b ∷ bs) = (
  digit_no_space ((b / 16) % 16) (omega arith),
  (digit_no_space (b % 16) (omega arith), encode-HasNoSpace bs),
)

abbrev pub hex : Hex
hex = record {
  encode = encode;
  decode = decode;
  decode_encode = decode-encode;
  encode_no_space = encode-HasNoSpace;
}
