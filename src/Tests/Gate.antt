-- ===== src/Tests/Gate.antt =====
-- The theorems of Consumer/Bearer.antt and Consumer/Gate.antt at concrete inputs; bytes stand for
-- their own base58 text.
use sparkl_router.Common.{
  ℕ, ◌≡◌, ◌↔◌, refl, Bool, true, false, Option, some, List, ◌++◌, arith, replicate, Text, codes,
  trim,
}
use sparkl_router.Chain.Session.{ChainSession}
use sparkl_router.Consumer.Bearer.{parse_sk_bearer, parse_authorization_header}
use sparkl_router.Consumer.Bearer.RoundTrip.{payload, parse-token}
use sparkl_router.Consumer.Gate.{authenticated, passed, require_v1_session}
use sparkl_router.Consumer.Gate.Passes.{IsAdmitted, require_v1_session_iff}

abbrev base58 : Text → Option Text
base58 text = some text

abbrev encode : Text → Text
encode bytes = bytes

abbrev secret : List ℕ
secret = replicate 32 1

parse-token_example :
    (parse_sk_bearer base58 (codes "sk_" ++ payload 7 secret) ≡ some 7)
    × (parse_authorization_header base58 (codes "Bearer sk_1")
        ≡ parse_sk_bearer base58 (trim (codes "sk_1")))
    × (parse_authorization_header base58 (codes "bearer sk_1")
        ≡ parse_sk_bearer base58 (trim (codes "sk_1")))
parse-token_example = parse-token base58 encode 7 secret (codes "sk_1") (omega arith) refl refl

abbrev session : ChainSession
session = record {
  user = 1;
  node_id = 2;
  model_id = 3;
  tier = 1;
  locked_internal = 100;
  usage_recorded = 5;
  input_tokens_recorded = 7;
  output_tokens_recorded = 9;
  settled = false;
}

abbrev known : ℕ → Option ChainSession
known id = some session

abbrev online : ℕ → Bool
online node_id = true

abbrev header : Option Text
header = some (codes "Bearer sk_" ++ payload 7 secret)

require_v1_session_iff_example :
    (require_v1_session base58 known true online header ≡ passed (authenticated 7 session))
    ↔ IsAdmitted base58 known true online header (authenticated 7 session)
require_v1_session_iff_example =
    require_v1_session_iff base58 known true online header (authenticated 7 session)
