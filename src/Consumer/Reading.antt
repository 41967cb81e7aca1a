-- ===== src/Consumer/Reading.antt =====
-- src/consumer/forward.rs: what `chat_completions` reads from a body and from the catalog of models.
pub mod Offered
use sparkl_router.Common.{ℕ, Bool, false, Option, List, Text, codes}
use sparkl_router.Json.{Json, ◌>>=◌, unwrap_or, get}
use sparkl_router.Models.Catalog.{ModelsCatalog, contains, concurrency_for}
use sparkl_router.Consumer.Forward.{Reading}
use sparkl_router.Consumer.Metering.{
  inject_stream_usage_option, extract_usage_from_body, extract_usage_from_sse_body,
}

module _ (j : Json) where
  unfoldable pub parse_stream_flag : Text → Bool
  parse_stream_flag body =
      unwrap_or (j.from_str body >>= (λ v. get j v (codes "stream") >>= j.as_bool)) false

  unfoldable pub parse_model : Text → Option Text
  parse_model body = j.from_str body >>= (λ v. get j v (codes "model") >>= j.as_str)

  -- `quote` is the text of an error line of a stream.
  unfoldable pub json_reading :
      (Text → Option (List ℕ))
      → (List ℕ → Option ℕ)
      → (Text → Text)
      → ModelsCatalog j.Value
      → Reading
  unfolding parse_stream_flag parse_model inject_stream_usage_option extract_usage_from_body
      extract_usage_from_sse_body contains concurrency_for
  json_reading base64 receipt quote t = record {
    parse_stream_flag = parse_stream_flag;
    inject_stream_usage_option = inject_stream_usage_option j;
    parse_model = parse_model;
    extract_usage_from_body = extract_usage_from_body j;
    extract_usage_from_sse_body = extract_usage_from_sse_body j base64 receipt;
    quote_json = quote;
    contains_model = contains t;
    concurrency_for = concurrency_for j t;
  }
