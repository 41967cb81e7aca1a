-- ===== src/Tests/Forward.antt =====
-- The theorem of Consumer/Forward.antt at a concrete input: a streamed request whose node sends a chunk
-- and then its end.
use sparkl_router.Common.{ℕ, true, none, some, [], ◌∷◌}
use sparkl_router.Protocol.{InboundFrame}
use sparkl_router.Consumer.Gate.{AuthenticatedSession}
use sparkl_router.Consumer.Sse.{received, closes}
use sparkl_router.Consumer.Forward.{Reading, Answer, chat_completions}
use sparkl_router.Consumer.Forward.Guard.{IsBalanced, chat_completions-IsBalanced}

abbrev reading : Reading
reading = record {
  parse_stream_flag = λ body. true;
  inject_stream_usage_option = λ body. body;
  parse_model = λ body. some (1 ∷ []);
  extract_usage_from_body = λ body. none;
  extract_usage_from_sse_body = λ body. some (record { input_tokens = 3; output_tokens = 4 });
  quote_json = λ text. text;
  contains_model = λ model. true;
  concurrency_for = λ node_id model. 2;
}

abbrev auth : AuthenticatedSession
auth = record { session_id = 7; user = 1; node_id = 2; locked_internal = 100; usage_recorded = 5 }

abbrev answer : Answer (Unit {0})
answer = record {
  online = true;
  acquired = none;
  sent = true;
  frames = [];
  tail = closes;
  polls =
      received true (InboundFrame.chunk (1 ∷ 2 ∷ [])) ∷ received true (InboundFrame.end 200) ∷ [];
}

abbrev scale : ℕ → ℕ
scale concurrency = concurrency

chat_completions-IsBalanced_example :
    IsBalanced (chat_completions reading scale some true auth [] answer).1
chat_completions-IsBalanced_example =
    chat_completions-IsBalanced reading scale some true auth [] answer
