-- ===== src/Client/Mock.antt =====
-- client/mock.py: `ScriptedClient` and `EchoClient`.
pub mod Laws
use mathlib.Core.List.{reverse}
use agentanvil.Prelude.{
  ℕ, suc, ◌+◌, String, List, [], ◌∷◌, ◌++◌, leb, str_eq, if◌then◌else◌, length,
}
use agentanvil.Python.Text.{Text, lit, show_ℕ, count_words}
use agentanvil.Python.Action.{Exn, Result, ok, raised, Action, pure}
use agentanvil.Client.Base.{LlmResponse, Block, Content, plain, blocks, Message, Request, LlmClient}
use agentanvil.Deterministic.Clock.{index}

pub record Scripted : Type 0 where
  pub responses : List LlmResponse
  pub idx : ℕ

abbrev pub exhausted : ℕ → Exn
exhausted n = record {
  name = "RuntimeError";
  message =
      lit "ScriptedClient exhausted after "
      ++ show_ℕ n
      ++ lit " responses; loop tried to make another LLM call";
}

unfoldable pub scripted_complete : Request → Action Scripted LlmResponse
scripted_complete request c =
    if leb (length c.responses) c.idx
    then (raised (exhausted c.idx), c)
    else (index c.responses c.idx, record c { idx = suc c.idx })

abbrev pub scripted_client : LlmClient
scripted_client = record { State = Scripted; complete = scripted_complete }

-- `str` of a list of content blocks is the parameter `repr`.
module _ (repr : List Block → Text) where
  content_text : Content → Text
  content_text (plain s) = s
  content_text (blocks bs) = repr bs

  -- The loop over the reversed messages.
  unfoldable pub first_user : List Message → Text
  unfolding content_text
  first_user [] = []
  first_user (m ∷ ms) =
      let rest = first_user ms in if str_eq m.role "user" then content_text m.content else rest

  unfoldable pub echo_response : Text → LlmResponse
  echo_response last_user = record {
    text_blocks = (lit "echo: " ++ last_user) ∷ [];
    tool_uses = [];
    stop_reason = "end_turn";
    input_tokens = count_words last_user;
    output_tokens = count_words last_user + 1;
    response_id = "mock-echo";
  }

  unfoldable pub echo_complete : Request → Action (Unit {0}) LlmResponse
  unfolding first_user echo_response
  echo_complete request = pure (echo_response (first_user (reverse request.messages)))

  abbrev pub echo_client : LlmClient
  echo_client = record { State = Unit {0}; complete = echo_complete }
