-- ===== src/Main/Choices.antt =====
-- The client that __main__.py builds: its provider, its model and its key.
use agentanvil.Prelude.{String, Option, none, some, ◌++◌, str_eq, if◌then◌else◌}
use agentanvil.Python.Text.{Text, lit}
use agentanvil.Python.Action.{Exn, Result, ok, raised}
use agentanvil.Client.Anthropic.{choose_key}
use agentanvil.Config.{AgentTaskSpec, ModelSpec}

-- The clients that `_make_client` builds.
pub data ClientChoice : Type 0 where
  echo : ClientChoice
  anthropic : String → Text → ClientChoice

abbrev pub unknown_provider : String → Exn
unknown_provider provider = record {
  name = "ValueError";
  message = lit "Unknown provider: " ++ lit provider;
}

-- `_make_client`, with `AnthropicClient.__init__` over the variable ANTHROPIC_API_KEY.
unfoldable pub make_client : Option Text → String → String → Option Text → Result ClientChoice
make_client environment provider model api_key =
    if str_eq provider "mock"
    then ok echo
    else if str_eq provider "anthropic"
    then elim (choose_key api_key environment) [
      | ok key ↦ ok (anthropic model key)
      | raised e ↦ raised e
    ]
    else raised (unknown_provider provider)

abbrev name_or : String → Option ModelSpec → String
name_or other none = other
name_or other (some m) = m.name

abbrev pub provider_or : String → Option ModelSpec → String
provider_or other none = other
provider_or other (some m) = m.provider

-- `args.provider or (spec.model.provider if spec.model else "mock")`
unfoldable pub choose_provider : Option String → AgentTaskSpec → String
choose_provider none spec = provider_or "mock" spec.model
choose_provider (some p) spec = if str_eq p "" then provider_or "mock" spec.model else p

-- `spec.model.name if spec.model else "scripted"`
unfoldable pub choose_model : AgentTaskSpec → String
choose_model spec = name_or "scripted" spec.model
