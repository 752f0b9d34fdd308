-- ===== src/Config.antt =====
-- config.py: the task specification, and `load_task`.
pub mod Laws
use agentanvil.Prelude.{String, Bool, true, false, Option, none, some, List, ◌++◌, if◌then◌else◌}
use agentanvil.Prelude.Int.{ℤ}
use agentanvil.Python.Text.{Text, lit}
use agentanvil.Python.Json
use agentanvil.Python.Json.{Json, obj}
use agentanvil.Python.Action.{Exn, Result, ok, raised}

pub record ApiKeySecretRef : Type 0 where
  pub name : String
  pub key : String

pub record ModelSpec : Type 0 where
  pub provider : String
  pub name : String
  pub api_key_secret_ref : Option ApiKeySecretRef
  pub params : List (String × String)

pub record ToolSpec : Type 0 where
  pub name : String
  pub timeout_seconds : Option ℤ

pub record WorkspaceSpec : Type 0 where
  pub base_image : String
  pub init_command : List String

pub record ResourceSpec : Type 0 where
  pub cpu : String
  pub memory : String
  pub ephemeral_storage : String

pub data CheckpointMode : Type 0 where
  manual every_step interval : CheckpointMode

pub record CheckpointPolicySpec : Type 0 where
  pub mode : CheckpointMode
  pub interval_seconds : Option ℤ

pub record ReplaySpec : Type 0 where
  pub checkpoint_id : String
  pub from_step : ℤ

pub record AgentTaskSpec : Type 0 where
  pub prompt : Text
  pub system_prompt : Text
  pub model : Option ModelSpec
  pub tools : List ToolSpec
  pub workspace : Option WorkspaceSpec
  pub timeout_seconds : Option ℤ
  pub max_steps : Option ℤ
  pub resources : Option ResourceSpec
  pub checkpoint_policy : Option CheckpointPolicySpec
  pub replay : Option ReplaySpec

abbrev pub not_a_mapping : Text → Exn
not_a_mapping type_name = record {
  name = "ValueError";
  message = lit "task.yaml root must be a mapping, got " ++ type_name;
}

-- `key in raw`
has_key : Option Json → Bool
has_key none = false
has_key (some v) = true

-- `safe_load` of the file's text, the name of a value's type, and `model_validate` are parameters.
module _ (safe_load : Text → Result Json) (type_name : Json → Text)
    (model_validate : Json → Result AgentTaskSpec) where
  -- The projected form, or the `spec` of the full form.
  unfoldable pub spec_of : Json → Result Json
  unfolding has_key
  spec_of (obj raw) =
      if has_key (Json.get "apiVersion" raw)
      then elim (Json.get "spec" raw) [ none ↦ ok (obj raw) | some spec ↦ ok spec ]
      else ok (obj raw)
  spec_of v = raised (not_a_mapping (type_name v))

  unfoldable pub load_task : Text → Result AgentTaskSpec
  unfolding spec_of
  load_task file = elim (safe_load file) [
    | raised e ↦ raised e
    | ok raw ↦ elim (spec_of raw) [ raised e ↦ raised e | ok spec ↦ model_validate spec ]
  ]
