-- ===== src/Config/Laws.antt =====
-- The two forms of a task file.
use agentanvil.Prelude.{◌≡◌, refl, sym, ◌∙◌, none, some}
use agentanvil.Python.Text.{Text}
use agentanvil.Python.Json
use agentanvil.Python.Json.{Json, Fields, obj}
use agentanvil.Python.Action.{Result, ok}
use agentanvil.Config.{AgentTaskSpec, has_key, spec_of, load_task}

module _ (safe_load : Text → Result Json) (type_name : Json → Text)
    (model_validate : Json → Result AgentTaskSpec) where
  load_task-spec_of :
      (file : Text) (raw spec : Json)
      → safe_load file ≡ ok raw
      → spec_of safe_load type_name model_validate raw ≡ ok spec
      → load_task safe_load type_name model_validate file ≡ model_validate spec
  unfolding load_task
  load_task-spec_of file raw spec h k = rw (h, load_task) (rw k refl)

  full-spec_of :
      (raw : Fields) (v spec : Json)
      → Json.get "apiVersion" raw ≡ some v
      → Json.get "spec" raw ≡ some spec
      → spec_of safe_load type_name model_validate (obj raw) ≡ ok spec
  unfolding spec_of has_key
  full-spec_of raw v spec h k = rw h (rw k refl)

  projected-spec_of :
      (raw : Fields)
      → Json.get "apiVersion" raw ≡ none
      → spec_of safe_load type_name model_validate (obj raw) ≡ ok (obj raw)
  unfolding spec_of has_key
  projected-spec_of raw h = rw h refl

  -- A file in the full form, with `apiVersion` and `spec`, gives the same task as a file that has
  -- only the mapping under `spec`, if that mapping has no `apiVersion` itself.
  pub load_task-forms :
      (full projected : Text) (raw spec : Fields) (v : Json)
      → safe_load full ≡ ok (obj raw)
      → Json.get "apiVersion" raw ≡ some v
      → Json.get "spec" raw ≡ some (obj spec)
      → safe_load projected ≡ ok (obj spec)
      → Json.get "apiVersion" spec ≡ none
      → load_task safe_load type_name model_validate full
        ≡ load_task safe_load type_name model_validate projected
  load_task-forms full projected raw spec v f a s p n =
      load_task-spec_of full (obj raw) (obj spec) f (full-spec_of raw v (obj spec) a s)
      ∙ sym (load_task-spec_of projected (obj spec) (obj spec) p (projected-spec_of spec n))
