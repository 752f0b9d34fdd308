-- ===== src/Loop/Shapes.antt =====
-- The `data` of the events of a run of loop.py.
use agentanvil.Prelude.{◌≡◌, sym, subst, String, some, [], ◌∷◌, All, All-append}
use agentanvil.Python.FilePath.{FilePath}
use agentanvil.Python.Action.Rules.{Keeps, Keeps-intro}
use agentanvil.Events.Schema.{EventType, Payload}
use agentanvil.Events.Shape.{Shaped}
use agentanvil.Events.Writer.{EventWriter, set_step, on_clock, emit}
use agentanvil.Events.Writer.Laws.{emit-Keeps}
use agentanvil.Client.Base.{LlmClient}
use agentanvil.Config.{AgentTaskSpec}
use agentanvil.Platform.{Platform}
use agentanvil.Loop.State.{LoopState}
use agentanvil.Loop.Run.{run}
use agentanvil.Loop.Trace.{WriterKeeps, run-keeps}

abbrev pub AllShaped : EventWriter → Type 0
AllShaped w = All (λ e. Shaped e.type e.payload) w.written

module _ (P : Platform) (C : LlmClient) where
  emit-AllShaped :
      (type : EventType) (p : Payload) → Shaped type p → Keeps AllShaped (emit P.dump type (some p))
  emit-AllShaped type p shape =
      emit-Keeps P.dump type (some p) AllShaped
        (λ w e w' h d. subst (All (λ e. Shaped e.type e.payload)) (sym d.written) (
          All-append _ w.written (e ∷ []) h (
            subst (λ t. Shaped t e.payload) (sym d.e_type)
                (subst (Shaped type) (sym d.e_payload) shape),
            tt,
          )))
        (λ w w' h d. subst (All (λ e. Shaped e.type e.payload)) (sym d.written) h)

  shapes : WriterKeeps P C AllShaped
  unfolding set_step on_clock
  shapes = record {
    event = emit-AllShaped;
    numbered = λ n. Keeps-intro λ w h. h;
    reading = Keeps-intro λ w h. h;
  }

  -- From a writer that has written nothing, however a run ends: the data of every event is the one
  -- of its type. A start, an end of a call and an error have their own fields, and only the start
  -- and the end of a step have the number of a step alone. No event comes without data.
  pub run-shapes :
      (task_id : String) (workspace : FilePath) (spec : AgentTaskSpec) (s : LoopState P C)
      → s.events.written ≡ []
      → All (λ e. Shaped e.type e.payload) (run P C task_id workspace spec s).1.events.written
  run-shapes task_id workspace spec s empty =
      run-keeps P C AllShaped shapes task_id workspace spec s
        (subst (All (λ e. Shaped e.type e.payload)) (sym empty) tt)
