-- ===== src/Tests/Events.antt =====
-- The events of a run of the echo client by their stamps, dumped by their place in a table.
use agentanvil.Prelude.{
  str_eq, eq_iff, Bool-cases, get_elem?, arith, ℕ, suc, ◌+◌, ◌-◌, String, ◌≡◌, refl, sym, ◌∙◌, ap,
  subst, none, some, List, [], ◌∷◌, inl, inr,
}
use native.Mathlib.Decide.{ℕ_discrete}
use agentanvil.Prelude.Int.{pos}
use agentanvil.Python.Text.{Text}
use agentanvil.Python.Action.{Exn, Result, ok, raised}
use agentanvil.Events.Schema.{
  EventEnvelope, EventType, agent_start, agent_step_start, llm_call_start, llm_call_end,
  agent_step_end, agent_done, Payload, start, step_number, call_start, call_end, done, AgentDone,
  completed,
}
use agentanvil.Events.Reader.Laws.{IsJsonl, OnOneLine}

abbrev pub echo_done : AgentDone
echo_done = record {
  outcome = completed;
  total_steps = 1;
  total_cost_usd = 0;
  total_input_tokens = 1;
  total_output_tokens = 2;
  wall_clock_seconds = pos 0;
}

unfoldable String-discrete : Discrete String
String-discrete s t = elim (Bool-cases (str_eq s t)) [
  | inl e ↦ yes ((eq_iff s t).0 e)
  | inr e ↦ no (λ h. absurd (cc (sym e ∙ (eq_iff s t).1 h)))
]

unfoldable EventEnvelope-discrete : Discrete EventEnvelope
unfolding String-discrete
EventEnvelope-discrete = hlevel (ℕ_discrete, String-discrete)

-- The line of the event at this place.
abbrev line : ℕ → Text
line i = 123 ∷ (1000 + i) ∷ 125 ∷ []

abbrev not_in_table : Exn
not_in_table = record { name = "ValueError"; message = [] }

-- The events from `agent_start` to `agent_done`, when they are stamped so.
module _ (ts : Text) (ns : ℕ → ℕ) where
  abbrev event : ℕ → EventType → Payload → EventEnvelope
  event n type payload = record {
    schema_ = "agent-anvil/v1";
    task_id = "t";
    step = 0;
    ts = ts;
    monotonic_ns = ns n;
    type = type;
    payload = payload;
  }

  abbrev pub table : List EventEnvelope
  table =
      event 1 agent_start (
        start (record {
          task_id = "t";
          prompt = 104 ∷ 105 ∷ [];
          provider = "";
          name = "";
          tools = [];
          max_steps = pos 2;
        }))
      ∷ event 2 agent_step_start (step_number 0)
      ∷ event 3 llm_call_start (
          call_start (record {
            provider = "";
            model = "";
            request_hash = "sha256:00";
            messages_count = 1;
            params = [];
          }))
      ∷ event 4 llm_call_end (
          call_end (record {
            request_hash = "sha256:00";
            response_hash = "sha256:00";
            input_tokens = 1;
            output_tokens = 2;
            stop_reason = "end_turn";
            cost_usd = 0;
            latency_ms = 0;
          }))
      ∷ event 5 agent_step_end (step_number 0)
      ∷ event 6 agent_done (done echo_done)
      ∷ []

  dump_in : ℕ → List EventEnvelope → EventEnvelope → Result Text
  unfolding EventEnvelope-discrete
  dump_in i [] e = raised not_in_table
  dump_in i (x ∷ xs) e = elim (EventEnvelope-discrete x e) [
    | yes _ ↦ ok (line i)
    | no _ ↦ dump_in (suc i) xs e
  ]

  unfoldable pub dump : EventEnvelope → Result Text
  unfolding dump_in
  dump e = dump_in 0 table e

  unfoldable pub validate : Text → Result EventEnvelope
  validate [] = raised not_in_table
  validate (a ∷ []) = raised not_in_table
  validate (a ∷ b ∷ t) = elim (get_elem? table (b - 1000)) [
    | none ↦ raised not_in_table
    | some e ↦ ok e
  ]

  dumped_at :
      (i : ℕ) (xs : List EventEnvelope) (e : EventEnvelope) (l : Text)
      → dump_in i xs e ≡ ok l
      → (j : ℕ) × (l ≡ line (i + j)) × (get_elem? xs j ≡ some e)
  unfolding dump_in
  dumped_at i [] e l h = absurd (cc h)
  dumped_at i (x ∷ xs) e l h = go (EventEnvelope-discrete x e) h (λ k. dumped_at (suc i) xs e l k)
    where
      go :
          (d : Dec (x ≡ e))
          → (elim d [ yes _ ↦ ok (line i) | no _ ↦ dump_in (suc i) xs e ]) ≡ ok l
          → (dump_in (suc i) xs e ≡ ok l
              → (j : ℕ) × (l ≡ line (suc i + j)) × (get_elem? xs j ≡ some e))
          → (j : ℕ) × (l ≡ line (i + j)) × (get_elem? (x ∷ xs) j ≡ some e)
      go (yes same) h rest = (0, ok_injective (sym h) ∙ ap line (omega arith), ap some same)
        where
          ok_injective : ok l ≡ ok (line i) → l ≡ line i
          ok_injective e = cc e
      go (no differs) h rest =
          let (j, at, found) = rest h in (suc j, at ∙ ap line (omega arith), found)

  -- The table's dump is a dump into lines.
  pub table-IsJsonl : IsJsonl dump validate
  unfolding dump validate
  table-IsJsonl = record {
    one_line = λ e l h.
        let (j, at, found) = dumped_at 0 table e l h in subst OnOneLine (sym at) (line-OnOneLine j);
    braces = λ e l h. let (j, at, found) = dumped_at 0 table e l h in ((1000 + (0 + j)) ∷ [], at);
    validated = λ e l h.
        let (j, at, found) = dumped_at 0 table e l h in ap validate at ∙ at_place j e found;
  }
    where
      line-OnOneLine : (j : ℕ) → OnOneLine (line (0 + j))
      line-OnOneLine j = ((refl, refl), ((ground arith, ground arith), ((refl, refl), tt)))

      at_place :
          (j : ℕ) (e : EventEnvelope) → get_elem? table j ≡ some e → validate (line (0 + j)) ≡ ok e
      at_place j e found =
          ap (λ i. elim (get_elem? table i) [ none ↦ raised not_in_table | some e ↦ ok e ])
            (omega arith)
          ∙ ap (λ o. elim o [ none ↦ raised not_in_table | some e ↦ ok e ]) found
