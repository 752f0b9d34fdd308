-- ===== src/Loop/Step.antt =====
-- `_run_one_tool` of loop.py, and the body of the loop.
use agentanvil.Prelude.{
  ℕ, suc, ◌+◌, ◌-◌, ◌/◌, String, Bool, true, false, ◌&&◌, not, Option, none, some, List, [], ◌∷◌,
  ◌++◌, str_eq, if◌then◌else◌, length,
}
use agentanvil.Prelude.Int.{ℤ, pos}
use agentanvil.Python.Text.{Text, lit, is_empty}
use agentanvil.Python.Action.{Exn, pure, gets, try_except, ◌>>=◌, ◌>>◌}
use agentanvil.Events.Schema.{
  agent_step_start, agent_step_end, llm_call_start, llm_call_end, tool_call_start, tool_call_end,
  step_number, call_start, call_end, tool_start, tool_end, DoneOutcome, completed, failed,
}
use agentanvil.Events.Writer.{set_step}
use agentanvil.Client.Base.{
  ToolUse, LlmResponse, Block, tool_result, blocks, Message, ToolSchema, Request, LlmClient,
}
use agentanvil.Pricing.{compute_cost, round_cost}
use agentanvil.Tools.Base.{ToolResult}
use agentanvil.Tools.Registry.{Tool, find_tool, run_tool}
use agentanvil.Platform.{Platform}
use agentanvil.Loop.State.{
  LoopState, LoopAction, on_sandbox, on_writer, on_client, assign, emit, monotonic_ns, hash_request,
  hash_response, build_assistant_message,
}

-- `max((b - a) // 1_000_000, 0)`; a difference below zero counts as zero.
abbrev pub elapsed_ms : ℕ → ℕ → ℕ
elapsed_ms a b = (b - a) / 1000000

-- What is fixed during a run.
pub record Setup : Type 0 where
  pub provider : String
  pub model : String
  pub params : List (String × String)
  pub system_prompt : Text
  pub tools : List Tool
  pub schemas : List ToolSchema
  pub max_steps : ℤ

-- How a tool call ended: its result, or the exception that it raised.
pub data Ended : Type 0 where
  returned : ToolResult → Ended
  threw : Exn → Ended

unfoldable pub missing_content : String → Text
missing_content name = lit "Tool not available: " ++ lit name

unfoldable pub raised_content : String → Exn → Text
raised_content name e =
    lit "Tool " ++ lit name ++ lit " raised " ++ lit e.name ++ lit ": " ++ e.message

-- The outcome for a response after which the loop ends.
unfoldable pub outcome_of : String → DoneOutcome
outcome_of stop_reason =
    if str_eq stop_reason "end_turn"
    then completed
    else if str_eq stop_reason "max_tokens"
    then failed
    else if str_eq stop_reason "error"
    then failed
    else completed

-- `resp.stop_reason == "tool_use" and resp.tool_uses`
unfoldable pub wants_tools : LlmResponse → Bool
wants_tools resp = str_eq resp.stop_reason "tool_use" && not (is_empty resp.tool_uses)

module _ (P : Platform) (C : LlmClient) where
  -- The end of a call of an unknown tool; its latency is not measured.
  unfoldable pub tool_missing : ToolUse → LoopAction P C Block
  unfolding missing_content
  tool_missing tu = do
    emit P C tool_call_end (
        tool_end (record {
          tool_call_id = tu.id;
          result = missing_content tu.name;
          result_truncated = false;
          exit_code = pos 127;
          latency_ms = 0;
        }))
    pure (tool_result tu.id (missing_content tu.name) true)

  -- The end of a call that was made at `t0`.
  unfoldable pub tool_ended : ToolUse → ℕ → Ended → LoopAction P C Block
  unfolding raised_content
  tool_ended tu t0 (threw e) = do
    t1 ← monotonic_ns P C
    emit P C tool_call_end (
        tool_end (record {
          tool_call_id = tu.id;
          result = raised_content tu.name e;
          result_truncated = false;
          exit_code = pos 1;
          latency_ms = elapsed_ms t0 t1;
        }))
    pure (tool_result tu.id (raised_content tu.name e) true)
  tool_ended tu t0 (returned result) = do
    t1 ← monotonic_ns P C
    emit P C tool_call_end (
        tool_end (record {
          tool_call_id = tu.id;
          result = result.content;
          result_truncated = result.truncated;
          exit_code = result.exit_code;
          latency_ms = elapsed_ms t0 t1;
        }))
    pure (tool_result tu.id result.content result.is_error)

  -- `try: tool.run(tu.input)` with `except Exception`.
  unfoldable pub call_tool : Tool → ToolUse → LoopAction P C Ended
  call_tool tool tu = on_sandbox P C (
      try_except (do result ← run_tool P tool tu.input; pure (returned result))
        (λ e. pure (threw e)))

  unfoldable pub dispatch : ToolUse → ℕ → Option Tool → LoopAction P C Block
  unfolding tool_missing tool_ended call_tool
  dispatch tu t0 none = tool_missing tu
  dispatch tu t0 (some tool) = do ended ← call_tool tool tu; tool_ended tu t0 ended

  -- `_run_one_tool`
  unfoldable pub run_one_tool : List Tool → ToolUse → LoopAction P C Block
  unfolding dispatch
  run_one_tool tools tu = do
    emit P C tool_call_start
        (tool_start (record { tool_name = tu.name; args = tu.input; tool_call_id = tu.id }))
    t0 ← monotonic_ns P C
    dispatch tu t0 (find_tool tu.name tools)

  -- The loop over `resp.tool_uses`.
  unfoldable pub run_tools : List Tool → List ToolUse → LoopAction P C (List Block)
  run_tools tools [] = pure []
  run_tools tools (tu ∷ tus) = do b ← run_one_tool tools tu; bs ← run_tools tools tus; pure (b ∷ bs)

  unfoldable pub request : Setup → LoopState P C → Request
  request u s = record {
    system = u.system_prompt;
    messages = s.messages;
    tools = u.schemas;
    params = u.params;
  }

  unfoldable pub append_message : Message → LoopAction P C (Unit {0})
  append_message m = assign P C (λ l. record l { messages = l.messages ++ m ∷ [] })

  unfoldable pub add_totals : Setup → LlmResponse → LoopAction P C (Unit {0})
  add_totals u resp = assign P C λ l. record l {
    total_input_tokens = l.total_input_tokens + resp.input_tokens;
    total_output_tokens = l.total_output_tokens + resp.output_tokens;
    total_cost = l.total_cost + compute_cost u.model resp.input_tokens resp.output_tokens;
  }

  -- From `_hash_request` to the `llm_call_end` event.
  unfoldable pub call_llm : Setup → LoopAction P C LlmResponse
  unfolding request add_totals
  call_llm u = do
    req ← gets (request u)
    emit P C llm_call_start (
        call_start (record {
          provider = u.provider;
          model = u.model;
          request_hash = hash_request P C req;
          messages_count = length (Request.messages req);
          params = u.params;
        }))
    t_start ← monotonic_ns P C
    resp ← on_client P C (C.complete req)
    t_end ← monotonic_ns P C
    add_totals u resp
    emit P C llm_call_end (
        call_end (record {
          request_hash = hash_request P C req;
          response_hash = hash_response P C resp;
          input_tokens = resp.input_tokens;
          output_tokens = resp.output_tokens;
          stop_reason = resp.stop_reason;
          cost_usd = round_cost (compute_cost u.model resp.input_tokens resp.output_tokens);
          latency_ms = elapsed_ms t_start t_end;
        }))
    pure resp

  -- `agent_step_end` and `step += 1`.
  unfoldable pub end_step : LoopAction P C (Unit {0})
  end_step = do
    step ← gets (λ s. s.step)
    emit P C agent_step_end (step_number step)
    assign P C (λ l. record l { step = suc l.step })

  -- The rest of the body after the assistant's message; `true` is `continue`, `false` is `break`.
  unfoldable pub finish_step : Setup → LlmResponse → LoopAction P C Bool
  unfolding run_tools append_message end_step outcome_of
  finish_step u resp =
      if wants_tools resp
      then (do
        results ← run_tools u.tools resp.tool_uses
        append_message (record { role = "user"; content = blocks results })
        end_step
        pure true)
      else (do
        end_step
        assign P C (λ l. record l { outcome = outcome_of resp.stop_reason })
        pure false)

  -- The body of the `while`.
  unfoldable pub body : Setup → LoopAction P C Bool
  unfolding call_llm finish_step
  body u = do
    step ← gets (λ s. s.step)
    on_writer P C (set_step step)
    emit P C agent_step_start (step_number step)
    resp ← call_llm u
    append_message (build_assistant_message resp)
    finish_step u resp
