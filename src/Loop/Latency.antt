-- ===== src/Loop/Latency.antt =====
-- The latency of an LLM call of the loop of loop.py under a `ReplayClock`.
use agentanvil.Prelude.{ℕ, ◌≡◌, refl, sym, ◌∙◌, ap, subst, some, List, [], ◌∷◌, ◌++◌, arith}
use agentanvil.Python.Text.{Text}
use agentanvil.Python.Action.{on, Result, ok, raised, Action}
use agentanvil.Python.Action.Rules.{After, Triple, Triple-pure, Triple-bind, Triple-weaken, Keeps}
use agentanvil.Deterministic.Clock
use agentanvil.Deterministic.Clock.{Clock, system, replay, ReplayClock}
use agentanvil.Deterministic.Clock.Laws.{after_tick, replay_still_monotonic}
use agentanvil.Events.Schema.{EventType, llm_call_end, Payload, call_end, LlmCallEnd, EventEnvelope}
use agentanvil.Events.Writer as Writer
use agentanvil.Events.Writer.{EventWriter, on_clock}
use agentanvil.Events.Writer.Laws.{Emitted, Unwritten, emit-cases}
use agentanvil.Client.Base.{LlmClient}
use agentanvil.Platform.{Platform}
use agentanvil.Loop.State.{LoopState, emit, monotonic_ns}
use agentanvil.Loop.Lift.{OnWriter, on_writer-Triple, on_client-OnWriter, assign-OnWriter}
use agentanvil.Loop.Keeps.{gets-Keeps}
use agentanvil.Loop.Step.{Setup, elapsed_ms, add_totals, call_llm}

-- A clock that replays.
abbrev pub IsReplay : Clock → Type 0
IsReplay (system c) = ⊥
IsReplay (replay c) = Unit

after_tick-IsReplay : (c : Clock) → IsReplay c → IsReplay (after_tick c)
unfolding Clock.now_iso Clock.monotonic_ns Clock.tick
after_tick-IsReplay (system c) h = h
after_tick-IsReplay (replay c) h = tt

-- The last event of the trace is an `llm_call_end` without latency.
abbrev pub EndsAtOnce : EventWriter → Type 0
EndsAtOnce w =
    (es : List EventEnvelope) × (e : EventEnvelope) × (d : LlmCallEnd) × (w.written ≡ es ++ e ∷ [])
    × (e.type ≡ llm_call_end)
    × (e.payload ≡ call_end d)
    × (d.latency_ms ≡ 0)

abbrev Replaying : EventWriter → Type 0
Replaying w = IsReplay w.clock

abbrev Standing : Clock → EventWriter → Type 0
Standing c w = w.clock ≡ c

-- The reading of a clock that stands still.
abbrev Read : Clock → ℕ → EventWriter → Type 0
Read c n w = (w.clock ≡ c) × ((Clock.monotonic_ns c).0 ≡ ok n)

still : (c : Clock) → IsReplay c → (Clock.monotonic_ns c).1 ≡ c
still (system c) h = absurd h
still (replay c) h = replay_still_monotonic c

module _ (dump : EventEnvelope → Result Text) where
  start-Replaying :
      (type : EventType) (p : Payload)
      → Triple Replaying (Writer.emit dump type (some p)) (λ e. Replaying) (λ w. Unit)
  start-Replaying type p = record {
    at = λ w h. go w h (Writer.emit dump type (some p) w) (emit-cases dump type (some p) w);
  }
    where
      go :
          (w : EventWriter)
          → Replaying w
          → (o : Result EventEnvelope × EventWriter)
          → After (Emitted dump type (some p) w) (Unwritten w) o
          → After (λ e. Replaying) (λ w. Unit) o
      go w h (ok e, w') d = subst IsReplay (sym d.clock) (after_tick-IsReplay w.clock h)
      go w h (raised x, w') d = tt

  end-EndsAtOnce :
      (d : LlmCallEnd)
      → d.latency_ms ≡ 0
      → Triple
          (λ w. Unit)
          (Writer.emit dump llm_call_end (some (call_end d)))
          (λ e. EndsAtOnce)
          (λ w. Unit)
  end-EndsAtOnce d zero_ms = record {
    at = λ w h.
        go w (Writer.emit dump llm_call_end (some (call_end d)) w)
          (emit-cases dump llm_call_end (some (call_end d)) w);
  }
    where
      go :
          (w : EventWriter) (o : Result EventEnvelope × EventWriter)
          → After (Emitted dump llm_call_end (some (call_end d)) w) (Unwritten w) o
          → After (λ e. EndsAtOnce) (λ w. Unit) o
      go w (ok e, w') f = (w.written, e, d, f.written, f.e_type, f.e_payload, zero_ms)
      go w (raised x, w') f = tt

on_clock-Read :
    (c : Clock)
    → IsReplay c
    → Triple (Standing c) (on_clock Clock.monotonic_ns) (λ n. Read c n) (λ w. Unit)
unfolding on_clock on
on_clock-Read c h = record { at = λ w e. go w e (Clock.monotonic_ns w.clock) refl }
  where
    go :
        (w : EventWriter)
        → w.clock ≡ c
        → (o : Result ℕ × Clock) → Clock.monotonic_ns w.clock ≡ o
        → After (λ n. Read c n) (λ w. Unit) (o.0, record w { clock = o.1 })
    go w e (ok n, c') r = (
      sym (ap (λ o. o.1) r) ∙ ap (λ c. (Clock.monotonic_ns c).1) e ∙ still c h,
      sym (ap (λ c. (Clock.monotonic_ns c).0) e) ∙ ap (λ o. o.0) r,
    )
    go w e (raised x, c') r = tt

no_time : (m n : ℕ) → ◌≡◌ {A = Result ℕ} (ok m) (ok n) → elapsed_ms m n ≡ 0
no_time m n h = omega (arith, same h)
  where
    same : ◌≡◌ {A = Result ℕ} (ok m) (ok n) → m ≡ n
    same h = cc h

module _ (P : Platform) (C : LlmClient) where
  abbrev Anything : LoopState P C → Type 0
  Anything s = Unit

  keeps :
      {A : Type 0} {m : Action (LoopState P C) A} (J : EventWriter → Type 0)
      → Keeps (OnWriter P C J) m
      → Triple (OnWriter P C J) m (λ a. OnWriter P C J) Anything
  keeps J k = Triple-weaken k (λ s h. h) (λ a s h. h) (λ s h. tt)

  for_clock :
      {A : Type 0} {m : Action (LoopState P C) A} {Q : A → LoopState P C → Type 0}
      → ((c : Clock) → IsReplay c → Triple (OnWriter P C (Standing c)) m Q Anything)
      → Triple (OnWriter P C Replaying) m Q Anything
  for_clock f = record { at = λ s h. (f s.events.clock h).at s refl }

  -- A fact that does not depend on the state.
  assuming :
      {A X : Type 0} (J : EventWriter → Type 0) {m : Action (LoopState P C) A}
      {Q : A → LoopState P C → Type 0}
      → (X → Triple (OnWriter P C J) m Q Anything)
      → Triple (OnWriter P C (λ w. J w × X)) m Q Anything
  assuming J f = record { at = λ s h. (f h.1).at s h.0 }

  -- From a state whose clock replays, the call of the client takes no time: when all of it returns,
  -- the last event is its `llm_call_end`, and `latency_ms` is 0, whatever was recorded.
  pub call_llm-EndsAtOnce :
      (u : Setup) (s : LoopState P C)
      → IsReplay s.events.clock
      → After (λ r t. EndsAtOnce t.events) (λ t. Unit) (call_llm P C u s)
  unfolding call_llm add_totals emit monotonic_ns
  call_llm-EndsAtOnce u s replays =
      (Triple-bind (keeps Replaying (gets-Keeps P C (OnWriter P C Replaying) _)) λ req.
          Triple-bind (on_writer-Triple P C (start-Replaying P.dump _ _)) λ e. for_clock λ c h.
            Triple-bind (on_writer-Triple P C (on_clock-Read c h)) λ t0.
              Triple-bind (keeps (Read c t0) (on_client-OnWriter P C (Read c t0) _)) λ r.
                assuming (Standing c) λ first.
                  Triple-bind (on_writer-Triple P C (on_clock-Read c h)) λ t1.
                    Triple-bind (keeps (Read c t1) (assign-OnWriter P C (Read c t1) _)) λ a.
                      assuming (Standing c) λ second.
                        Triple-bind
                          (Triple-weaken
                            (on_writer-Triple P C
                              (end-EndsAtOnce P.dump _ (no_time t0 t1 (sym first ∙ second))))
                            (λ s h. tt) (λ e s h. h) (λ s h. tt))
                          λ e'. Triple-pure (λ r. OnWriter P C EndsAtOnce) Anything r).at
        s replays
