-- ===== src/Events/Writer/Laws.antt =====
-- The two ways for `EventWriter.emit` of events.py to end.
use agentanvil.Prelude.{
  ℕ, suc, ◌⊎◌, inl, inr, ◌≡◌, refl, sym, ◌∙◌, ap, subst, false, Option, [], ◌∷◌, ◌++◌,
}
use agentanvil.Python.Text.{Text}
use agentanvil.Python.Action.{
  Exn, Result, ok, raised, Action, pure, lift, gets, on, continue, ◌>>=◌, ◌>>◌,
}
use agentanvil.Python.Action.Rules.{After, Triple, Triple-bind, Triple-weaken, Keeps}
use agentanvil.Deterministic.Clock
use agentanvil.Deterministic.Clock.{Clock, system, replay, SystemClock, ReplayClock}
use agentanvil.Deterministic.Clock.Laws.{after_readings, after_tick, tick_after_reading}
use agentanvil.Events.Schema.{EventType, Payload, EventEnvelope, schema}
use agentanvil.Events.Writer.Lines.{
  Output, untouched, file_broke, echo_broke, Halted, after_line, from_state, write_line-Halted,
}
use agentanvil.Events.Writer.{
  on_clock, stamp, EventWriter, Sound, write_line, emit, or_no_fields, echoed,
}

abbrev pub IsOk : Result Text → Type 0
IsOk (ok line) = Unit
IsOk (raised e) = ⊥

-- The line that an event is written as.
abbrev pub line_of : Result Text → Text
line_of (ok line) = line ++ 10 ∷ []
line_of (raised e) = []

module _ (dump : EventEnvelope → Result Text) where
  -- What an `emit` that returns has done to the writer.
  pub record Emitted (type : EventType) (payload : Option Payload) (w : EventWriter)
      (e : EventEnvelope) (w' : EventWriter) : Type 0 where
    pub written : w'.written ≡ w.written ++ e ∷ []
    pub dumped : IsOk (dump e)
    pub file : w'.file ≡ w.file ++ line_of (dump e)
    pub echo : w'.echo ≡ echoed w.echo (line_of (dump e))
    pub clock : w'.clock ≡ after_tick w.clock
    pub streams : w'.streams ≡ w.streams
    pub open_ : w.closed ≡ false
    pub closed : w'.closed ≡ false
    pub step : w'.step ≡ w.step
    pub task_id : w'.task_id ≡ w.task_id
    pub e_schema : e.schema_ ≡ schema
    pub e_task_id : e.task_id ≡ w.task_id
    pub e_step : e.step ≡ w.step
    pub e_ts : (Clock.now_iso w.clock).0 ≡ ok e.ts
    pub e_monotonic_ns : (Clock.monotonic_ns (Clock.now_iso w.clock).1).0 ≡ ok e.monotonic_ns
    pub e_type : e.type ≡ type
    pub e_payload : e.payload ≡ or_no_fields payload

-- What an `emit` that raises has left. The clock was read, and has not advanced. Nothing was
-- written, or the line of this event was not written in full.
pub record Failed (dump : EventEnvelope → Result Text) (type : EventType) (payload : Option Payload)
    (w w' : EventWriter) : Type 0 where
  pub written : w'.written ≡ w.written
  pub streams : w'.streams ≡ w.streams
  pub clock : (w'.clock ≡ (Clock.now_iso w.clock).1) ⊎ (w'.clock ≡ after_readings w.clock)
  pub closed : w'.closed ≡ w.closed
  pub step : w'.step ≡ w.step
  pub task_id : w'.task_id ≡ w.task_id
  pub output :
      ((w'.file ≡ w.file) × (w'.echo ≡ w.echo))
      ⊎ ((e : EventEnvelope) × IsOk (dump e)
          × (e.type ≡ type)
          × (e.payload ≡ or_no_fields payload)
          × Output (line_of (dump e)) w w')

-- A method of the clock, from a state that is known.
clock-known :
    {A : Type 0} (w : EventWriter) (m : Action Clock A)
    → Triple
        (λ x. x ≡ w)
        (on_clock m)
        (λ a x. ((m w.clock).0 ≡ ok a) × (x ≡ record w { clock = (m w.clock).1 }))
        (λ x. ((y : Exn) × ((m w.clock).0 ≡ raised y)) × (x ≡ record w { clock = (m w.clock).1 }))
unfolding on_clock on
clock-known {A} w m = from_state w (on_clock m) (go (m w.clock) refl)
  where
    go :
        (o : Result A × Clock)
        → m w.clock ≡ o
        → After
            (λ a x. ((m w.clock).0 ≡ ok a) × (x ≡ record w { clock = (m w.clock).1 }))
            (λ x.
              ((y : Exn) × ((m w.clock).0 ≡ raised y)) × (x ≡ record w { clock = (m w.clock).1 }))
            (o.0, record w { clock = o.1 })
    go (ok a, c) e =
        (ap (λ o. o.0) e, ap (λ (o : Result A × Clock). record w { clock = o.1 }) (sym e))
    go (raised y, c) e =
        ((y, ap (λ o. o.0) e), ap (λ (o : Result A × Clock). record w { clock = o.1 }) (sym e))

module _ (dump : EventEnvelope → Result Text) (type : EventType) (payload : Option Payload)
    (w : EventWriter) where
  -- Nothing has happened but readings of the clock.
  only_read :
      (c : Clock)
      → (c ≡ (Clock.now_iso w.clock).1) ⊎ (c ≡ after_readings w.clock)
      → (x : EventWriter) → x ≡ record w { clock = c }
      → Failed dump type payload w x
  only_read c which x h = subst (Failed dump type payload w) (sym h) (record {
    written = refl;
    streams = refl;
    clock = which;
    closed = refl;
    step = refl;
    task_id = refl;
    output = inl (refl, refl);
  })

  abbrev read_twice : EventWriter
  read_twice = record w { clock = after_readings w.clock }

  Halted-Failed :
      (e : EventEnvelope) (line : Text)
      → dump e ≡ ok line
      → e.type ≡ type
      → e.payload ≡ or_no_fields payload
      → (x : EventWriter) → Halted (line ++ 10 ∷ []) read_twice x
      → Failed dump type payload w x
  Halted-Failed e line d t p x h = record {
    written = h.written;
    streams = h.streams;
    clock = inr h.clock;
    closed = h.closed;
    step = h.step;
    task_id = h.task_id;
    output = inr (
      e,
      subst IsOk (sym d) tt,
      t,
      p,
      subst (λ (o : Result Text). Output (line_of o) w x) (sym d) (same_output h.output),
    );
  }
    where
      same_output : Output (line ++ 10 ∷ []) read_twice x → Output (line ++ 10 ∷ []) w x
      same_output (untouched f g) = untouched f g
      same_output (file_broke y f g) = file_broke y f g
      same_output (echo_broke y shown held f g i k) = echo_broke y shown held f g i k

  -- From the line on, for the envelope that was stamped.
  module _ (ts : Text) (ns : ℕ) (read : (Clock.now_iso w.clock).0 ≡ ok ts)
      (read_ns : (Clock.monotonic_ns (Clock.now_iso w.clock).1).0 ≡ ok ns) where
    abbrev stamped : EventEnvelope
    stamped = stamp dump type payload ts ns read_twice

    written-Emitted :
        (line : Text)
        → dump stamped ≡ ok line
        → w.closed ≡ false
        → (x : EventWriter)
        → x
          ≡ record (after_line stamped (line ++ 10 ∷ []) read_twice) { clock = after_tick w.clock }
        → Emitted dump type payload w stamped x
    unfolding stamp
    written-Emitted line d open_ x h = subst (Emitted dump type payload w stamped) (sym h) (record {
      written = refl;
      dumped = subst IsOk (sym d) tt;
      file = ap (λ o. w.file ++ line_of o) (sym d);
      echo = ap (λ o. echoed w.echo (line_of o)) (sym d);
      clock = refl;
      streams = refl;
      open_ = open_;
      closed = open_;
      step = refl;
      task_id = refl;
      e_schema = refl;
      e_task_id = refl;
      e_step = refl;
      e_ts = read;
      e_monotonic_ns = read_ns;
      e_type = refl;
      e_payload = refl;
    })

    stamped-Emitted :
        Triple
          (λ x. x ≡ read_twice)
          (do
            envelope ← gets (stamp dump type payload ts ns)
            line ← lift (dump envelope)
            write_line envelope (line ++ 10 ∷ [])
            on_clock Clock.tick
            pure envelope)
          (Emitted dump type payload w)
          (Failed dump type payload w)
    unfolding gets lift pure stamp ◌>>=◌
    stamped-Emitted = from_state read_twice _ (go (dump stamped) refl)
      where
        go :
            (r : Result Text)
            → dump stamped ≡ r
            → After (Emitted dump type payload w) (Failed dump type payload w) (
                continue r
                  (λ line. do
                    write_line stamped (line ++ 10 ∷ [])
                    on_clock Clock.tick
                    pure stamped)
                  read_twice)
        go (raised y) d = only_read _ (inr refl) read_twice refl
        go (ok line) d =
            (Triple-bind
                (Triple-weaken (write_line-Halted stamped (line ++ 10 ∷ []) read_twice) (λ x h. h)
                  (λ a x h. h) (λ x h. Halted-Failed stamped line d refl refl x h))
                λ a. record {
                  at = λ x (open_, h).
                      (Triple-bind
                          (Triple-weaken
                            (clock-known (after_line stamped (line ++ 10 ∷ []) read_twice)
                              Clock.tick)
                            (λ y k. k) (λ b y k. k)
                            (λ y k. cc (sym (tick_after_reading w.clock read) ∙ k.0.1)))
                          λ b. record { at = λ y k. written-Emitted line d open_ y k.1 }).at
                        x h;
                }).at
              read_twice refl

-- When `emit` returns, the envelope bears the schema, the writer's task and step, the clock's
-- readings, the type and the data; its dumped line stands at the end of the file and of the echo,
-- if there is one; the clock has advanced; and the file was open. When it raises, the clock was at
-- most read and no envelope is counted as written; either neither the file nor the echo was
-- touched, or the write of the event's line to the file raised and the echo was not touched, or the
-- line is in the file and the write to the echo raised.
pub emit-ends :
    (dump : EventEnvelope → Result Text) (type : EventType) (payload : Option Payload)
    (w : EventWriter)
    → After (Emitted dump type payload w) (Failed dump type payload w) (emit dump type payload w)
unfolding emit stamp
emit-ends dump type payload w =
    (Triple-bind
        (Triple-weaken (clock-known w Clock.now_iso) (λ x h. h) (λ a x h. h)
          (λ x h. only_read dump type payload w _ (inl refl) x h.1))
        λ ts. record {
          at = λ x (read, h).
              (Triple-bind
                  (Triple-weaken
                    (clock-known (record w { clock = (Clock.now_iso w.clock).1 })
                      Clock.monotonic_ns)
                    (λ x h. h) (λ a x h. h)
                    (λ x h. only_read dump type payload w _ (inr refl) x h.1))
                  λ ns. record {
                    at = λ x (read_ns, h).
                        (stamped-Emitted dump type payload w ts ns read read_ns).at x h;
                  }).at
                x h;
        }).at
      w refl

-- What an `emit` that raises has left, to a reader who trusts the streams or does not.
pub record Unwritten (w w' : EventWriter) : Type 0 where
  pub written : w'.written ≡ w.written
  pub streams : w'.streams ≡ w.streams
  pub kept : Sound w.streams → (w'.file ≡ w.file) × (w'.echo ≡ w.echo)
  pub clock : (w'.clock ≡ (Clock.now_iso w.clock).1) ⊎ (w'.clock ≡ after_readings w.clock)
  pub closed : w'.closed ≡ w.closed
  pub step : w'.step ≡ w.step
  pub task_id : w'.task_id ≡ w.task_id

Failed-Unwritten :
    (dump : EventEnvelope → Result Text) (type : EventType) (payload : Option Payload)
    (w w' : EventWriter)
    → Failed dump type payload w w'
    → Unwritten w w'
Failed-Unwritten dump type payload w w' h = record {
  written = h.written;
  streams = h.streams;
  kept = λ sound. by_output sound h.output;
  clock = h.clock;
  closed = h.closed;
  step = h.step;
  task_id = h.task_id;
}
  where
    by_line :
        (line : Text) → Sound w.streams → Output line w w' → (w'.file ≡ w.file) × (w'.echo ≡ w.echo)
    by_line line sound (untouched f e) = (f, e)
    by_line line sound (file_broke x f e) = cc (sym (sound.file_sent w.writes w.file line) ∙ f)
    by_line line sound (echo_broke x shown held f s e t) =
        cc (sym (sound.echo_sent (suc w.writes) shown line) ∙ e)

    by_output :
        Sound w.streams
        → ((w'.file ≡ w.file) × (w'.echo ≡ w.echo))
          ⊎ ((e : EventEnvelope) × IsOk (dump e)
              × (e.type ≡ type)
              × (e.payload ≡ or_no_fields payload)
              × Output (line_of (dump e)) w w')
        → (w'.file ≡ w.file) × (w'.echo ≡ w.echo)
    by_output sound (inl h) = h
    by_output sound (inr (e, d, t, p, o)) = by_line _ sound o

-- The same, where only trusted streams are of interest.
pub emit-cases :
    (dump : EventEnvelope → Result Text) (type : EventType) (payload : Option Payload)
    (w : EventWriter)
    → After (Emitted dump type payload w) (Unwritten w) (emit dump type payload w)
emit-cases dump type payload w = go (emit dump type payload w) (emit-ends dump type payload w)
  where
    go :
        (o : Result EventEnvelope × EventWriter)
        → After (Emitted dump type payload w) (Failed dump type payload w) o
        → After (Emitted dump type payload w) (Unwritten w) o
    go (ok e, w') h = h
    go (raised x, w') h = Failed-Unwritten dump type payload w w' h

-- A property is kept by `emit` if both of its ways to end keep it.
pub emit-Keeps :
    (dump : EventEnvelope → Result Text) (type : EventType) (payload : Option Payload)
    (J : EventWriter → Type 0)
    → ((w : EventWriter) (e : EventEnvelope) (w' : EventWriter)
        → J w
        → Emitted dump type payload w e w'
        → J w')
    → ((w w' : EventWriter) → J w → Unwritten w w' → J w')
    → Keeps J (emit dump type payload)
emit-Keeps dump type payload J good bad = record {
  at = λ w h. go w h (emit dump type payload w) (emit-cases dump type payload w);
}
  where
    go :
        (w : EventWriter)
        → J w
        → (o : Result EventEnvelope × EventWriter)
        → After (Emitted dump type payload w) (Unwritten w) o
        → After (λ e. J) J o
    go w h (ok e, w') d = good w e w' h d
    go w h (raised x, w') d = bad w w' h d
