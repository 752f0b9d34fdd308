-- ===== src/Events/Writer.antt =====
-- `EventWriter` of events.py.
pub mod Lines
pub mod Laws
use agentanvil.Prelude.{
  ℕ, suc, ◌≡◌, String, Bool, true, false, Option, none, some, List, [], ◌∷◌, ◌++◌, if◌then◌else◌,
}
use agentanvil.Python.Text.{Text, lit}
use agentanvil.Python.Json
use agentanvil.Python.Action.{
  Exn, Result, ok, raised, Action, pure, raise, lift, gets, modify, on, ◌>>=◌, ◌>>◌,
}
use agentanvil.Deterministic.Clock
use agentanvil.Deterministic.Clock.{Clock}
use agentanvil.Events.Schema.{EventType, Payload, fields, EventEnvelope, schema}

-- How a `write` and its `flush` end: the text was appended, or they raised, and then the stream
-- holds some other text.
pub data Sent : Type 0 where
  sent : Sent
  broke : Exn → Text → Sent

-- The events file and the stream of the echo, which belong to the operating system: by the number
-- of earlier writes, the text that the stream holds, and the text to write.
pub record Streams : Type 0 where
  pub file_at : ℕ → Text → Text → Sent
  pub echo_at : ℕ → Text → Text → Sent

-- Streams on which every write succeeds.
pub record Sound (streams : Streams) : Type 0 where
  pub file_sent : (n : ℕ) (held text : Text) → streams.file_at n held text ≡ sent
  pub echo_sent : (n : ℕ) (held text : Text) → streams.echo_at n held text ≡ sent

-- `file` is the text of `events.jsonl`, `echo` what the stream holds if there is one, and `written`
-- the envelopes that `emit` gave back, oldest first. The clock is the object that the loop reads
-- too, as `main` builds it.
pub record EventWriter : Type 0 where
  pub task_id : String
  pub clock : Clock
  pub step : ℕ
  pub streams : Streams
  pub writes : ℕ
  pub file : Text
  pub echo : Option Text
  pub closed : Bool
  pub written : List EventEnvelope

-- `__init__`; the file is opened in append mode.
unfoldable pub open_writer : Streams → Text → String → Clock → Bool → EventWriter
open_writer streams existing task_id clock echo = record {
  task_id = task_id;
  clock = clock;
  step = 0;
  streams = streams;
  writes = 0;
  file = existing;
  echo = if echo then some [] else none;
  closed = false;
  written = [];
}

-- A method of the writer's clock.
unfoldable pub on_clock {ℓ} : {A : Type ℓ} → Action Clock A → Action EventWriter A
unfolding on
on_clock = on (λ w. w.clock) (λ c w. record w { clock = c })

unfoldable pub set_step : ℕ → Action EventWriter (Unit {0})
unfolding modify
set_step n = modify (λ w. record w { step = n })

abbrev pub closed_file : Exn
closed_file = record { name = "ValueError"; message = lit "I/O operation on closed file." }

abbrev pub or_no_fields : Option Payload → Payload
or_no_fields none = fields Json.end
or_no_fields (some p) = p

abbrev pub echoed : Option Text → Text → Option Text
echoed none line = none
echoed (some s) line = some (s ++ line)

-- `self._fp.write(line)` and the flush.
unfoldable pub write_file : Text → Action EventWriter (Unit {0})
write_file line w =
    if w.closed then (raised closed_file, w) else elim (w.streams.file_at w.writes w.file line) [
      | sent ↦ (ok tt, record w { file = w.file ++ line; writes = suc w.writes })
      | broke x held ↦ (raised x, record w { file = held; writes = suc w.writes })
    ]

-- The echo, if there is one, and its flush.
unfoldable pub write_echo : Text → Action EventWriter (Unit {0})
write_echo line w = elim w.echo [
  | none ↦ (ok tt, w)
  | some shown ↦ elim (w.streams.echo_at w.writes shown line) [
    | sent ↦ (ok tt, record w { echo = some (shown ++ line) })
    | broke x held ↦ (raised x, record w { echo = some held })
  ]
]

-- From the write of the line to the flush of the echo.
unfoldable pub write_line : EventEnvelope → Text → Action EventWriter (Unit {0})
unfolding write_file write_echo modify
write_line e line = do
  write_file line
  write_echo line
  modify (λ w. record w { written = w.written ++ e ∷ [] })

-- `model_dump_json` is the parameter `dump`.
module _ (dump : EventEnvelope → Result Text) where
  unfoldable pub stamp : EventType → Option Payload → Text → ℕ → EventWriter → EventEnvelope
  stamp type payload ts ns w = record {
    schema_ = schema;
    task_id = w.task_id;
    step = w.step;
    ts = ts;
    monotonic_ns = ns;
    type = type;
    payload = or_no_fields payload;
  }

  unfoldable pub emit : EventType → Option Payload → Action EventWriter EventEnvelope
  unfolding on_clock write_line stamp
  emit type payload = do
    ts ← on_clock Clock.now_iso
    ns ← on_clock Clock.monotonic_ns
    envelope ← gets (stamp type payload ts ns)
    line ← lift (dump envelope)
    write_line envelope (line ++ 10 ∷ [])
    on_clock Clock.tick
    pure envelope

unfoldable pub close : Action EventWriter (Unit {0})
unfolding modify
close = modify (λ w. record w { closed = true })

-- `__enter__`, which gives the writer itself, and `__exit__`.
unfoldable pub enter : Action EventWriter EventWriter
unfolding gets
enter = gets (λ w. w)

unfoldable pub exit : Action EventWriter (Unit {0})
unfolding close
exit = close
