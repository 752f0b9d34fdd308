-- ===== src/Events/Log.antt =====
-- What an `EventWriter` of events.py is to its callers: a log that grows at its end until it is
-- closed. The clock, the encoding and the file are forgotten.
pub mod Refinement
use agentanvil.Prelude.{
  ℕ, String, ◌≡◌, refl, sym, ◌∙◌, Bool, true, false, Option, none, some, List, [], ◌∷◌, ◌++◌,
  append-nil, append_assoc,
}
use agentanvil.Events.Schema.{EventType, Payload, EventEnvelope, schema}
use agentanvil.Events.Writer.{or_no_fields}

pub record Log : Type 0 where
  pub task_id : String
  pub entries : List EventEnvelope
  pub step : ℕ
  pub is_open : Bool

-- The calls of a writer that change it.
pub data Call : Type 0 where
  emit : EventType → Option Payload → Call
  set_step : ℕ → Call
  close : Call

-- What a caller sees of a call: it returned, with an envelope if it was an `emit`, or it raised.
pub data Outcome : Type 0 where
  returned : Option EventEnvelope → Outcome
  failed : Outcome

-- The envelope is one for this log, this step, this type and this data.
pub record Fits (l : Log) (type : EventType) (payload : Option Payload) (e : EventEnvelope)
    : Type 0 where
  pub of_schema : e.schema_ ≡ schema
  pub of_task_id : e.task_id ≡ l.task_id
  pub of_step : e.step ≡ l.step
  pub of_type : e.type ≡ type
  pub of_payload : e.payload ≡ or_no_fields payload

-- An `emit` may fail at any time, and does once the log is closed; it appends what it returns.
pub data LogStep : Call → Outcome → Log → Log → Type 0 where
  appended :
      (type : EventType) (payload : Option Payload) (l : Log) (e : EventEnvelope)
      → l.is_open ≡ true
      → Fits l type payload e
      → LogStep
          (emit type payload)
          (returned (some e))
          l
          (record l { entries = l.entries ++ e ∷ [] })
  refused :
      (type : EventType) (payload : Option Payload) (l : Log)
      → LogStep (emit type payload) failed l l
  numbered : (n : ℕ) (l : Log) → LogStep (set_step n) (returned none) l (record l { step = n })
  closed : (l : Log) → LogStep close (returned none) l (record l { is_open = false })

pub data LogSteps : List Call → List Outcome → Log → Log → Type 0 where
  here : (l : Log) → LogSteps [] [] l l
  next :
      {c : Call} {cs : List Call} {o : Outcome} {os : List Outcome} {l m n : Log}
      → LogStep c o l m
      → LogSteps cs os m n
      → LogSteps (c ∷ cs) (o ∷ os) l n

-- The envelopes that the calls gave back.
abbrev pub envelopes : List Outcome → List EventEnvelope
envelopes [] = []
envelopes (returned (some e) ∷ os) = e ∷ envelopes os
envelopes (returned none ∷ os) = envelopes os
envelopes (failed ∷ os) = envelopes os

-- A log has what it had and, behind it, what its calls gave back.
pub LogSteps-entries :
    {cs : List Call} {os : List Outcome} {l n : Log}
    → LogSteps cs os l n
    → n.entries ≡ l.entries ++ envelopes os
LogSteps-entries (here l) = sym (append-nil l.entries)
LogSteps-entries (next (appended type payload l e open_ fits) rest) =
    LogSteps-entries rest ∙ append_assoc l.entries (e ∷ []) _
LogSteps-entries (next (refused type payload l) rest) = LogSteps-entries rest
LogSteps-entries (next (numbered n l) rest) = LogSteps-entries rest
LogSteps-entries (next (closed l) rest) = LogSteps-entries rest
