-- ===== src/Lib.antt =====
-- Agent-Anvil's Python SDK, sdk/python/src/agent_anvil/: an agent loop that asks an LLM client,
-- runs the tools that the answers ask for in a workspace, and writes every step as an event to a
-- file.
--
-- The parts and the files that model them:
--
-- Prelude and Python: shared helpers, and what the SDK uses of the language: texts as lists of
-- code points, UTF-8, JSON values, pure paths, and actions with exceptions (`Action S A` takes a
-- state and gives a result or an exception, and the state). Python/Action/Rules has the triples by
-- which all proofs on actions go.
-- Deterministic: the clocks and random sources of deterministic.py. The system clock is a function
-- from the number of a reading to its value.
-- Events: `EventEnvelope`, `EventWriter` and `read_events` of events.py. The writer's state has
-- the text of the file, the text that was echoed, and the envelopes whose lines were written in
-- full, to the file and to the echo: the events of a run, in the theorems below, are these. The
-- file and the echo are `Streams` of the operating system, whose writes can fail and then leave
-- any text. `Sound` says that they do not, and a theorem that needs it takes it as a hypothesis.
-- `KeepsFile` (Loop/Durable) says it of the file alone.
-- Events/Writer/Lines and Events/Writer/Laws follow the failures through `emit`. Events/Log is the
-- abstract log that the writer refines, Events/Shape the data that an event's type allows.
-- Client: client/base.py, client/mock.py and client/anthropic.py. A client is a state and a
-- `complete` action, so that a theorem for all clients covers every answer a model may give.
-- Pricing: pricing.py, in whole units of 1e-8 USD.
-- Config: the records and `load_task` of config.py.
-- Platform: the file system, the shell, the time, hashes and the JSON of pydantic, as one record
-- of parameters. What a theorem relies on of it is a hypothesis of that theorem: `Sound`
-- (Events/Writer), `IsJsonl` (Events/Reader/Laws), `Confined` (Loop/Confinement), `Dependable`
-- (Loop/Answers), `KeepsFiles` (Tools/Handover) and `Discards` (Main/Opening).
-- Tools: tools/base.py (Base), tools/bash.py (Bash), tools/file_read.py (FileRead),
-- tools/file_write.py (FileWrite), tools/file_edit.py (FileEdit), tools/web_search.py (WebSearch)
-- and tools/registry.py (Registry); Schemas has their descriptions. A tool acts on the `Sandbox`:
-- the writer and the machine. Safety says what the tools keep, Bash/Effects, FileRead/Effects,
-- FileWrite/Effects and FileEdit/Effects what a call does, and Handover what a tool finds behind
-- another.
-- Loop: loop.py. Payload has the dicts that are hashed, as JSON values, State has the state of
-- `run`: the sandbox, the client's state and the local variables. Step has `_run_one_tool` and the
-- body of the loop, Run the loop, its handler and `run`. Keeps, Invariant, Trace and Measure carry
-- properties of single actions through a whole run; Protocol, Count, Numbering, Tokens, Cost,
-- Dialogue, Told, Shapes, Replay, Latency, Jsonl, Durable (where the echo breaks), Confinement,
-- Answers, First (runs that are over with the first answer) and Assistant have the theorems.
-- Trace: trace.py.
-- Main: `__main__.py`. Options has the defaults of the arguments, Choices the provider, model and
-- client, and Main itself `main`, over a `Host` of parameters: the environment, argparse, logging,
-- the file system, yaml and the anthropic package. Opening and Exit carry what is proved of a run
-- to the whole of `main`, in Laws and Provider.
-- Tests: a machine that logs its writes, a run with a scripted client and one with the echo
-- client, a process that calls `main`, a disk of one file, and the theorems at these.
--
-- The writer and the clock are shared between the loop and the tools in the source, and stand once
-- in the state here. A closure over `step`, `messages` and the totals is the record `Locals`.
--
-- The loop runs on fuel, `max_steps` rounds and one more, which is enough since each round ends a
-- step or the loop. `decode` runs on the number of bytes and one more, and each round takes a
-- byte.
--
-- Not modelled: a `close` of the events file that raises; what argparse, logging and the
-- third-party packages do by themselves; the rounding error of floats in costs, since prices are
-- whole cents; the Kubernetes operator (Go), which shares only the task specification.
pub mod Prelude
pub mod Python
pub mod Deterministic
pub mod Events
pub mod Client
pub mod Pricing
pub mod Platform
pub mod Config
pub mod Tools
pub mod Loop
pub mod Trace
pub mod Main
pub mod Tests
