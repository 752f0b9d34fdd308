-- ===== src/Events/Writer/Lines.antt =====
-- The ways for a line of `EventWriter.emit` of events.py to be written, or not in full.
use agentanvil.Prelude.{
  suc, ◌≡◌, refl, sym, ◌∙◌, ap, subst, if◌then◌else◌, Bool, true, false, some, none, Option, [],
  ◌∷◌, ◌++◌,
}
use agentanvil.Python.Text.{Text}
use agentanvil.Python.Action.{Exn, Result, ok, raised, Action, modify, continue, ◌>>=◌, ◌>>◌}
use agentanvil.Python.Action.Rules.{After, Triple, Triple-bind}
use agentanvil.Events.Schema.{EventEnvelope}
use agentanvil.Events.Writer.{
  EventWriter, Sound, Sent, sent, broke, closed_file, write_file, write_echo, write_line, echoed,
}

-- The line is not, or not in full, where it should be.
pub data Output (line : Text) (w w' : EventWriter) : Type 0 where
  untouched : w'.file ≡ w.file → w'.echo ≡ w.echo → Output line w w'
  file_broke :
      (x : Exn)
      → w.streams.file_at w.writes w.file line ≡ broke x w'.file
      → w'.echo ≡ w.echo
      → Output line w w'
  echo_broke :
      (x : Exn) (shown held : Text)
      → w'.file ≡ w.file ++ line
      → w.echo ≡ some shown
      → w.streams.echo_at (suc w.writes) shown line ≡ broke x held
      → w'.echo ≡ some held
      → Output line w w'

-- A line that was not written in full: neither stream was touched, or the write to the file raised,
-- or the line is in the file and the write to the echo raised.
pub record Halted (line : Text) (w w' : EventWriter) : Type 0 where
  pub written : w'.written ≡ w.written
  pub streams : w'.streams ≡ w.streams
  pub clock : w'.clock ≡ w.clock
  pub closed : w'.closed ≡ w.closed
  pub step : w'.step ≡ w.step
  pub task_id : w'.task_id ≡ w.task_id
  pub output : Output line w w'

-- The writer behind a write that raised nothing.
abbrev pub filed : Text → EventWriter → EventWriter
filed line w = record w { file = w.file ++ line; writes = suc w.writes }

write_file-Halted :
    (line : Text) (w : EventWriter)
    → After
        (λ (_ : Unit {0}) w'. (w.closed ≡ false) × (w' ≡ filed line w))
        (Halted line w)
        (write_file line w)
unfolding write_file
write_file-Halted line w = go w.closed refl (w.streams.file_at w.writes w.file line) refl
  where
    go :
        (closed : Bool)
        → w.closed ≡ closed
        → (o : Sent) → w.streams.file_at w.writes w.file line ≡ o
        → After
            (λ (_ : Unit {0}) w'. (w.closed ≡ false) × (w' ≡ filed line w))
            (Halted line w)
            (if closed then (raised closed_file, w) else elim o [
              | sent ↦ (ok tt, record w { file = w.file ++ line; writes = suc w.writes })
              | broke x held ↦ (raised x, record w { file = held; writes = suc w.writes })
            ])
    go true c o f = record {
      written = refl;
      streams = refl;
      clock = refl;
      closed = refl;
      step = refl;
      task_id = refl;
      output = untouched refl refl;
    }
    go false c sent f = (c, refl)
    go false c (broke x held) f = record {
      written = refl;
      streams = refl;
      clock = refl;
      closed = refl;
      step = refl;
      task_id = refl;
      output = file_broke x f refl;
    }

write_echo-Halted :
    (line : Text) (w : EventWriter)
    → After
        (λ (_ : Unit {0}) w'. w' ≡ record (filed line w) { echo = echoed w.echo line })
        (Halted line w)
        (write_echo line (filed line w))
unfolding write_echo
write_echo-Halted line w = go w.echo refl
  where
    shown_so_far :
        (shown : Text)
        → w.echo ≡ some shown
        → (o : Sent) → w.streams.echo_at (suc w.writes) shown line ≡ o
        → After
            (λ (_ : Unit {0}) w'. w' ≡ record (filed line w) { echo = echoed (some shown) line })
            (Halted line w)
            (elim o [
              | sent ↦ (ok tt, record (filed line w) { echo = some (shown ++ line) })
              | broke x held ↦ (raised x, record (filed line w) { echo = some held })
            ])
    shown_so_far shown e sent f = refl
    shown_so_far shown e (broke x held) f = record {
      written = refl;
      streams = refl;
      clock = refl;
      closed = refl;
      step = refl;
      task_id = refl;
      output = echo_broke x shown held refl e f refl;
    }

    go :
        (o : Option Text)
        → w.echo ≡ o
        → After
            (λ (_ : Unit {0}) w'. w' ≡ record (filed line w) { echo = echoed o line })
            (Halted line w)
            (elim o [
              | none ↦ (ok tt, filed line w)
              | some shown ↦ elim (w.streams.echo_at (suc w.writes) shown line) [
                | sent ↦ (ok tt, record (filed line w) { echo = some (shown ++ line) })
                | broke x held ↦ (raised x, record (filed line w) { echo = some held })
              ]
            ])
    go none e = λ i. record (filed line w) { echo = e i }
    go (some shown) e = shown_so_far shown e _ refl

-- The writer behind a line that was written.
abbrev pub after_line : EventEnvelope → Text → EventWriter → EventWriter
after_line e line w = record (filed line w) {
  echo = echoed w.echo line;
  written = w.written ++ e ∷ [];
}

-- What holds of an action from one state, as a triple.
pub from_state :
    {A : Type 0} {Q : A → EventWriter → Type 0} {E : EventWriter → Type 0} (w : EventWriter)
    (m : Action EventWriter A)
    → After Q E (m w)
    → Triple (λ x. x ≡ w) m Q E
from_state {A} {Q} {E} w m h = record {
  at = λ x e. subst (λ (v : EventWriter). After Q E (m v)) (sym e) h;
}

pub write_line-Halted :
    (e : EventEnvelope) (line : Text) (w : EventWriter)
    → Triple
        (λ x. x ≡ w)
        (write_line e line)
        (λ _ w'. (w.closed ≡ false) × (w' ≡ after_line e line w))
        (Halted line w)
unfolding write_line modify
write_line-Halted e line w =
    Triple-bind (from_state w (write_file line) (write_file-Halted line w)) λ a. record {
      at = λ x (c, h).
          (Triple-bind (from_state (filed line w) (write_echo line) (write_echo-Halted line w)) λ b.
              record {
                at = λ y g.
                    (c, ap (λ (v : EventWriter). record v { written = v.written ++ e ∷ [] }) g);
              }).at
            x h;
    }

-- On streams whose writes succeed, a line is written to an open file in full.
module _ (line : Text) (w : EventWriter) (open_ : w.closed ≡ false) (sound : Sound w.streams) where
  write_file-sent : write_file line w ≡ (ok tt, filed line w)
  unfolding write_file
  write_file-sent =
      ap
        (λ b. if b then (raised closed_file, w) else elim (w.streams.file_at w.writes w.file line) [
          | sent ↦ (ok tt, filed line w)
          | broke x held ↦ (raised x, record w { file = held; writes = suc w.writes })
        ])
        open_
      ∙ ap
          (λ (o : Sent). elim o [
            | sent ↦ (ok tt, filed line w)
            | broke x held ↦ (raised x, record w { file = held; writes = suc w.writes })
          ])
          (sound.file_sent w.writes w.file line)

  write_echo-sent :
      write_echo line (filed line w) ≡ (ok tt, record (filed line w) { echo = echoed w.echo line })
  unfolding write_echo
  write_echo-sent = go w.echo refl
    where
      go :
          (o : Option Text)
          → w.echo ≡ o
          → ◌≡◌ {A = Result (Unit {0}) × EventWriter}
              (elim o [
                | none ↦ (ok tt, filed line w)
                | some shown ↦ elim (w.streams.echo_at (suc w.writes) shown line) [
                  | sent ↦ (ok tt, record (filed line w) { echo = some (shown ++ line) })
                  | broke x held ↦ (raised x, record (filed line w) { echo = some held })
                ]
              ])
              (ok tt, record (filed line w) { echo = echoed o line })
      go none e = λ i. (ok tt, record (filed line w) { echo = e i })
      go (some shown) e = rw (sound.echo_sent (suc w.writes) shown line) refl

  pub write_line-sent : (e : EventEnvelope) → write_line e line w ≡ (ok tt, after_line e line w)
  unfolding write_line modify ◌>>=◌
  write_line-sent e =
      ap
        (λ (o : Result (Unit {0}) × EventWriter).
          continue o.0
            (λ a. do write_echo line; modify (λ w. record w { written = w.written ++ e ∷ [] })) o.1)
        write_file-sent
      ∙ ap
          (λ (o : Result (Unit {0}) × EventWriter).
            continue o.0 (λ a. modify (λ w. record w { written = w.written ++ e ∷ [] })) o.1)
          write_echo-sent
