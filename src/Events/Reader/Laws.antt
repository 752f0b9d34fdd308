-- ===== src/Events/Reader/Laws.antt =====
-- Reading what the writer wrote, in events.py.
use agentanvil.Prelude.{
  ℕ, ◌≡◌, refl, sym, ◌∙◌, ap, false, List, [], ◌∷◌, ◌++◌, append_assoc, append-nil, All, ◌==◌,
}
use agentanvil.Python.Text.{Text, is_space, lstrip, rstrip_cons, rstrip, strip, is_empty}
use agentanvil.Python.Text.Lines.{split_lines, push, translate_newlines_from, translate_newlines}
use agentanvil.Python.Action.{Result, ok, raised}
use agentanvil.Events.Schema.{EventEnvelope}
use agentanvil.Events.Reader.{cons_result, read_lines, read_events}
use agentanvil.Events.Writer.Laws.{IsOk, line_of}

-- A text with neither `\n` nor `\r`.
abbrev pub OnOneLine : Text → Type 0
OnOneLine = All (λ c. ((c == 10) ≡ false) × ((c == 13) ≡ false))

-- What the SDK relies on of pydantic's JSON: an event is dumped as one line between braces, from
-- which the event is validated.
pub record IsJsonl (dump : EventEnvelope → Result Text) (validate : Text → Result EventEnvelope)
    : Type 0 where
  pub one_line : (e : EventEnvelope) (l : Text) → dump e ≡ ok l → OnOneLine l
  pub braces :
      (e : EventEnvelope) (l : Text) → dump e ≡ ok l → (m : Text) × (l ≡ 123 ∷ (m ++ 125 ∷ []))
  pub validated : (e : EventEnvelope) (l : Text) → dump e ≡ ok l → validate l ≡ ok e

rstrip-braced : (m : Text) → rstrip (m ++ 125 ∷ []) ≡ m ++ 125 ∷ []
unfolding rstrip is_space
rstrip-braced [] = refl
rstrip-braced (c ∷ m) = rw (rstrip-braced m) (rstrip_cons-braced c m)
  where
    rstrip_cons-braced : (c : ℕ) (m : Text) → rstrip_cons c (m ++ 125 ∷ []) ≡ c ∷ (m ++ 125 ∷ [])
    rstrip_cons-braced c [] = refl
    rstrip_cons-braced c (d ∷ m) = refl

strip-braced : (m : Text) → strip (123 ∷ (m ++ 125 ∷ [])) ≡ 123 ∷ (m ++ 125 ∷ [])
unfolding strip lstrip is_space
strip-braced m = rstrip-braced (123 ∷ m)

translate_line :
    (l rest : Text)
    → OnOneLine l
    → translate_newlines_from false (l ++ 10 ∷ rest) ≡ l ++ 10 ∷ translate_newlines_from false rest
unfolding translate_newlines_from
translate_line [] rest h = refl
translate_line (c ∷ l) rest (h, hs) = rw h.1 (ap (λ t. c ∷ t) (translate_line l rest hs))

split_line : (l rest : Text) → OnOneLine l → split_lines (l ++ 10 ∷ rest) ≡ l ∷ split_lines rest
unfolding split_lines
split_line [] rest h = refl
split_line (c ∷ l) rest (h, hs) = rw h.0 (ap (push c) (split_line l rest hs))

module _ (dump : EventEnvelope → Result Text) where
  -- The text of a file that holds these events.
  unfoldable pub text_of : List EventEnvelope → Text
  text_of [] = []
  text_of (e ∷ es) = line_of (dump e) ++ text_of es

  pub text_of-append :
      (es : List EventEnvelope) (e : EventEnvelope)
      → text_of (es ++ e ∷ []) ≡ text_of es ++ line_of (dump e)
  unfolding text_of
  text_of-append [] e = append-nil (line_of (dump e))
  text_of-append (x ∷ es) e =
      ap (λ t. line_of (dump x) ++ t) (text_of-append es e)
      ∙ sym (append_assoc (line_of (dump x)) (text_of es) (line_of (dump e)))

  abbrev pub AllDumped : List EventEnvelope → Type 0
  AllDumped = All (λ e. IsOk (dump e))

  dumped_line : (e : EventEnvelope) → IsOk (dump e) → (l : Text) × (dump e ≡ ok l)
  dumped_line e h = go (dump e) h
    where
      go : (r : Result Text) → IsOk r → (l : Text) × (r ≡ ok l)
      go (ok l) h = (l, refl)
      go (raised x) h = absurd h

  text_of-cons :
      (e : EventEnvelope) (es : List EventEnvelope) (l : Text)
      → dump e ≡ ok l
      → text_of (e ∷ es) ≡ l ++ 10 ∷ text_of es
  unfolding text_of
  text_of-cons e es l d = rw d (append_assoc l (10 ∷ []) (text_of es))

  module _ (validate : Text → Result EventEnvelope) (laws : IsJsonl dump validate) where
    translated :
        (es : List EventEnvelope) → AllDumped es → translate_newlines (text_of es) ≡ text_of es
    unfolding translate_newlines text_of
    translated [] h = refl
    translated (e ∷ es) h =
        let (l, d) = dumped_line e h.0 in
        ap (translate_newlines_from false) (text_of-cons e es l d)
        ∙ translate_line l (text_of es) (laws.one_line e l d)
        ∙ ap (λ t. l ++ 10 ∷ t) (translated es h.1)
        ∙ sym (text_of-cons e es l d)

    read_line :
        (e : EventEnvelope) (l : Text) (lines : List Text)
        → dump e ≡ ok l
        → read_lines validate (l ∷ lines) ≡ cons_result validate (ok e) (read_lines validate lines)
    unfolding read_lines
    read_line e l lines d =
        let (m, braced) = laws.braces e l d in
        rw (ap strip braced ∙ strip-braced m ∙ sym braced)
          (rw (laws.validated e l d) (rw (ap is_empty braced)))

    read_split :
        (es : List EventEnvelope)
        → AllDumped es
        → read_lines validate (split_lines (text_of es)) ≡ ok es
    unfolding read_lines split_lines text_of strip
    read_split [] h = refl
    read_split (e ∷ es) h =
        let (l, d) = dumped_line e h.0 in
        ap (λ t. read_lines validate (split_lines t)) (text_of-cons e es l d)
        ∙ ap (read_lines validate) (split_line l (text_of es) (laws.one_line e l d))
        ∙ read_line e l (split_lines (text_of es)) d
        ∙ ap (cons_result validate (ok e)) (read_split es h.1)

    -- The events come back in order, and no other.
    pub read_events-text_of :
        (es : List EventEnvelope) → AllDumped es → read_events validate (text_of es) ≡ ok es
    unfolding read_events
    read_events-text_of es h =
        ap (λ t. read_lines validate (split_lines t)) (translated es h) ∙ read_split es h
