-- ===== src/Tools/FileRead/Laws.antt =====
-- What `file_read` of tools/file_read.py shows of the lines of a file.
use agentanvil.Prelude.{
  ℕ, zero, suc, ◌+◌, ◌-◌, ◌≤◌, ◌≡◌, refl, sym, ◌∙◌, ap, ap₂, Bool, true, false, not, ◌&&◌, some,
  List, [], ◌∷◌, ◌++◌, arith, length, take, drop, min, if◌then◌else◌, get_elem?,
  get_elem?-some_of_lt,
}
use agentanvil.Prelude.Int.{ℤ, pos, pos_part, ltb_ℤ}
use agentanvil.Python.Text.{Text, lit, show_ℕ, is_empty}
use agentanvil.Python.Text.Lines.{join_lines}
use agentanvil.Python.Json
use agentanvil.Python.Json.{Fields, as_int, PyInt, py_int}
use agentanvil.Python.Action.{ok}
use agentanvil.Deterministic.Clock.{index}
use agentanvil.Tools.Base.{success, refusal}
use agentanvil.Tools.FileRead.{
  cons_result, numbered_line, format_lines, joined, clamp_start, clamp_end, read_range, get_default,
  with_range, read_lines,
}

-- The lines with their numbers, from `i` on.
unfoldable pub numbered : ℕ → List Text → List Text
numbered i [] = []
numbered i (l ∷ ls) = (show_ℕ i ++ lit ": " ++ l) ∷ numbered (suc i) ls

drop-get_elem? {ℓ} :
    {A : Type ℓ} (n : ℕ) (xs : List A) (x : A)
    → get_elem? xs n ≡ some x
    → drop n xs ≡ x ∷ drop (suc n) xs
drop-get_elem? n [] x h = absurd (cc h)
drop-get_elem? zero (y ∷ xs) x h = ap (λ z. z ∷ xs) (cc h)
drop-get_elem? (suc n) (y ∷ xs) x h = drop-get_elem? n xs x h

index-found :
    (lines : List Text) (i j : ℕ) (l : Text)
    → j ≡ i
    → get_elem? lines i ≡ some l
    → index lines j ≡ ok l
index-found lines i j l h found = rw h (rw (found, index) refl)

-- Within the lines, no index is out of range.
format_lines-numbered :
    (lines : List Text) (i count : ℕ)
    → i + count ≤ length lines
    → format_lines lines (suc i) count ≡ ok (numbered (suc i) (take count (drop i lines)))
unfolding format_lines numbered
format_lines-numbered lines i zero h = refl
format_lines-numbered lines i (suc count) h =
    let (l, found) = get_elem?-some_of_lt i lines (omega arith) in
    ap₂ cons_result
      (ap (numbered_line (suc i)) (index-found lines i (suc i - 1) l (omega arith) found))
      (format_lines-numbered lines (suc i) count (omega arith))
    ∙ ap (λ ls. ok (numbered (suc i) (take (suc count) ls))) (sym (drop-get_elem? i lines l found))

ltb_ℤ-pos : (x y : ℤ) (m n : ℕ) → x ≡ pos m → y ≡ pos n → n ≤ m → ltb_ℤ x y ≡ false
ltb_ℤ-pos x y m n h k le = rw h (rw k (ground arith))

clamp_start-value :
    (start : PyInt) (s : ℕ) → start.value ≡ pos s → 1 ≤ s → PyInt.value (clamp_start start) ≡ pos s
clamp_start-value start s h p = go (ltb_ℤ (pos 1) start.value) refl
  where
    go :
        (b : Bool)
        → ltb_ℤ (pos 1) start.value ≡ b
        → PyInt.value (if b then start else py_int (pos 1)) ≡ pos s
    go true e = h
    go false e = ap pos (one (sym (ap (ltb_ℤ (pos 1)) h) ∙ e))
      where
        one : ltb_ℤ (pos 1) (pos s) ≡ false → 1 ≡ s
        one e = ground arith

clamp_end-value :
    (n : ℕ) (end : PyInt) (e : ℕ)
    → end.value ≡ pos e
    → PyInt.value (clamp_end n end) ≡ pos (min e n)
clamp_end-value n end e h = go (ltb_ℤ end.value (pos n)) refl
  where
    go :
        (b : Bool)
        → ltb_ℤ end.value (pos n) ≡ b
        → PyInt.value (if b then end else py_int (pos n)) ≡ pos (min e n)
    go true t = h ∙ ap pos (below (sym (ap (λ z. ltb_ℤ z (pos n)) h) ∙ t))
      where
        below : ltb_ℤ (pos e) (pos n) ≡ true → e ≡ min e n
        below t = ground arith
    go false t = ap pos (above (sym (ap (λ z. ltb_ℤ z (pos n)) h) ∙ t))
      where
        above : ltb_ℤ (pos e) (pos n) ≡ false → n ≡ min e n
        above t = ground arith

read_range-numbered :
    (lines : List Text) (start end : PyInt) (s e : ℕ)
    → start.value ≡ pos (suc s)
    → end.value ≡ pos e
    → suc s ≤ e
    → e ≤ length lines
    → read_range lines start end
      ≡ ok (success (join_lines (numbered (suc s) (take (e - s) (drop s lines)))))
unfolding read_range
read_range-numbered lines start end s e h k le bound =
    ap
      (λ b.
        if b && not (is_empty lines)
        then ok (
            refusal (
              lit "file_read: empty range start_line="
              ++ start.shown
              ++ lit " end_line="
              ++ end.shown))
        else joined (
            format_lines lines (pos_part start.value)
              (pos_part end.value + 1 - pos_part start.value)))
      (ltb_ℤ-pos end.value start.value e (suc s) k h le)
    ∙ ap₂ (λ a c. joined (format_lines lines a c)) (ap pos_part h)
        (ap₂ (λ a b. pos_part b + 1 - pos_part a) h k ∙ omega arith)
    ∙ ap joined (format_lines-numbered lines s (e - s) (omega arith))

-- When the arguments give a `start_line` from 1 to the number of lines and an `end_line` that is
-- not before it, where a missing argument counts as 1 and as the number of lines: `file_read` shows
-- the lines from the one to the other, or to the last line, each with its number.
pub read_lines-numbered :
    (args : Fields) (lines : List Text) (start end : PyInt) (s e : ℕ)
    → as_int (get_default (Json.get "start_line" args) 1) ≡ some start
    → as_int (get_default (Json.get "end_line" args) (length lines)) ≡ some end
    → start.value ≡ pos (suc s)
    → end.value ≡ pos e
    → suc s ≤ e
    → suc s ≤ length lines
    → read_lines args lines
      ≡ ok
          (success (join_lines (numbered (suc s) (take (min e (length lines) - s) (drop s lines)))))
unfolding read_lines
read_lines-numbered args lines start end s e a b h k le bound =
    ap₂ (with_range lines) a b
    ∙ read_range-numbered lines (clamp_start start) (clamp_end (length lines) end) s
        (min e (length lines)) (clamp_start-value start (suc s) h (omega arith))
        (clamp_end-value (length lines) end e k) (omega arith) (omega arith)
