-- ===== src/Tools/FileEdit/Laws.antt =====
-- What `file_edit` of tools/file_edit.py makes of a text.
use agentanvil.Prelude.{
  ℕ, suc, ◌+◌, ◌-◌, ◌≤◌, ◌≡◌, refl, sym, ◌∙◌, append-nil, zero, ap₂, ap, Bool, true, false, not,
  ◌&&◌, List, [], ◌∷◌, ◌++◌, arith, ltb, All, All-append, length, take, drop, min, if◌then◌else◌,
  ◌⊎◌, inl, inr,
}
use agentanvil.Python.Text.{Text}
use agentanvil.Python.Text.Lines.{split_lines, join_lines, ends_with_newline, drop_last}
use agentanvil.Python.Text.Lines.Laws.{
  IsLine, split_lines-All, drop_last-All, take-All, drop-All, split_lines-join_lines,
  split_lines-join_newline, drop_last-snoc, ends_with_newline-snoc, ends_full,
  ends_with_newline-join_lines,
}
use agentanvil.Tools.FileEdit.{content_lines, new_lines, splice, edited_text}

content_lines-All : (t : Text) → All IsLine (content_lines t)
unfolding content_lines
content_lines-All t = go (ends_with_newline t)
  where
    go : (b : Bool) → All IsLine (if b then drop_last (split_lines t) else split_lines t)
    go true = drop_last-All IsLine _ (split_lines-All t)
    go false = split_lines-All t

new_lines-All : (t : Text) → All IsLine (new_lines t)
unfolding new_lines
new_lines-All [] = tt
new_lines-All (c ∷ t) = split_lines-All (c ∷ t)

splice-All :
    (lines : List Text) (start end : ℕ) (new : List Text)
    → All IsLine lines
    → All IsLine new
    → All IsLine (splice lines start end new)
unfolding splice
splice-All lines start end new h k = go (ltb (length lines) start)
  where
    go :
        (b : Bool)
        → All IsLine (
            if b
            then lines ++ new
            else take (start - 1) lines ++ (new ++ drop (min end (length lines)) lines))
    go true = All-append IsLine lines new h k
    go false =
        All-append IsLine (take (start - 1) lines) _ (take-All IsLine (start - 1) lines h)
          (All-append IsLine new _ k (drop-All IsLine (min end (length lines)) lines h))

-- Lines that end full are the content lines of their text, with a newline at the end or without.
full_content :
    (ls : List Text) (newline : Bool)
    → All IsLine ls
    → ends_full ls ≡ true
    → let t = join_lines ls in
      let s = if newline && not (ends_with_newline t) then t ++ 10 ∷ [] else t in
      (content_lines s ≡ ls) × (ends_with_newline s ≡ newline)
unfolding content_lines ends_full
full_content [] newline h e = absurd (cc e)
full_content (l ∷ ls) true h e =
    let none : ends_with_newline (join_lines (l ∷ ls)) ≡ false =
      ends_with_newline-join_lines (l ∷ ls) h e in
    let t = join_lines (l ∷ ls) in
    let ends = ends_with_newline-snoc t in
    let shape : (if not (ends_with_newline t) then t ++ 10 ∷ [] else t) ≡ t ++ 10 ∷ [] =
      ap (λ b. if not b then t ++ 10 ∷ [] else t) none in
    (
      ap content_lines shape
          ∙ ap
              (λ b.
                if b then drop_last (split_lines (t ++ 10 ∷ [])) else split_lines (t ++ 10 ∷ []))
              ends
          ∙ ap drop_last (split_lines-join_newline l ls h)
          ∙ drop_last-snoc (l ∷ ls) [],
      ap ends_with_newline shape ∙ ends,
    )
full_content (l ∷ ls) false h e =
    let none : ends_with_newline (join_lines (l ∷ ls)) ≡ false =
      ends_with_newline-join_lines (l ∷ ls) h e in
    (
      ap
            (λ b.
              if b
              then drop_last (split_lines (join_lines (l ∷ ls)))
              else split_lines (join_lines (l ∷ ls)))
            none
          ∙ split_lines-join_lines l ls h,
      none,
    )

take_all {ℓ} : {A : Type ℓ} (n : ℕ) (xs : List A) → length xs ≤ n → take n xs ≡ xs
take_all zero [] h = refl
take_all zero (x ∷ xs) h = absurd (omega arith)
take_all (suc n) [] h = refl
take_all (suc n) (x ∷ xs) h = ap (λ ys. x ∷ ys) (take_all n xs (omega arith))

drop_all {ℓ} : {A : Type ℓ} (n : ℕ) (xs : List A) → length xs ≤ n → drop n xs ≡ []
drop_all zero [] h = refl
drop_all zero (x ∷ xs) h = absurd (omega arith)
drop_all (suc n) [] h = refl
drop_all (suc n) (x ∷ xs) h = drop_all n xs (omega arith)

drop-min {ℓ} : {A : Type ℓ} (n : ℕ) (xs : List A) → drop (min n (length xs)) xs ≡ drop n xs
drop-min n xs = elim (le_or_le n (length xs)) [
  | inl below ↦ ap (λ m. drop m xs) (omega arith)
  | inr above ↦ drop_all (min n (length xs)) xs (omega arith) ∙ sym (drop_all n xs above)
]
  where
    le_or_le : (m n : ℕ) → (m ≤ n) ⊎ (n ≤ m)
    le_or_le m n = ground arith

-- Both branches of the edit are one replacement.
splice-replaces :
    (ls : List Text) (start end : ℕ) (new : List Text)
    → start ≤ end
    → start ≤ length ls + 1
    → splice ls start end new ≡ take (start - 1) ls ++ (new ++ drop end ls)
unfolding splice
splice-replaces ls start end new h k = go (ltb (length ls) start) refl
  where
    go :
        (b : Bool)
        → ltb (length ls) start ≡ b
        → (if b then ls ++ new else take (start - 1) ls ++ (new ++ drop (min end (length ls)) ls))
          ≡ take (start - 1) ls ++ (new ++ drop end ls)
    go true e =
        ap₂ (λ xs ys. xs ++ ys) (sym (take_all (start - 1) ls (past e)))
          (sym (append-nil new) ∙ ap (λ ys. new ++ ys) (sym (drop_all end ls (behind e))))
      where
        past : ltb (length ls) start ≡ true → length ls ≤ start - 1
        past e = ground arith

        behind : ltb (length ls) start ≡ true → length ls ≤ end
        behind e = ground arith
    go false e = ap (λ ys. take (start - 1) ls ++ (new ++ ys)) (drop-min end ls)

-- The lines before `start`, the new lines, and the lines behind `end`.
abbrev pub replaced : Text → Text → ℕ → ℕ → List Text
replaced original new_content start end =
    take (start - 1) (content_lines original)
    ++ (new_lines new_content ++ drop end (content_lines original))

-- For a range that `file_edit` accepts (`start <= end`, `start` at most one past the last line): if
-- the resulting lines are not none and the last of them is not empty, the edited text has exactly
-- the lines before `start`, the new lines, and the lines behind `end`, and it ends with a newline
-- if and only if the original text does.
pub content_lines-edited_text :
    (original new_content : Text) (start end : ℕ)
    → start ≤ end
    → start ≤ length (content_lines original) + 1
    → ends_full (replaced original new_content start end) ≡ true
    → (content_lines (edited_text original start end new_content)
        ≡ replaced original new_content start end)
      × (ends_with_newline (edited_text original start end new_content)
          ≡ ends_with_newline original)
unfolding edited_text
content_lines-edited_text original new_content start end h k full =
    let ls = content_lines original in
    let same = splice-replaces ls start end (new_lines new_content) h k in
    let out =
      full_content (splice ls start end (new_lines new_content)) (ends_with_newline original)
        (splice-All ls start end (new_lines new_content) (content_lines-All original)
          (new_lines-All new_content))
        (ap ends_full same ∙ full) in
    (out.0 ∙ same, out.1)
