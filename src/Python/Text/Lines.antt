-- ===== src/Python/Text/Lines.antt =====
-- Splitting a text into lines and joining lines: `split("\n")`, `"\n".join`, `endswith("\n")`,
-- `splitlines`, and the newline translation of files opened in text mode.
pub mod Laws
use agentanvil.Prelude.{
  ℕ, ◌≡◌, refl, Bool, false, ◌&&◌, ◌||◌, List, [], ◌∷◌, ◌++◌, leb, ◌==◌, if◌then◌else◌,
}
use agentanvil.Python.Text.{Text}

-- A character in front of the first line.
abbrev pub push : ℕ → List Text → List Text
push c [] = (c ∷ []) ∷ []
push c (l ∷ ls) = (c ∷ l) ∷ ls

-- `s.split("\n")`
unfoldable pub split_lines : Text → List Text
split_lines [] = [] ∷ []
split_lines (c ∷ s) = let rest = split_lines s in if c == 10 then [] ∷ rest else push c rest

-- `"\n".join(ls)`
unfoldable pub join_lines : List Text → Text
join_lines [] = []
join_lines (l ∷ []) = l
join_lines (l ∷ m ∷ ls) = l ++ 10 ∷ join_lines (m ∷ ls)

-- `s.endswith("\n")`
unfoldable pub ends_with_newline : Text → Bool
ends_with_newline [] = false
ends_with_newline (c ∷ []) = c == 10
ends_with_newline (c ∷ d ∷ s) = ends_with_newline (d ∷ s)

-- `ls[:-1]`
unfoldable pub drop_last {ℓ} : {A : Type ℓ} → List A → List A
drop_last [] = []
drop_last (x ∷ []) = []
drop_last (x ∷ y ∷ xs) = x ∷ drop_last (y ∷ xs)

-- Text mode reads `\r\n` and `\r` as `\n`; the flag says whether a `\r` was just read.
unfoldable pub translate_newlines_from : Bool → Text → Text
translate_newlines_from cr [] = []
translate_newlines_from cr (c ∷ s) =
    let rest = translate_newlines_from (c == 13) s in
    if cr && c == 10 then rest else (if c == 13 then 10 else c) ∷ rest

unfoldable pub translate_newlines : Text → Text
unfolding translate_newlines_from
translate_newlines s = translate_newlines_from false s

-- The characters at which `splitlines` ends a line.
is_line_break : ℕ → Bool
is_line_break c =
    (leb 10 c && leb c 13) || (leb 28 c && leb c 30) || (c == 133) || (c == 8232) || (c == 8233)

starts_with_newline : Text → Bool
starts_with_newline [] = false
starts_with_newline (c ∷ s) = c == 10

-- The `\n` behind a `\r` ends the same line.
unfoldable pub splitlines : Text → List Text
unfolding is_line_break starts_with_newline
splitlines [] = []
splitlines (c ∷ s) =
    let rest = splitlines s in
    if is_line_break c
    then (if c == 13 && starts_with_newline s then rest else [] ∷ rest)
    else push c rest

splitlines_mixed : splitlines (97 ∷ 13 ∷ 10 ∷ 10 ∷ 98 ∷ 13 ∷ []) ≡ (97 ∷ []) ∷ [] ∷ (98 ∷ []) ∷ []
unfolding splitlines
splitlines_mixed = refl

split_lines_trailing : split_lines (97 ∷ 10 ∷ []) ≡ (97 ∷ []) ∷ [] ∷ []
unfolding split_lines
split_lines_trailing = refl

translate_mixed : translate_newlines (13 ∷ 10 ∷ 13 ∷ 10 ∷ 13 ∷ []) ≡ 10 ∷ 10 ∷ 10 ∷ []
unfolding translate_newlines
translate_mixed = refl
