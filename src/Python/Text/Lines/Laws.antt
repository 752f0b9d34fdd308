-- ===== src/Python/Text/Lines/Laws.antt =====
-- Splitting at newlines and joining.
use agentanvil.Prelude.{
  ℕ, zero, suc, ◌≡◌, ◌≢◌, refl, ◌∙◌, ap, Bool, true, false, not, List, [], ◌∷◌, ◌++◌, All, take,
  drop, append_assoc, ◌==◌, if◌then◌else◌,
}
use agentanvil.Python.Text.{Text, is_empty}
use agentanvil.Python.Text.Lines.{push, split_lines, join_lines, ends_with_newline, drop_last}

-- A text without a newline.
abbrev pub IsLine : Text → Type 0
IsLine = All (λ c. (c == 10) ≡ false)

push-All : (c : ℕ) (ls : List Text) → (c == 10) ≡ false → All IsLine ls → All IsLine (push c ls)
push-All c [] h hs = ((h, tt), tt)
push-All c (l ∷ ls) h hs = ((h, hs.0), hs.1)

pub split_lines-All : (s : Text) → All IsLine (split_lines s)
unfolding split_lines
split_lines-All [] = (tt, tt)
split_lines-All (c ∷ s) = go (c == 10) refl (split_lines-All s)
  where
    go :
        (b : Bool)
        → (c == 10) ≡ b
        → All IsLine (split_lines s)
        → All IsLine (if b then [] ∷ split_lines s else push c (split_lines s))
    go true e h = (tt, h)
    go false e h = push-All c (split_lines s) e h

module _ {ℓ κ} {A : Type ℓ} (P : A → Type κ) where
  pub drop_last-All : (xs : List A) → All P xs → All P (drop_last xs)
  unfolding drop_last
  drop_last-All [] h = tt
  drop_last-All (x ∷ []) h = tt
  drop_last-All (x ∷ y ∷ xs) h = (h.0, drop_last-All (y ∷ xs) h.1)

  pub take-All : (n : ℕ) (xs : List A) → All P xs → All P (take n xs)
  take-All zero xs h = tt
  take-All (suc n) [] h = tt
  take-All (suc n) (x ∷ xs) h = (h.0, take-All n xs h.1)

  pub drop-All : (n : ℕ) (xs : List A) → All P xs → All P (drop n xs)
  drop-All zero xs h = h
  drop-All (suc n) [] h = tt
  drop-All (suc n) (x ∷ xs) h = drop-All n xs h.1

split_one : (l : Text) → IsLine l → split_lines l ≡ l ∷ []
unfolding split_lines
split_one [] h = refl
split_one (c ∷ l) h = rw h.0 (ap (push c) (split_one l h.1))

split_first : (l rest : Text) → IsLine l → split_lines (l ++ 10 ∷ rest) ≡ l ∷ split_lines rest
unfolding split_lines
split_first [] rest h = refl
split_first (c ∷ l) rest h = rw h.0 (ap (push c) (split_first l rest h.1))

-- Lines come back from the text that joins them.
pub split_lines-join_lines :
    (l : Text) (ls : List Text) → All IsLine (l ∷ ls) → split_lines (join_lines (l ∷ ls)) ≡ l ∷ ls
unfolding join_lines
split_lines-join_lines l [] h = split_one l h.0
split_lines-join_lines l (m ∷ ls) h =
    split_first l (join_lines (m ∷ ls)) h.0 ∙ ap (λ ls. l ∷ ls) (split_lines-join_lines m ls h.1)

-- With a newline at the end there is an empty piece more.
pub split_lines-join_newline :
    (l : Text) (ls : List Text)
    → All IsLine (l ∷ ls)
    → split_lines (join_lines (l ∷ ls) ++ 10 ∷ []) ≡ (l ∷ ls) ++ [] ∷ []
unfolding join_lines split_lines
split_lines-join_newline l [] h = split_first l [] h.0
split_lines-join_newline l (m ∷ ls) h =
    ap split_lines (append_assoc l (10 ∷ join_lines (m ∷ ls)) (10 ∷ []))
    ∙ split_first l (join_lines (m ∷ ls) ++ 10 ∷ []) h.0
    ∙ ap (λ ls. l ∷ ls) (split_lines-join_newline m ls h.1)

pub drop_last-snoc {ℓ} : {A : Type ℓ} (xs : List A) (x : A) → drop_last (xs ++ x ∷ []) ≡ xs
unfolding drop_last
drop_last-snoc [] x = refl
drop_last-snoc (y ∷ []) x = refl
drop_last-snoc (y ∷ z ∷ xs) x = ap (λ xs. y ∷ xs) (drop_last-snoc (z ∷ xs) x)

pub ends_with_newline-snoc : (s : Text) → ends_with_newline (s ++ 10 ∷ []) ≡ true
unfolding ends_with_newline
ends_with_newline-snoc [] = refl
ends_with_newline-snoc (c ∷ []) = refl
ends_with_newline-snoc (c ∷ d ∷ s) = ends_with_newline-snoc (d ∷ s)

-- There is a last line, and it is not empty.
unfoldable pub ends_full : List Text → Bool
ends_full [] = false
ends_full (l ∷ []) = not (is_empty l)
ends_full (l ∷ m ∷ ls) = ends_full (m ∷ ls)

line_end : (l : Text) → IsLine l → ends_with_newline l ≡ false
unfolding ends_with_newline
line_end [] h = refl
line_end (c ∷ []) h = h.0
line_end (c ∷ d ∷ s) h = line_end (d ∷ s) h.1

ends_behind :
    (l : Text) (c : ℕ) (s : Text) → ends_with_newline (l ++ 10 ∷ c ∷ s) ≡ ends_with_newline (c ∷ s)
unfolding ends_with_newline
ends_behind [] c s = refl
ends_behind (d ∷ []) c s = refl
ends_behind (d ∷ e ∷ l) c s = ends_behind (e ∷ l) c s

full_join : (ls : List Text) → ends_full ls ≡ true → join_lines ls ≢ []
unfolding join_lines ends_full
full_join [] e d = cc e
full_join ([] ∷ []) e d = cc e
full_join ((c ∷ l) ∷ []) e d = cc d
full_join ([] ∷ m ∷ ls) e d = cc d
full_join ((c ∷ l) ∷ m ∷ ls) e d = cc d

-- The text that joins lines ends with a newline only if the last line is empty.
pub ends_with_newline-join_lines :
    (ls : List Text)
    → All IsLine ls
    → ends_full ls ≡ true
    → ends_with_newline (join_lines ls) ≡ false
unfolding join_lines ends_full
ends_with_newline-join_lines [] h e = absurd (cc e)
ends_with_newline-join_lines (l ∷ []) h e = line_end l h.0
ends_with_newline-join_lines (l ∷ m ∷ ls) h e =
    go (join_lines (m ∷ ls)) refl (ends_with_newline-join_lines (m ∷ ls) h.1 e)
  where
    go :
        (t : Text)
        → join_lines (m ∷ ls) ≡ t
        → ends_with_newline t ≡ false
        → ends_with_newline (l ++ 10 ∷ t) ≡ false
    go [] d r = absurd (full_join (m ∷ ls) e d)
    go (c ∷ t) d r = ends_behind l c t ∙ r
