-- ===== src/Python/FilePath.antt =====
-- `pathlib.PurePosixPath`: joining, `relative_to` and `str`.
pub mod Laws
use agentanvil.Prelude.{
  ℕ, suc, String, ◌≡◌, refl, Bool, true, false, ◌&&◌, Option, none, some, List, [], ◌∷◌, ◌++◌, ◌==◌,
  if◌then◌else◌,
}
use agentanvil.Python.Text.{Text, lit, is_empty}
use agentanvil.Python.Text.Lines.{push, drop_last}

-- `slashes` is 0 for a relative path, 1 for the root `/` and 2 for the root `//`.
pub record FilePath : Type 0 where
  pub slashes : ℕ
  pub parts : List Text

-- The parts between slashes, the empty ones included.
split_slashes : Text → List Text
split_slashes [] = [] ∷ []
split_slashes (c ∷ s) = let rest = split_slashes s in if c == 47 then [] ∷ rest else push c rest

is_dot : Text → Bool
is_dot (c ∷ []) = c == 46
is_dot _ = false

-- Empty parts and `.` are dropped, `..` is kept.
significant : List Text → List Text
significant [] = []
significant (p ∷ ps) =
    let rest = significant ps in if is_empty p then rest else if is_dot p then rest else p ∷ rest

count_slashes : Text → ℕ
count_slashes [] = 0
count_slashes (c ∷ s) = let rest = count_slashes s in if c == 47 then suc rest else 0

-- More than two leading slashes are one.
root_of : ℕ → ℕ
root_of n = if n == 0 then 0 else if n == 2 then 2 else 1

-- `Path(s)`
unfoldable pub parse : Text → FilePath
unfolding split_slashes is_dot significant count_slashes root_of
parse s = record { slashes = root_of (count_slashes s); parts = significant (split_slashes s) }

-- `base / s`: a path with a root replaces the base.
unfoldable pub join : FilePath → Text → FilePath
unfolding parse
join base s =
    let p = parse s in if p.slashes == 0 then record base { parts = base.parts ++ p.parts } else p

unfoldable pub text_eq : Text → Text → Bool
text_eq [] [] = true
text_eq (c ∷ s) (d ∷ t) = c == d && text_eq s t
text_eq _ _ = false

-- What follows the prefix, if it is one.
unfoldable pub strip_prefix : List Text → List Text → Option (List Text)
unfolding text_eq
strip_prefix [] ps = some ps
strip_prefix (q ∷ qs) [] = none
strip_prefix (q ∷ qs) (p ∷ ps) = let rest = strip_prefix qs ps in if text_eq q p then rest else none

-- `path.relative_to(other)`; `none` is a `ValueError`.
unfoldable pub relative_to : FilePath → FilePath → Option FilePath
unfolding strip_prefix
relative_to path other =
    if path.slashes == other.slashes
    then elim (strip_prefix other.parts path.parts) [
      | none ↦ none
      | some ps ↦ some (record { slashes = 0; parts = ps })
    ]
    else none

join_slashes : List Text → Text
join_slashes [] = []
join_slashes (p ∷ []) = p
join_slashes (p ∷ q ∷ ps) = p ++ 47 ∷ join_slashes (q ∷ ps)

root_text : ℕ → Text
root_text n = if n == 0 then [] else if n == 2 then 47 ∷ 47 ∷ [] else 47 ∷ []

-- `str(path)`
unfoldable pub show : FilePath → Text
unfolding join_slashes root_text
show p =
    if p.slashes == 0 && is_empty p.parts
    then 46 ∷ []
    else root_text p.slashes ++ join_slashes p.parts

-- `path.parent`
unfoldable pub parent : FilePath → FilePath
unfolding drop_last
parent p = record p { parts = drop_last p.parts }

join_shown : show (join (parse (lit "/ws")) (lit "./a//b/../c")) ≡ lit "/ws/a/b/../c"
unfolding join show lit
join_shown = refl

join_absolute : show (join (parse (lit "/ws")) (lit "//etc/x")) ≡ lit "//etc/x"
unfolding join show lit
join_absolute = refl

relative_inside :
    relative_to (parse (lit "/ws/a/b")) (parse (lit "/ws"))
    ≡ some (record { slashes = 0; parts = lit "a" ∷ lit "b" ∷ [] })
unfolding relative_to parse lit
relative_inside = refl

relative_outside : relative_to (parse (lit "/wsx/a")) (parse (lit "/ws")) ≡ none
unfolding relative_to parse lit
relative_outside = refl
