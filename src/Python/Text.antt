-- ===== src/Python/Text.antt =====
-- Python's `str` as the list of its code points, with the methods that the SDK calls.
pub mod Lines
use Prim.Native.Char.{code}
use agentanvil.Prelude.{
  ℕ, zero, suc, ◌+◌, ◌-◌, ◌/◌, ◌%◌, ◌<◌, String, ◌≡◌, refl, Bool, true, false, ◌&&◌, ◌||◌, List, [],
  ◌∷◌, ◌++◌, ltb, leb, ◌==◌, if◌then◌else◌,
}
use agentanvil.Prelude.Int.{ℤ, pos, negsuc}

abbrev pub Text : Type 0
Text = List ℕ

-- The code points of a literal or an identifier.
unfoldable pub lit : String → Text
lit String.[] = []
lit (String.◌∷◌ c s) = code c ∷ lit s

-- `str(n)`; every round drops a digit, so `n` rounds and one more are enough.
show_digits : ℕ → ℕ → Text
show_digits zero n = []
show_digits (suc fuel) n =
    let front = show_digits fuel (n / 10) in
    if ltb n 10 then (48 + n) ∷ [] else front ++ (48 + n % 10) ∷ []

unfoldable pub show_ℕ : ℕ → Text
unfolding show_digits
show_ℕ n = show_digits (suc n) n

unfoldable pub show_ℤ : ℤ → Text
unfolding show_ℕ
show_ℤ (pos n) = show_ℕ n
show_ℤ (negsuc n) = 45 ∷ show_ℕ (suc n)

-- `str.isspace` of one character.
unfoldable pub is_space : ℕ → Bool
is_space c =
    (leb 9 c && leb c 13)
    || (leb 28 c && leb c 32)
    || (c == 133)
    || (c == 160)
    || (c == 5760)
    || (leb 8192 c && leb c 8202)
    || (c == 8232)
    || (c == 8233)
    || (c == 8239)
    || (c == 8287)
    || (c == 12288)

unfoldable pub lstrip : Text → Text
unfolding is_space
lstrip [] = []
lstrip (c ∷ s) = let rest = lstrip s in if is_space c then rest else c ∷ s

-- The step of `rstrip` from the right.
unfoldable pub rstrip_cons : ℕ → Text → Text
unfolding is_space
rstrip_cons c [] = if is_space c then [] else c ∷ []
rstrip_cons c (d ∷ s) = c ∷ d ∷ s

unfoldable pub rstrip : Text → Text
unfolding rstrip_cons
rstrip [] = []
rstrip (c ∷ s) = rstrip_cons c (rstrip s)

unfoldable pub strip : Text → Text
unfolding lstrip rstrip
strip s = rstrip (lstrip s)

-- `len(s.split())`; the flag says whether the character before belongs to a word.
count_words_from : Bool → Text → ℕ
count_words_from inside [] = 0
count_words_from inside (c ∷ s) =
    let space = is_space c in
    let rest = count_words_from (if space then false else true) s in
    if space then rest else if inside then rest else suc rest

unfoldable pub count_words : Text → ℕ
unfolding count_words_from is_space
count_words s = count_words_from false s

abbrev pub is_empty {ℓ} : {A : Type ℓ} → List A → Bool
is_empty [] = true
is_empty (c ∷ s) = false

show_1024 : show_ℕ 1024 ≡ 49 ∷ 48 ∷ 50 ∷ 52 ∷ []
unfolding show_ℕ
show_1024 = refl

strip_blanks : strip (32 ∷ 97 ∷ 32 ∷ 98 ∷ 10 ∷ []) ≡ 97 ∷ 32 ∷ 98 ∷ []
unfolding strip
strip_blanks = refl

two_words : count_words (32 ∷ 97 ∷ 97 ∷ 32 ∷ 10 ∷ 98 ∷ []) ≡ 2
unfolding count_words
two_words = refl
