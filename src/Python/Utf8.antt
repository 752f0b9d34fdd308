-- ===== src/Python/Utf8.antt =====
-- `str.encode("utf-8")`, and `bytes.decode("utf-8")` with errors="strict" and errors="replace".
pub mod Laws
use agentanvil.Prelude.{
  ℕ, zero, suc, ◌+◌, ◌-◌, ◌*◌, ◌/◌, ◌%◌, Bool, ◌&&◌, Option, none, some, List, [], ◌∷◌, ◌++◌, ltb,
  leb, ◌==◌, if◌then◌else◌, length,
}
use agentanvil.Python.Text.{Text}

abbrev pub Bytes : Type 0
Bytes = List ℕ

-- The bytes of a code point; surrogates have none.
unfoldable pub encode_char : ℕ → Option Bytes
encode_char c =
    if ltb c 0x80
    then some (c ∷ [])
    else if ltb c 0x800
    then some ((0xc0 + c / 64) ∷ (0x80 + c % 64) ∷ [])
    else if leb 0xd800 c && ltb c 0xe000
    then none
    else if ltb c 0x10000
    then some ((0xe0 + c / 4096) ∷ (0x80 + c / 64 % 64) ∷ (0x80 + c % 64) ∷ [])
    else if ltb c 0x110000
    then some
        ((0xf0 + c / 262144) ∷ (0x80 + c / 4096 % 64) ∷ (0x80 + c / 64 % 64) ∷ (0x80 + c % 64) ∷ [])
    else none

append_encoded : Option Bytes → Option Bytes → Option Bytes
append_encoded (some b) (some bs) = some (b ++ bs)
append_encoded _ _ = none

-- `none` is a `UnicodeEncodeError`.
unfoldable pub encode : Text → Option Bytes
unfolding append_encoded
encode [] = some []
encode (c ∷ s) = append_encoded (encode_char c) (encode s)

-- What stands first in a byte string: a character, or an invalid part that is replaced as one.
pub data Scan : Type 0 where
  end : Scan
  char : ℕ → Bytes → Scan
  bad : Bytes → Scan

is_continuation : ℕ → Bool
is_continuation b = leb 0x80 b && leb b 0xbf

-- The second bytes that may follow `a`: no overlong forms, no surrogates, nothing past 0x10ffff.
is_second : ℕ → ℕ → Bool
is_second a b =
    leb (if a == 0xe0 then 0xa0 else if a == 0xf0 then 0x90 else 0x80) b
    && leb b (if a == 0xed then 0x9f else if a == 0xf4 then 0x8f else 0xbf)

scan_last : ℕ → Bytes → Scan
unfolding is_continuation
scan_last high [] = bad []
scan_last high (b ∷ r) = if is_continuation b then char (high * 64 + (b - 0x80)) r else bad (b ∷ r)

scan_third : ℕ → Bytes → Scan
unfolding scan_last
scan_third high [] = bad []
scan_third high (b ∷ r) =
    if is_continuation b then scan_last (high * 64 + (b - 0x80)) r else bad (b ∷ r)

scan_three : ℕ → Bytes → Scan
unfolding is_second scan_last
scan_three a [] = bad []
scan_three a (b ∷ r) =
    if is_second a b then scan_last ((a - 0xe0) * 64 + (b - 0x80)) r else bad (b ∷ r)

scan_four : ℕ → Bytes → Scan
unfolding is_second scan_third
scan_four a [] = bad []
scan_four a (b ∷ r) =
    if is_second a b then scan_third ((a - 0xf0) * 64 + (b - 0x80)) r else bad (b ∷ r)

unfoldable pub scan : Bytes → Scan
unfolding scan_last scan_three scan_four
scan [] = end
scan (a ∷ r) =
    if ltb a 0x80
    then char a r
    else if ltb a 0xc2
    then bad r
    else if ltb a 0xe0
    then scan_last (a - 0xc0) r
    else if ltb a 0xf0
    then scan_three a r
    else if ltb a 0xf5
    then scan_four a r
    else bad r

-- Every round takes a byte or more, so the number of bytes and one more is enough fuel.
unfoldable pub decode_from : ℕ → Bytes → Option Text
decode_from zero bs = none
decode_from (suc fuel) bs = elim (scan bs) [
  | end ↦ some []
  | char c r ↦ elim (decode_from fuel r) [ none ↦ none | some s ↦ some (c ∷ s) ]
  | bad r ↦ none
]

-- `none` is a `UnicodeDecodeError`.
unfoldable pub decode : Bytes → Option Text
unfolding decode_from scan
decode bs = decode_from (suc (length bs)) bs

unfoldable pub decode_replace_from : ℕ → Bytes → Text
decode_replace_from zero bs = []
decode_replace_from (suc fuel) bs = elim (scan bs) [
  | end ↦ []
  | char c r ↦ c ∷ decode_replace_from fuel r
  | bad r ↦ 0xfffd ∷ decode_replace_from fuel r
]

unfoldable pub decode_replace : Bytes → Text
unfolding decode_replace_from scan
decode_replace bs = decode_replace_from (suc (length bs)) bs
