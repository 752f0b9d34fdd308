-- ===== src/Python/Utf8/Laws.antt =====
-- Decoding what was encoded.
pub mod Cut
use agentanvil.Prelude.{
  ℕ, zero, suc, ◌+◌, ◌-◌, ◌*◌, ◌/◌, ◌%◌, ◌≤◌, ◌<◌, ◌≡◌, ◌∙◌, ap, subst, ◌⊎◌, true, some, [], ◌∷◌,
  ◌++◌, arith, length, length-append, Option-cases, inl, inr,
}
use agentanvil.Python.Text.{Text}
use agentanvil.Python.Utf8.{
  Bytes, encode_char, encode, char, scan, scan_last, scan_third, scan_three, scan_four, is_second,
  decode_from, decode, decode_replace_from, decode_replace,
}

scan_last-continuation :
    (high low : ℕ) (r : Bytes)
    → low < 64
    → scan_last high ((0x80 + low) ∷ r) ≡ char (high * 64 + low) r
unfolding scan_last
scan_last-continuation high low r h = ground arith

scan_third-continuation :
    (high mid low : ℕ) (r : Bytes)
    → mid < 64
    → low < 64
    → scan_third high ((0x80 + mid) ∷ (0x80 + low) ∷ r) ≡ char ((high * 64 + mid) * 64 + low) r
unfolding scan_third
scan_third-continuation high mid low r h k =
    ground (arith, scan_last-continuation (high * 64 + mid) low r k)

scan_one : (c : ℕ) (r : Bytes) → c < 0x80 → scan (c ∷ r) ≡ char c r
unfolding scan
scan_one c r h = ground arith

-- A leading byte selects the scanner of its length.
lead_two : (a : ℕ) (r : Bytes) → 0xc2 ≤ a → a < 0xe0 → scan (a ∷ r) ≡ scan_last (a - 0xc0) r
unfolding scan
lead_two a r h k = ground arith

lead_three : (a : ℕ) (r : Bytes) → 0xe0 ≤ a → a < 0xf0 → scan (a ∷ r) ≡ scan_three a r
unfolding scan
lead_three a r h k = ground arith

lead_four : (a : ℕ) (r : Bytes) → 0xf0 ≤ a → a < 0xf5 → scan (a ∷ r) ≡ scan_four a r
unfolding scan
lead_four a r h k = ground arith

scan_two :
    (c : ℕ) (r : Bytes)
    → 0x80 ≤ c
    → c < 0x800
    → scan ((0xc0 + c / 64) ∷ (0x80 + c % 64) ∷ r) ≡ char c r
scan_two c r h k =
    lead_two (0xc0 + c / 64) ((0x80 + c % 64) ∷ r) (omega arith) (omega arith)
    ∙ scan_last-continuation (0xc0 + c / 64 - 0xc0) (c % 64) r (omega arith)
    ∙ ap (λ n. char n r) (omega arith)

three_second :
    (c : ℕ)
    → 0x800 ≤ c
    → c < 0x10000
    → (c < 0xd800) ⊎ (0xe000 ≤ c)
    → is_second (0xe0 + c / 4096) (0x80 + c / 64 % 64) ≡ true
unfolding is_second
three_second c h k (inl below) = ground arith
three_second c h k (inr above) = ground arith

four_second :
    (c : ℕ)
    → 0x10000 ≤ c
    → c < 0x110000
    → is_second (0xf0 + c / 262144) (0x80 + c / 4096 % 64) ≡ true
unfolding is_second
four_second c h k = ground arith

scan_three-second :
    (a b : ℕ) (r : Bytes)
    → is_second a b ≡ true
    → scan_three a (b ∷ r) ≡ scan_last ((a - 0xe0) * 64 + (b - 0x80)) r
unfolding scan_three
scan_three-second a b r h = rw h

scan_four-second :
    (a b : ℕ) (r : Bytes)
    → is_second a b ≡ true
    → scan_four a (b ∷ r) ≡ scan_third ((a - 0xf0) * 64 + (b - 0x80)) r
unfolding scan_four
scan_four-second a b r h = rw h

scan_three_bytes :
    (c : ℕ) (r : Bytes)
    → 0x800 ≤ c
    → c < 0x10000
    → (c < 0xd800) ⊎ (0xe000 ≤ c)
    → scan ((0xe0 + c / 4096) ∷ (0x80 + c / 64 % 64) ∷ (0x80 + c % 64) ∷ r) ≡ char c r
scan_three_bytes c r h k s =
    lead_three (0xe0 + c / 4096) _ (omega arith) (omega arith)
    ∙ scan_three-second (0xe0 + c / 4096) (0x80 + c / 64 % 64) _ (three_second c h k s)
    ∙ scan_last-continuation _ (c % 64) r (omega arith)
    ∙ ap (λ n. char n r) (omega arith)

scan_four_bytes :
    (c : ℕ) (r : Bytes)
    → 0x10000 ≤ c
    → c < 0x110000
    → scan
        ((0xf0 + c / 262144) ∷ (0x80 + c / 4096 % 64) ∷ (0x80 + c / 64 % 64) ∷ (0x80 + c % 64) ∷ r)
      ≡ char c r
scan_four_bytes c r h k =
    lead_four (0xf0 + c / 262144) _ (omega arith) (omega arith)
    ∙ scan_four-second (0xf0 + c / 262144) (0x80 + c / 4096 % 64) _ (four_second c h k)
    ∙ scan_third-continuation _ (c / 64 % 64) (c % 64) r (omega arith) (omega arith)
    ∙ ap (λ n. char n r) (omega arith)

-- The bytes of a character are scanned as that character.
pub scan-encode_char : (c : ℕ) (b r : Bytes) → encode_char c ≡ some b → scan (b ++ r) ≡ char c r
unfolding encode_char
scan-encode_char c b r h =
    ground (arith, scan_one c r, scan_two c r, scan_three_bytes c r, scan_four_bytes c r)

encode_char-length : (c : ℕ) (b : Bytes) → encode_char c ≡ some b → 0 < length b
unfolding encode_char
encode_char-length c b h = ground arith

-- An encoded text is the bytes of its first character and an encoded rest.
encode-cons :
    (c : ℕ) (s : Text) {bs : Bytes}
    → encode (c ∷ s) ≡ some bs
    → (b : Bytes) × (r : Bytes) × (encode_char c ≡ some b) × (encode s ≡ some r) × (bs ≡ b ++ r)
unfolding encode
encode-cons c s {bs} h = elim (Option-cases (encode_char c)) [
  | inl bad ↦ absurd (ground arith)
  | inr (b, e) ↦ elim (Option-cases (encode s)) [
    | inl bad ↦ absurd (ground arith)
    | inr (r, e') ↦ (b, r, e, e', ground arith)
  ]
]

-- A character takes a byte or more.
fuel_of_parts :
    (fuel c : ℕ) (b r : Bytes)
    → encode_char c ≡ some b
    → length (b ++ r) < suc fuel
    → length r < fuel
fuel_of_parts fuel c b r e long = omega (arith, length-append b r, encode_char-length c b e)

decode_cons :
    (fuel c : ℕ) (s : Text) {bs : Bytes} (b r : Bytes)
    → encode_char c ≡ some b
    → bs ≡ b ++ r
    → length bs < suc fuel
    → (length r < fuel → decode_from fuel r ≡ some s)
    → decode_from (suc fuel) bs ≡ some (c ∷ s)
unfolding decode_from
decode_cons fuel c s b r e split long rest = rw split (
    rw (scan-encode_char c b r e, decode_from)
      (rw (rest (fuel_of_parts fuel c b r e (subst (λ t. length t < suc fuel) split long)))))

decode_replace_cons :
    (fuel c : ℕ) (s : Text) {bs : Bytes} (b r : Bytes)
    → encode_char c ≡ some b
    → bs ≡ b ++ r
    → length bs < suc fuel
    → (length r < fuel → decode_replace_from fuel r ≡ s)
    → decode_replace_from (suc fuel) bs ≡ c ∷ s
unfolding decode_replace_from
decode_replace_cons fuel c s b r e split long rest = rw split (
    rw (scan-encode_char c b r e, decode_replace_from)
      (rw (rest (fuel_of_parts fuel c b r e (subst (λ t. length t < suc fuel) split long)))))

decode_from-encode :
    (fuel : ℕ) (s : Text) {bs : Bytes}
    → encode s ≡ some bs
    → length bs < fuel
    → decode_from fuel bs ≡ some s
unfolding decode_from encode scan
decode_from-encode zero s h k = absurd (omega arith)
decode_from-encode (suc fuel) [] {bs} h k = ground arith
decode_from-encode (suc fuel) (c ∷ s) {bs} h k =
    let (b, r, e, e', split) = encode-cons c s h in
    decode_cons fuel c s b r e split k (decode_from-encode fuel s e')

decode_replace_from-encode :
    (fuel : ℕ) (s : Text) {bs : Bytes}
    → encode s ≡ some bs
    → length bs < fuel
    → decode_replace_from fuel bs ≡ s
unfolding decode_replace_from encode scan
decode_replace_from-encode zero s h k = absurd (omega arith)
decode_replace_from-encode (suc fuel) [] {bs} h k = ground arith
decode_replace_from-encode (suc fuel) (c ∷ s) {bs} h k =
    let (b, r, e, e', split) = encode-cons c s h in
    decode_replace_cons fuel c s b r e split k (decode_replace_from-encode fuel s e')

-- The bytes of a text decode to that text, in strict mode.
pub decode-encode : (s : Text) {bs : Bytes} → encode s ≡ some bs → decode bs ≡ some s
unfolding decode
decode-encode s {bs} h = decode_from-encode (suc (length bs)) s h (omega arith)

-- The bytes of a text decode to that text, in replacing mode.
pub decode_replace-encode : (s : Text) {bs : Bytes} → encode s ≡ some bs → decode_replace bs ≡ s
unfolding decode_replace
decode_replace-encode s {bs} h = decode_replace_from-encode (suc (length bs)) s h (omega arith)
