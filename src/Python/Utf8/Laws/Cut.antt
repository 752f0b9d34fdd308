-- ===== src/Python/Utf8/Laws/Cut.antt =====
-- Decoding what is left of an encoded text when its bytes are cut.
use agentanvil.Prelude.{
  ℕ, zero, suc, ◌+◌, ◌-◌, ◌*◌, ◌/◌, ◌%◌, ◌≤◌, ◌<◌, ◌≡◌, refl, sym, ◌∙◌, ap, subst, ◌⊎◌, some, List,
  [], ◌∷◌, ◌++◌, arith, length, take, length-append, length-take, inl, inr,
}
use agentanvil.Python.Text.{Text}
use agentanvil.Python.Utf8.{
  Bytes, encode_char, encode, bad, scan, scan_last, scan_third, scan_three, scan_four,
  is_continuation, decode_replace_from, decode_replace,
}
use agentanvil.Python.Utf8.Laws.{
  lead_two, lead_three, lead_four, three_second, four_second, scan_three-second, scan_four-second,
  scan-encode_char, encode-cons, encode_char-length,
}

two_cut :
    (c n : ℕ)
    → 0x80 ≤ c
    → c < 0x800
    → 0 < n
    → n < 2
    → scan (take n ((0xc0 + c / 64) ∷ (0x80 + c % 64) ∷ [])) ≡ bad []
unfolding scan_last
two_cut c zero h k p q = absurd (omega arith)
two_cut c (suc zero) h k p q = lead_two (0xc0 + c / 64) [] (omega arith) (omega arith)
two_cut c (suc (suc n)) h k p q = absurd (omega arith)

three_cut :
    (c n : ℕ)
    → 0x800 ≤ c
    → c < 0x10000
    → (c < 0xd800) ⊎ (0xe000 ≤ c)
    → 0 < n
    → n < 3
    → scan (take n ((0xe0 + c / 4096) ∷ (0x80 + c / 64 % 64) ∷ (0x80 + c % 64) ∷ [])) ≡ bad []
unfolding scan_last scan_three
three_cut c zero h k s p q = absurd (omega arith)
three_cut c (suc zero) h k s p q = lead_three (0xe0 + c / 4096) [] (omega arith) (omega arith)
three_cut c (suc (suc zero)) h k s p q =
    lead_three (0xe0 + c / 4096) _ (omega arith) (omega arith)
    ∙ scan_three-second (0xe0 + c / 4096) (0x80 + c / 64 % 64) [] (three_second c h k s)
three_cut c (suc (suc (suc n))) h k s p q = absurd (omega arith)

four_cut :
    (c n : ℕ)
    → 0x10000 ≤ c
    → c < 0x110000
    → 0 < n
    → n < 4
    → scan (
        take n (
          (0xf0 + c / 262144)
          ∷ (0x80 + c / 4096 % 64)
          ∷ (0x80 + c / 64 % 64)
          ∷ (0x80 + c % 64)
          ∷ []))
      ≡ bad []
unfolding scan_last scan_third scan_four is_continuation
four_cut c zero h k p q = absurd (omega arith)
four_cut c (suc zero) h k p q = lead_four (0xf0 + c / 262144) [] (omega arith) (omega arith)
four_cut c (suc (suc zero)) h k p q =
    lead_four (0xf0 + c / 262144) _ (omega arith) (omega arith)
    ∙ scan_four-second (0xf0 + c / 262144) (0x80 + c / 4096 % 64) [] (four_second c h k)
four_cut c (suc (suc (suc zero))) h k p q =
    lead_four (0xf0 + c / 262144) _ (omega arith) (omega arith)
    ∙ scan_four-second (0xf0 + c / 262144) (0x80 + c / 4096 % 64) ((0x80 + c / 64 % 64) ∷ [])
        (four_second c h k)
    ∙ third ((0xf0 + c / 262144 - 0xf0) * 64 + (0x80 + c / 4096 % 64 - 0x80)) (c / 64 % 64)
        (omega arith)
  where
    third : (high mid : ℕ) → mid < 64 → scan_third high ((0x80 + mid) ∷ []) ≡ bad []
    third high mid h = ground arith
four_cut c (suc (suc (suc (suc n)))) h k p q = absurd (omega arith)

-- Some of a character's bytes, but not all, are one invalid part.
scan_cut :
    (c n : ℕ) (b : Bytes) → encode_char c ≡ some b → 0 < n → n < length b → scan (take n b) ≡ bad []
unfolding encode_char
scan_cut c n b h p q = ground (arith, two_cut c n, three_cut c n, four_cut c n)

take-append_le {ℓ} :
    {A : Type ℓ} (n : ℕ) (xs ys : List A)
    → length xs ≤ n
    → take n (xs ++ ys) ≡ xs ++ take (n - length xs) ys
take-append_le n [] ys h = ap (λ m. take m ys) (omega arith)
take-append_le zero (x ∷ xs) ys h = absurd (omega arith)
take-append_le (suc n) (x ∷ xs) ys h =
    ap (λ zs. x ∷ zs) (take-append_le n xs ys (omega arith))
    ∙ ap (λ m. x ∷ (xs ++ take m ys)) (omega arith)

take-append_lt {ℓ} :
    {A : Type ℓ} (n : ℕ) (xs ys : List A) → n < length xs → take n (xs ++ ys) ≡ take n xs
take-append_lt n [] ys h = absurd (omega arith)
take-append_lt zero (x ∷ xs) ys h = refl
take-append_lt (suc n) (x ∷ xs) ys h = ap (λ zs. x ∷ zs) (take-append_lt n xs ys (omega arith))

lt_or_le : (m n : ℕ) → (m < n) ⊎ (n ≤ m)
lt_or_le m n = ground arith

-- The text starts with `t`, or with `t` less a replacement character at its end.
pub record IsCut (s t : Text) : Type 0 where
  pub kept : Text
  pub lost : Text
  pub split : s ≡ kept ++ lost
  pub shown : (t ≡ kept) ⊎ (t ≡ kept ++ 0xfffd ∷ [])

nothing_kept : (s t : Text) → (t ≡ []) ⊎ (t ≡ 0xfffd ∷ []) → IsCut s t
nothing_kept s t h = record { kept = []; lost = s; split = refl; shown = h }

one_more_kept : (c : ℕ) (s t : Text) → IsCut s t → IsCut (c ∷ s) (c ∷ t)
one_more_kept c s t h = record {
  kept = c ∷ h.kept;
  lost = h.lost;
  split = ap (λ s. c ∷ s) h.split;
  shown = longer h.shown;
}
  where
    longer :
        (t ≡ h.kept) ⊎ (t ≡ h.kept ++ 0xfffd ∷ [])
        → (c ∷ t ≡ c ∷ h.kept) ⊎ (c ∷ t ≡ c ∷ h.kept ++ 0xfffd ∷ [])
    longer (inl e) = inl (ap (λ t. c ∷ t) e)
    longer (inr e) = inr (ap (λ t. c ∷ t) e)

-- No bytes decode to nothing.
decode_empty : (fuel : ℕ) → decode_replace_from fuel [] ≡ []
unfolding decode_replace_from scan
decode_empty zero = refl
decode_empty (suc fuel) = refl

no_bytes : {bs : Bytes} → encode [] ≡ some bs → bs ≡ []
unfolding encode
no_bytes h = cc

-- The cut is in the first character.
cut_inside :
    (fuel n c : ℕ) (b r : Bytes)
    → encode_char c ≡ some b
    → 0 < n
    → n < length b
    → decode_replace_from (suc fuel) (take n (b ++ r)) ≡ 0xfffd ∷ []
unfolding decode_replace_from
cut_inside fuel n c b r e p q =
    rw (take-append_lt n b r q)
      (rw (scan_cut c n b e p q, decode_replace_from) (ap (λ t. 0xfffd ∷ t) (decode_empty fuel)))

-- The cut is behind the first character.
cut_behind :
    (fuel n c : ℕ) (b r : Bytes)
    → encode_char c ≡ some b
    → length b ≤ n
    → decode_replace_from (suc fuel) (take n (b ++ r))
      ≡ c ∷ decode_replace_from fuel (take (n - length b) r)
unfolding decode_replace_from
cut_behind fuel n c b r e h =
    rw (take-append_le n b r h)
      (rw (scan-encode_char c b (take (n - length b) r) e, decode_replace_from) refl)

fuel_left :
    (n : ℕ) (b r : Bytes) (fuel : ℕ)
    → length b ≤ suc n
    → length (take (suc n) (b ++ r)) < suc fuel
    → 0 < length b
    → length (take (suc n - length b) r) < fuel
fuel_left n b r fuel h k p =
    omega (arith, length-take (suc n) (b ++ r), length-append b r, length-take (suc n - length b) r)

decode_from-IsCut :
    (fuel n : ℕ) (s : Text) (bs : Bytes)
    → encode s ≡ some bs
    → length (take n bs) < fuel
    → IsCut s (decode_replace_from fuel (take n bs))
unfolding decode_replace_from scan
decode_from-IsCut zero n s bs h k = absurd (omega arith)
decode_from-IsCut (suc fuel) zero s bs h k = nothing_kept s _ (inl (decode_empty (suc fuel)))
decode_from-IsCut (suc fuel) (suc n) [] bs h k =
    nothing_kept [] _
      (inl (ap (λ bs. decode_replace_from (suc fuel) (take (suc n) bs)) (no_bytes h)))
decode_from-IsCut (suc fuel) (suc n) (c ∷ s) bs h k =
    let (b, r, e, e', split) = encode-cons c s h in
    let cut = ap (λ bs. decode_replace_from (suc fuel) (take (suc n) bs)) split in
    elim (lt_or_le (suc n) (length b)) [
      | inl inside ↦
          nothing_kept (c ∷ s) _ (inr (cut ∙ cut_inside fuel (suc n) c b r e (omega arith) inside))
      | inr behind ↦ subst (IsCut (c ∷ s)) (sym (cut ∙ cut_behind fuel (suc n) c b r e behind)) (
          one_more_kept c s _ (
            decode_from-IsCut fuel (suc n - length b) s r e' (
              fuel_left n b r fuel behind
                (subst (λ bs. length (take (suc n) bs) < suc fuel) split k)
                (encode_char-length c b e))))
    ]

-- Decoding the first `n` bytes of an encoded text, in replacing mode, gives the first characters of
-- the text, with one replacement character behind them if the cut is inside a character.
pub decode_replace-take :
    (n : ℕ) (s : Text) (bs : Bytes) → encode s ≡ some bs → IsCut s (decode_replace (take n bs))
unfolding decode_replace
decode_replace-take n s bs h = decode_from-IsCut (suc (length (take n bs))) n s bs h (omega arith)
