-- ===== src/Client/Mock/Laws.antt =====
-- What a `ScriptedClient` answers to a sequence of calls.
use agentanvil.Prelude.{
  ℕ, zero, suc, ◌≤◌, ◌<◌, ◌≡◌, refl, sym, ◌∙◌, ap, ap₂, ◌⊎◌, inl, inr, true, false, none, some,
  List, [], ◌∷◌, arith, leb, length, get_elem?, get_elem?-some_of_lt, drop, if◌then◌else◌,
}
use agentanvil.Python.Action.{Result, ok, raised}
use agentanvil.Client.Base.{LlmResponse, Request}
use agentanvil.Client.Mock.{Scripted, exhausted, scripted_complete}
use agentanvil.Deterministic.Clock.{index, index_error}

-- The answers to these requests, one call after the other.
unfoldable pub calls : List Request → Scripted → List (Result LlmResponse)
calls [] c = []
calls (r ∷ rs) c = (scripted_complete r c).0 ∷ calls rs (scripted_complete r c).1

-- As many answers as there are requests: the scripted ones, then the exception.
unfoldable pub script : List Request → List LlmResponse → ℕ → List (Result LlmResponse)
script [] xs n = []
script (r ∷ rs) [] n = raised (exhausted n) ∷ script rs [] n
script (r ∷ rs) (x ∷ xs) n = ok x ∷ script rs xs n

drop_found {ℓ} :
    {A : Type ℓ} (n : ℕ) (xs : List A) (x : A)
    → get_elem? xs n ≡ some x
    → drop n xs ≡ x ∷ drop (suc n) xs
drop_found n [] x h = absurd (cc h)
drop_found zero (y ∷ xs) x h = ap (λ z. z ∷ xs) (cc h)
drop_found (suc n) (y ∷ xs) x h = drop_found n xs x h

drop_past {ℓ} : {A : Type ℓ} (n : ℕ) (xs : List A) → length xs ≤ n → drop n xs ≡ []
drop_past zero [] h = refl
drop_past zero (x ∷ xs) h = absurd (omega arith)
drop_past (suc n) [] h = refl
drop_past (suc n) (x ∷ xs) h = drop_past n xs (omega arith)

complete-left :
    (r : Request) (xs : List LlmResponse) (i : ℕ) (x : LlmResponse)
    → i < length xs
    → get_elem? xs i ≡ some x
    → scripted_complete r (record { responses = xs; idx = i })
      ≡ (ok x, record { responses = xs; idx = suc i })
unfolding scripted_complete
complete-left r xs i x h found =
    ap
      (λ b.
        if b
        then (raised (exhausted i), record { responses = xs; idx = i })
        else (index xs i, record { responses = xs; idx = suc i }))
      (not_yet (length xs) i h)
    ∙ ap
        (λ o. (
          elim o [ none ↦ raised index_error | some x ↦ ok x ],
          record { responses = xs; idx = suc i },
        ))
        found
  where
    not_yet : (n i : ℕ) → i < n → leb n i ≡ false
    not_yet n i h = ground arith

complete-done :
    (r : Request) (xs : List LlmResponse) (i : ℕ)
    → length xs ≤ i
    → scripted_complete r (record { responses = xs; idx = i })
      ≡ (raised (exhausted i), record { responses = xs; idx = i })
unfolding scripted_complete
complete-done r xs i h =
    ap
      (λ b.
        if b
        then (raised (exhausted i), record { responses = xs; idx = i })
        else (index xs i, record { responses = xs; idx = suc i }))
      (over (length xs) i h)
  where
    over : (n i : ℕ) → n ≤ i → leb n i ≡ true
    over n i h = ground arith

calls-from :
    (rs : List Request) (xs : List LlmResponse) (i : ℕ)
    → i ≤ length xs
    → calls rs (record { responses = xs; idx = i }) ≡ script rs (drop i xs) (length xs)
unfolding calls script
calls-from [] xs i h = refl
calls-from (r ∷ rs) xs i h = elim (left_or_done i (length xs) h) [
  | inl left ↦
      let (x, found) = get_elem?-some_of_lt i xs left in
      ap (λ o. o.0 ∷ calls rs o.1) (complete-left r xs i x left found)
      ∙ ap (λ rest. ok x ∷ rest) (calls-from rs xs (suc i) (omega arith))
      ∙ ap (λ ys. script (r ∷ rs) ys (length xs)) (sym (drop_found i xs x found))
  | inr done ↦
      ap (λ o. o.0 ∷ calls rs o.1) (complete-done r xs i (omega arith))
      ∙ ap₂ (λ n rest. raised (exhausted n) ∷ rest) done
          (calls-from rs xs i h
            ∙ ap (λ ys. script rs ys (length xs)) (drop_past i xs (omega arith)))
      ∙ ap (λ ys. script (r ∷ rs) ys (length xs)) (sym (drop_past i xs (omega arith)))
]
  where
    left_or_done : (i n : ℕ) → i ≤ n → (i < n) ⊎ (i ≡ n)
    left_or_done i n h = ground arith

-- Whatever is asked, a `ScriptedClient` answers with its responses in order, one for each call, and
-- raises `RuntimeError` at every call after that.
pub calls-script :
    (rs : List Request) (responses : List LlmResponse)
    → calls rs (record { responses = responses; idx = 0 }) ≡ script rs responses (length responses)
calls-script rs responses = calls-from rs responses 0 (omega arith)
