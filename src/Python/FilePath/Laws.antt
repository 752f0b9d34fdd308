-- ===== src/Python/FilePath/Laws.antt =====
-- `relative_to` and the paths under a path.
use agentanvil.Prelude.{
  ℕ, ◌≡◌, refl, sym, ◌∙◌, ap, ap₂, Bool, true, false, ◌&&◌, Option, none, some, List, [], ◌∷◌, ◌++◌,
  arith, ◌==◌, if◌then◌else◌, Bool-cases, inl, inr,
}
use agentanvil.Python.Text.{Text}
use agentanvil.Python.FilePath.{FilePath, text_eq, strip_prefix, relative_to}

-- `path` is `root` or below it.
abbrev pub Under : FilePath → FilePath → Type 0
Under root path =
    (path.slashes ≡ root.slashes) × ((rest : List Text) × (path.parts ≡ root.parts ++ rest))

==-eq : (m n : ℕ) → (m == n) ≡ true → m ≡ n
==-eq m n h = ground arith

&&-left : (a b : Bool) → (a && b) ≡ true → a ≡ true
&&-left true b h = refl
&&-left false b h = absurd (cc h)

&&-right : (a b : Bool) → (a && b) ≡ true → b ≡ true
&&-right true b h = h
&&-right false b h = absurd (cc h)

text_eq-eq : (s t : Text) → text_eq s t ≡ true → s ≡ t
unfolding text_eq
text_eq-eq [] [] h = refl
text_eq-eq [] (d ∷ t) h = absurd (cc h)
text_eq-eq (c ∷ s) [] h = absurd (cc h)
text_eq-eq (c ∷ s) (d ∷ t) h =
    ap₂ (λ c s. c ∷ s) (==-eq c d (&&-left _ _ h)) (text_eq-eq s t (&&-right (c == d) _ h))

strip_prefix-append : (qs ps rest : List Text) → strip_prefix qs ps ≡ some rest → ps ≡ qs ++ rest
unfolding strip_prefix
strip_prefix-append [] ps rest h = cc h
strip_prefix-append (q ∷ qs) [] rest h = absurd (cc h)
strip_prefix-append (q ∷ qs) (p ∷ ps) rest h = elim (Bool-cases (text_eq q p)) [
  | inl e ↦
      ap₂ (λ p ps. p ∷ ps) (sym (text_eq-eq q p e))
        (strip_prefix-append qs ps rest
          (sym (ap (λ b. if b then strip_prefix qs ps else none) e) ∙ h))
  | inr e ↦ absurd (cc (sym (ap (λ b. if b then strip_prefix qs ps else none) e) ∙ h))
]

pub relative_to-Under :
    (path root rel : FilePath) → relative_to path root ≡ some rel → Under root path
unfolding relative_to
relative_to-Under path root rel h =
    go (path.slashes == root.slashes) refl (strip_prefix root.parts path.parts) refl h
  where
    go :
        (b : Bool)
        → (path.slashes == root.slashes) ≡ b
        → (o : Option (List Text)) → strip_prefix root.parts path.parts ≡ o
        → (if b
            then elim o [ none ↦ none | some ps ↦ some (record { slashes = 0; parts = ps }) ]
            else none)
          ≡ some rel
        → Under root path
    go true e (some ps) d h =
        (==-eq path.slashes root.slashes e, (ps, strip_prefix-append root.parts path.parts ps d))
    go true e none d h = absurd (cc h)
    go false e o d h = absurd (cc h)
