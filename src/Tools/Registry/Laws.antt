-- ===== src/Tools/Registry/Laws.antt =====
-- Which tools a task gets, and which of them a name stands for.
use agentanvil.Prelude.{
  ◌≢◌, ◌||◌, subst, ◌≡◌, refl, sym, ◌∙◌, ap, ap₂, ◌⊎◌, inl, inr, String, Bool, true, false, Option,
  none, some, List, [], ◌∷◌, ◌++◌, map, All, str_eq, eq_iff, if◌then◌else◌,
}
use agentanvil.Prelude.Int.{ℤ, pos}
use agentanvil.Config.{ToolSpec}
use agentanvil.Tools.Base.{ToolContext}
use agentanvil.Tools.Registry.{
  ToolClass, bash_tool, file_read_tool, file_write_tool, file_edit_tool, web_search_tool, name_of,
  classes, find_class, registry, Tool, or_60, build_tools, find_tool,
}

-- By the test of the name.
by_name :
    {A : Type 0} (s t : String) (x y : A)
    → ((s ≡ t) × ((if str_eq s t then x else y) ≡ x)) ⊎ ((if str_eq s t then x else y) ≡ y)
by_name s t x y = go (str_eq s t) refl
  where
    go :
        (b : Bool)
        → str_eq s t ≡ b
        → ((s ≡ t) × ((if b then x else y) ≡ x)) ⊎ ((if b then x else y) ≡ y)
    go true e = inl ((eq_iff s t).0 e, refl)
    go false e = inr refl

find_class-name :
    (cs : List ToolClass) (name : String) (c : ToolClass)
    → find_class name cs ≡ some c
    → name_of c ≡ name
unfolding find_class
find_class-name [] name c h = absurd (cc h)
find_class-name (d ∷ cs) name c h = elim (by_name (name_of d) name (some d) (find_class name cs)) [
  | inl (same, chosen) ↦ subst (λ o. named o ≡ name) (sym chosen ∙ h) same
  | inr passed ↦ find_class-name cs name c (sym passed ∙ h)
]
  where
    named : Option ToolClass → String
    named none = name
    named (some c) = name_of c

-- A class that is found has the name.
pub registry-name : (name : String) (c : ToolClass) → registry name ≡ some c → name_of c ≡ name
unfolding registry
registry-name name c h = find_class-name classes name c h

-- Every class is found by its name.
pub registry-name_of : (c : ToolClass) → registry (name_of c) ≡ some c
unfolding registry find_class name_of
registry-name_of bash_tool = refl
registry-name_of file_read_tool = refl
registry-name_of file_write_tool = refl
registry-name_of file_edit_tool = refl
registry-name_of web_search_tool = refl

module _ (O : Tool → Type 0) where
  -- What all tools of a list are, the tool that a name stands for is.
  pub find_tool-All :
      (ts : List Tool) (name : String) (t : Tool) → All O ts → find_tool name ts ≡ some t → O t
  unfolding find_tool
  find_tool-All [] name t h e = absurd (cc e)
  find_tool-All (u ∷ ts) name t (o, os) e =
      go (find_tool name ts) refl (λ t' e'. find_tool-All ts name t' os e') e
    where
      holds : Option Tool → Type 0
      holds none = Unit
      holds (some t) = O t

      go :
          (later : Option Tool)
          → find_tool name ts ≡ later
          → ((t' : Tool) → find_tool name ts ≡ some t' → O t')
          → elim later [
            | some later ↦ some later
            | none ↦ if str_eq (name_of u.cls) name then some u else none
          ]
            ≡ some t
          → O t
      go (some later) found rest e = subst holds e (rest later found)
      go none found rest e = elim (by_name (name_of u.cls) name (some u) none) [
        | inl (same, chosen) ↦ subst holds (sym chosen ∙ e) o
        | inr passed ↦ absurd (cc (sym passed ∙ e))
      ]

  module _ (ctx_factory : ℤ → ToolContext) where
    -- What every class of a specified name is with its context, all built tools are.
    pub build_tools-All :
        (specs : List ToolSpec)
        → All
            (λ sp.
              (c : ToolClass)
              → name_of c ≡ ToolSpec.name sp
              → O (record { cls = c; ctx = ctx_factory (or_60 (ToolSpec.timeout_seconds sp)) }))
            specs
        → All O (build_tools ctx_factory specs)
    unfolding build_tools
    build_tools-All [] h = tt
    build_tools-All (sp ∷ specs) (h, hs) = go (registry sp.name) refl (build_tools-All specs hs)
      where
        go :
            (o : Option ToolClass)
            → registry sp.name ≡ o
            → All O (build_tools ctx_factory specs)
            → All O (elim o [
              | none ↦ build_tools ctx_factory specs
              | some cls ↦
                  record { cls = cls; ctx = ctx_factory (or_60 sp.timeout_seconds) }
                  ∷ build_tools ctx_factory specs
            ])
        go none e rest = rest
        go (some c) e rest = (h c (registry-name sp.name c e), rest)

none_named :
    (name : String) (ys : List Tool)
    → All (λ u. name_of (Tool.cls u) ≢ name) ys
    → find_tool name ys ≡ none
unfolding find_tool
none_named name [] h = refl
none_named name (u ∷ ys) (ne, h) =
    rw (none_named name ys h) (not_chosen (by_name (name_of u.cls) name (some u) none))
  where
    not_chosen :
        ((name_of u.cls ≡ name) × ((if str_eq (name_of u.cls) name then some u else none) ≡ some u))
          ⊎ ((if str_eq (name_of u.cls) name then some u else none) ≡ none)
        → (if str_eq (name_of u.cls) name then some u else none) ≡ none
    not_chosen (inl (same, e)) = absurd (ne same)
    not_chosen (inr e) = e

-- A name stands for the last of the tools of that name, as in the dict that `run` builds.
pub find_tool-last :
    (xs ys : List Tool) (t : Tool)
    → All (λ u. name_of (Tool.cls u) ≢ name_of (Tool.cls t)) ys
    → find_tool (name_of t.cls) (xs ++ t ∷ ys) ≡ some t
unfolding find_tool
find_tool-last [] ys t h =
    rw (none_named (name_of t.cls) ys h)
      (ap (λ b. if b then some t else none) ((eq_iff (name_of t.cls) (name_of t.cls)).1 refl))
find_tool-last (x ∷ xs) ys t h = rw (find_tool-last xs ys t h) refl

-- The five names that the registry knows.
unfoldable pub is_known : String → Bool
is_known name =
    str_eq "bash" name
    || str_eq "file_read" name
    || str_eq "file_write" name
    || str_eq "file_edit" name
    || str_eq "web_search" name

-- A tool by its name and its context.
abbrev pub named : Tool → String × ToolContext
named t = (name_of t.cls, t.ctx)

pub registry-known :
    (name : String)
    → ((c : ToolClass) × (registry name ≡ some c) × (is_known name ≡ true))
      ⊎ ((registry name ≡ none) × (is_known name ≡ false))
unfolding registry find_class name_of is_known
registry-known name =
    by_tests (str_eq "bash" name) (str_eq "file_read" name) (str_eq "file_write" name)
      (str_eq "file_edit" name) (str_eq "web_search" name)
  where
    by_tests :
        (a b c d e : Bool)
        → ((k : ToolClass) × ((if a
                then some bash_tool
                else if b
                then some file_read_tool
                else if c
                then some file_write_tool
                else if d
                then some file_edit_tool
                else if e
                then some web_search_tool
                else none)
              ≡ some k)
            × ((a || b || c || d || e) ≡ true))
          ⊎ (((if a
                  then some bash_tool
                  else if b
                  then some file_read_tool
                  else if c
                  then some file_write_tool
                  else if d
                  then some file_edit_tool
                  else if e
                  then some web_search_tool
                  else none)
                ≡ none)
              × ((a || b || c || d || e) ≡ false))
    by_tests true b c d e = inl (bash_tool, refl, refl)
    by_tests false true c d e = inl (file_read_tool, refl, refl)
    by_tests false false true d e = inl (file_write_tool, refl, refl)
    by_tests false false false true e = inl (file_edit_tool, refl, refl)
    by_tests false false false false true = inl (web_search_tool, refl, refl)
    by_tests false false false false false = inr (refl, refl)

-- The seconds of a tool whose specification states these.
abbrev pub timeout_of : Option ℤ → ℤ
timeout_of none = pos 60
timeout_of (some seconds) = seconds

or_60-timeout_of : (stated : Option ℤ) → or_60 stated ≡ timeout_of stated
or_60-timeout_of none = refl
or_60-timeout_of (some seconds) = refl

module _ (ctx_factory : ℤ → ToolContext) where
  -- What a specification offers: the known names, in order, each with the timeout it
  -- states, be it 0 or negative, and with 60 seconds where it states none.
  unfoldable pub offered : List ToolSpec → List (String × ToolContext)
  offered [] = []
  offered (sp ∷ sps) =
      let rest = offered sps in
      if is_known sp.name
      then (sp.name, ctx_factory (timeout_of sp.timeout_seconds)) ∷ rest
      else rest

  -- The tools that are built, by name and context, are what the specification offers: unknown names
  -- are passed over, order and repetitions are kept, and a tool has the timeout that is stated for
  -- it, be it 0 or negative, or 60 seconds where none is stated.
  pub build_tools-offered :
      (specs : List ToolSpec) → map named (build_tools ctx_factory specs) ≡ offered specs
  unfolding build_tools offered
  build_tools-offered [] = refl
  build_tools-offered (sp ∷ specs) = by_case (registry-known sp.name) (build_tools-offered specs)
    where
      by_case :
          ((c : ToolClass) × (registry sp.name ≡ some c) × (is_known sp.name ≡ true))
            ⊎ ((registry sp.name ≡ none) × (is_known sp.name ≡ false))
          → map named (build_tools ctx_factory specs) ≡ offered specs
          → map named (build_tools ctx_factory (sp ∷ specs)) ≡ offered (sp ∷ specs)
      by_case (inl (c, e, known)) ih =
          rw (e, map)
            (rw (known, or_60-timeout_of sp.timeout_seconds)
              (ap₂ (λ n l. (n, ctx_factory (timeout_of sp.timeout_seconds)) ∷ l)
                (registry-name sp.name c e) ih))
      by_case (inr (e, unknown)) ih = rw (e, map) (rw unknown ih)
