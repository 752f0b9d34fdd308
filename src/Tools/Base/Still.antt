-- ===== src/Tools/Base/Still.antt =====
-- Steps of the tools from a known sandbox: questions, changes of the machine, and the event of a
-- file that was written.
use agentanvil.Prelude.{
  arith, str_eq, Option-cases, ℕ, ◌≡◌, refl, sym, ◌∙◌, ap, subst, inl, inr, String, Bool, true,
  false, none, some, ◌∷◌, [], ◌++◌, length, if◌then◌else◌,
}
use agentanvil.Python.Text.{Text}
use agentanvil.Python.Utf8.{Bytes, encode}
use agentanvil.Python.Action.{Result, ok, raised, Action, pure}
use agentanvil.Python.Action.Rules.{After, Triple, Triple-bind}
use agentanvil.Python.FilePath.{FilePath, join, relative_to}
use agentanvil.Events.Schema.{EventEnvelope, file_mutation, mutation, FileMutation}
use agentanvil.Events.Writer.{EventWriter, emit}
use agentanvil.Events.Writer.Laws.{Emitted, Unwritten, emit-cases}
use agentanvil.Platform.{Platform}
use agentanvil.Tools.Base.{
  ToolContext, Sandbox, on_machine, on_events, ask, encoded, shown_under, sha256_bytes,
  emit_file_mutation, within, resolve_inside,
}

module _ (P : Platform) where
  -- A question leaves the sandbox alone and is answered by its machine.
  pub ask-Still :
      {A : Type 0} (b : Sandbox P) (q : P.Machine → Result A)
      → Triple (λ x. x ≡ b) (ask P q) (λ a x. (q b.machine ≡ ok a) × (x ≡ b)) (λ x. Unit)
  unfolding ask
  ask-Still {A} b q = record { at = λ x h. go x (q x.machine) refl h }
    where
      go :
          (x : Sandbox P) (r : Result A)
          → q x.machine ≡ r
          → x ≡ b
          → After (λ a x. (q b.machine ≡ ok a) × (x ≡ b)) (λ x. Unit) (r, x)
      go x (ok a) e h = (ap (λ (y : Sandbox P). q y.machine) (sym h) ∙ e, h)
      go x (raised y) e h = tt

  -- A change of the machine.
  pub machine-Still :
      {A : Type 0} (b : Sandbox P) (m : Action P.Machine A)
      → Triple
          (λ x. x ≡ b)
          (on_machine P m)
          (λ a x. ((m b.machine).0 ≡ ok a) × (x ≡ record b { machine = (m b.machine).1 }))
          (λ x. Unit)
  unfolding on_machine
  machine-Still {A} b m = record {
    at = λ x h.
        go x (m x.machine).0 (ap (λ (y : Sandbox P). (m y.machine).0) (sym h))
          (ap (λ (y : Sandbox P). record y { machine = (m y.machine).1 }) h);
  }
    where
      go :
          (x : Sandbox P) (r : Result A)
          → (m b.machine).0 ≡ r
          → record x { machine = (m x.machine).1 } ≡ record b { machine = (m b.machine).1 }
          → After {A = A}
              (λ a x. ((m b.machine).0 ≡ ok a) × (x ≡ record b { machine = (m b.machine).1 }))
              (λ x. Unit)
              (r, record x { machine = (m x.machine).1 })
      go x (ok a) e h = (e, h)
      go x (raised y) e h = tt

  pub encoded-some :
      (content : Text) (bs : Bytes) → encoded P content ≡ ok bs → encode content ≡ some bs
  unfolding encoded
  encoded-some content bs h = elim (Option-cases (encode content)) [
    | inl none_ ↦ absurd (ground arith)
    | inr (found, e) ↦ ground arith
  ]

  pub same_bool : {a b : Bool} → ◌≡◌ {A = Result Bool} (ok a) (ok b) → a ≡ b
  same_bool e = cc

  -- The event of a write.
  pub record Told (b : Sandbox P) (operation : String) (before : ℕ) (bs : Bytes) (t : Sandbox P)
      : Type 0 where
    pub machine : t.machine ≡ b.machine
    pub event : EventEnvelope
    pub told : t.events.written ≡ b.events.written ++ event ∷ []
    pub change : FileMutation
    pub payload : event.payload ≡ mutation change
    pub named : change.operation ≡ operation
    pub size_before : change.size_before ≡ before
    pub size_after : change.size_after ≡ length bs
    pub hash_after : change.hash_after ≡ sha256_bytes P bs

  module _ (ctx : ToolContext) where
    -- The data of that event.
    change_at : FilePath → String → ℕ → Bytes → FileMutation
    change_at target operation before bs = record {
      path = shown_under P target (relative_to target ctx.workspace);
      operation = operation;
      size_before = before;
      size_after = length bs;
      hash_after = if str_eq (operation) "delete" then "" else sha256_bytes P bs;
    }

    pub emit-Told :
        (b : Sandbox P) (target : FilePath) (operation : String) (before : ℕ) (bs : Bytes)
        → str_eq operation "delete" ≡ false
        → Triple
            (λ x. x ≡ b)
            (emit_file_mutation P target ctx.workspace (operation) before (length bs) bs)
            (λ e. Told b operation before bs)
            (λ x. Unit)
    unfolding emit_file_mutation on_events change_at
    emit-Told b target operation before bs kept = record {
      at = λ x h.
          go x h
            (emit P.dump file_mutation (some (mutation (change_at target operation before bs)))
              x.events)
            (emit-cases P.dump file_mutation
              (some (mutation (change_at target operation before bs))) x.events);
    }
      where
        go :
            (x : Sandbox P)
            → x ≡ b
            → (o : Result EventEnvelope × EventWriter)
            → After
                (Emitted P.dump file_mutation
                  (some (mutation (change_at target operation before bs)))
                  x.events)
                (Unwritten x.events)
                o
            → After
                (λ (e : EventEnvelope). Told b operation before bs)
                (λ x. Unit)
                (o.0, record x { events = o.1 })
        go x h (ok e, w) d = record {
          machine = ap (λ (y : Sandbox P). y.machine) h;
          event = e;
          told = d.written ∙ ap (λ (y : Sandbox P). y.events.written ++ e ∷ []) h;
          change = change_at target operation before bs;
          payload = d.e_payload;
          named = refl;
          size_before = refl;
          size_after = refl;
          hash_after = ap (λ b. if b then "" else sha256_bytes P bs) kept;
        }
        go x h (raised y, w) d = tt

    -- The path was resolved to this target, and it lies in the workspace.
    abbrev pub Resolved : Sandbox P → Text → FilePath → Type 0
    Resolved s path_arg t =
        (P.resolve (join ctx.workspace path_arg) s.machine ≡ ok t)
        × (within P t (P.resolve ctx.workspace s.machine) ≡ ok true)

    -- The target, if the path does not escape.
    pub resolve_inside-Still :
        (s : Sandbox P) (path_arg : Text)
        → Triple
            (λ x. x ≡ s)
            (resolve_inside P ctx path_arg)
            (λ o x. ((t : FilePath) → o ≡ some t → Resolved s path_arg t) × (x ≡ s))
            (λ x. Unit)
    unfolding resolve_inside pure
    resolve_inside-Still s path_arg =
        Triple-bind (ask-Still s (P.resolve (join ctx.workspace path_arg))) λ target. record {
          at = λ x (e, h).
              (Triple-bind (ask-Still s _)
                  λ inside. record { at = λ x (i, h). (found inside target e i, h) }).at
                x h;
        }
      where
        found :
            (inside : Bool) (target : FilePath)
            → P.resolve (join ctx.workspace path_arg) s.machine ≡ ok target
            → within P target (P.resolve ctx.workspace s.machine) ≡ ok inside
            → (t : FilePath) → (if inside then some target else none) ≡ some t
            → Resolved s path_arg t
        found true target e i t k =
            let same : target ≡ t = cc in
            (
              e ∙ ap ok same,
              subst (λ u. within P u (P.resolve ctx.workspace s.machine) ≡ ok true) same i,
            )
        found false target e i t k = absurd (cc k)
