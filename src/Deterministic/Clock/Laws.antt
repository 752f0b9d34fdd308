-- ===== src/Deterministic/Clock/Laws.antt =====
-- What the readings of an event and the tick behind it do to a clock.
use agentanvil.Prelude.{
  ℕ, zero, suc, ◌<◌, ◌≡◌, refl, some, List, [], ◌∷◌, arith, length, get_elem?, Option-cases, inl,
  inr,
}
use agentanvil.Python.Text.{Text}
use agentanvil.Python.Action.{ok}
use agentanvil.Deterministic.Clock.{Clock, system, replay, ReplayClock, now_iso, monotonic_ns, tick}

-- An element that is there has an index below the length.
pub lt_of_get_elem? {ℓ} :
    {A : Type ℓ} (xs : List A) (i : ℕ) {x : A} → get_elem? xs i ≡ some x → i < length xs
lt_of_get_elem? [] i h = cc
lt_of_get_elem? (x ∷ xs) zero h = omega arith
lt_of_get_elem? (x ∷ xs) (suc i) h = omega (arith, lt_of_get_elem? xs i h)

-- The clock after both readings of an event, and after its tick.
abbrev pub after_readings : Clock → Clock
after_readings c = (monotonic_ns (now_iso c).1).1

abbrev pub after_tick : Clock → Clock
after_tick c = (tick (after_readings c)).1

-- A clock that could be read can be ticked.
pub tick_after_reading :
    (c : Clock) {ts : Text} → (now_iso c).0 ≡ ok ts → (tick (after_readings c)).0 ≡ ok tt
unfolding now_iso monotonic_ns tick
tick_after_reading (system c) h = refl
tick_after_reading (replay c) h = elim (Option-cases (get_elem? c.pairs c.idx)) [
  | inl e ↦ ground arith
  | inr (pair, e) ↦ ground (arith, lt_of_get_elem? c.pairs c.idx e)
]

module _ (c : ReplayClock) where
  -- A `ReplayClock` stands still under readings.
  pub replay_still : after_readings (replay c) ≡ replay c
  unfolding now_iso monotonic_ns
  replay_still = refl

  pub replay_still_now : (now_iso (replay c)).1 ≡ replay c
  unfolding now_iso
  replay_still_now = refl

  pub replay_still_monotonic : (monotonic_ns (replay c)).1 ≡ replay c
  unfolding monotonic_ns
  replay_still_monotonic = refl

  -- What was read for an event is the recorded pair, and the tick moves to the next one.
  pub replay_pair :
      (ts : Text) (ns : ℕ)
      → (now_iso (replay c)).0 ≡ ok ts
      → (monotonic_ns (now_iso (replay c)).1).0 ≡ ok ns
      → (get_elem? c.pairs c.idx ≡ some (ts, ns))
        × (after_tick (replay c) ≡ replay (record c { idx = suc c.idx }))
  unfolding now_iso monotonic_ns tick
  replay_pair ts ns read_ts read_ns = elim (Option-cases (get_elem? c.pairs c.idx)) [
    | inl e ↦ absurd (ground arith)
    | inr ((t, n), e) ↦ (ground arith, ground (arith, lt_of_get_elem? c.pairs c.idx e))
  ]
