-- ===== src/Deterministic/Clock.antt =====
-- `SystemClock` and `ReplayClock` of deterministic.py.
pub mod Laws
use agentanvil.Prelude.{
  ℕ, zero, suc, ◌+◌, ◌-◌, ◌/◌, ◌≡◌, refl, Option, none, some, List, [], ◌∷◌, ◌++◌, leb, length,
  get_elem?, if◌then◌else◌, ◌==◌,
}
use agentanvil.Python.Text.{Text, lit, show_ℕ}
use agentanvil.Python.Action.{Exn, Result, ok, raised, Action}

-- A UTC `datetime`.
pub record DateTime : Type 0 where
  pub year : ℕ
  pub month : ℕ
  pub day : ℕ
  pub hour : ℕ
  pub minute : ℕ
  pub second : ℕ
  pub microsecond : ℕ

zeros : ℕ → Text
zeros zero = []
zeros (suc n) = 48 ∷ zeros n

-- `f"{n:0wd}"`
unfoldable pub zero_padded : ℕ → ℕ → Text
unfolding zeros show_ℕ
zero_padded w n = let s = show_ℕ n in zeros (w - length s) ++ s

-- The format string of `now_iso`, with milliseconds and a `Z`.
unfoldable pub iso_format : DateTime → Text
unfolding zero_padded
iso_format n =
    show_ℕ n.year
    ++ lit "-"
    ++ zero_padded 2 n.month
    ++ lit "-"
    ++ zero_padded 2 n.day
    ++ lit "T"
    ++ zero_padded 2 n.hour
    ++ lit ":"
    ++ zero_padded 2 n.minute
    ++ lit ":"
    ++ zero_padded 2 n.second
    ++ lit "."
    ++ zero_padded 3 (n.microsecond / 1000)
    ++ lit "Z"

-- The machine's clocks, as what the n-th reading of each gives.
pub record SystemClock : Type 0 where
  pub now_at : ℕ → DateTime
  pub monotonic_at : ℕ → ℕ
  pub reads : ℕ

unfoldable pub system_now : Action SystemClock DateTime
system_now c = (ok (c.now_at c.reads), record c { reads = suc c.reads })

unfoldable pub system_now_iso : Action SystemClock Text
unfolding iso_format
system_now_iso c = (ok (iso_format (c.now_at c.reads)), record c { reads = suc c.reads })

unfoldable pub system_monotonic_ns : Action SystemClock ℕ
system_monotonic_ns c = (ok (c.monotonic_at c.reads), record c { reads = suc c.reads })

-- The recorded (ts, monotonic_ns) of each event.
pub record ReplayClock : Type 0 where
  pub pairs : List (Text × ℕ)
  pub idx : ℕ

abbrev pub index_error : Exn
index_error = record { name = "IndexError"; message = lit "list index out of range" }

abbrev pub clock_exhausted : Exn
clock_exhausted = record {
  name = "RuntimeError";
  message = lit "ReplayClock exhausted: more events than recorded";
}

-- `xs[i]` for an index that is not negative.
abbrev pub index {ℓ} : {A : Type ℓ} → List A → ℕ → Result A
index xs i = elim (get_elem? xs i) [ none ↦ raised index_error | some x ↦ ok x ]

-- `_next`
unfoldable pub next : Action ReplayClock (Text × ℕ)
next c =
    if leb (length c.pairs) c.idx
    then (raised clock_exhausted, c)
    else (index c.pairs c.idx, record c { idx = suc c.idx })

abbrev pub ts_of : Result (Text × ℕ) → Result Text
ts_of (ok (ts, ns)) = ok ts
ts_of (raised e) = raised e

abbrev pub ns_of : Result (Text × ℕ) → Result ℕ
ns_of (ok (ts, ns)) = ok ns
ns_of (raised e) = raised e

-- `iso.replace("Z", "+00:00")`
unfoldable pub with_offset : Text → Text
with_offset [] = []
with_offset (c ∷ s) = let rest = with_offset s in if c == 90 then lit "+00:00" ++ rest else c ∷ rest

-- `now()`; `datetime.fromisoformat` is the parameter. Neither the index nor the text is checked
-- first.
unfoldable pub replay_now : (Text → Result DateTime) → Action ReplayClock DateTime
unfolding with_offset
replay_now fromisoformat c = elim (index c.pairs c.idx) [
  | ok (ts, ns) ↦ (fromisoformat (with_offset ts), c)
  | raised e ↦ (raised e, c)
]

unfoldable pub replay_now_iso : Action ReplayClock Text
replay_now_iso c = (ts_of (index c.pairs c.idx), c)

unfoldable pub replay_monotonic_ns : Action ReplayClock ℕ
replay_monotonic_ns c = (ns_of (index c.pairs c.idx), c)

-- The `Clock` protocol over its two implementations.
pub data Clock : Type 0 where
  system : SystemClock → Clock
  replay : ReplayClock → Clock

unfoldable pub now : (Text → Result DateTime) → Action Clock DateTime
unfolding system_now replay_now
now fromisoformat (system c) = let (r, c') = system_now c in (r, system c')
now fromisoformat (replay c) = let (r, c') = replay_now fromisoformat c in (r, replay c')

unfoldable pub now_iso : Action Clock Text
unfolding system_now_iso replay_now_iso
now_iso (system c) = let (r, c') = system_now_iso c in (r, system c')
now_iso (replay c) = let (r, c') = replay_now_iso c in (r, replay c')

unfoldable pub monotonic_ns : Action Clock ℕ
unfolding system_monotonic_ns replay_monotonic_ns
monotonic_ns (system c) = let (r, c') = system_monotonic_ns c in (r, system c')
monotonic_ns (replay c) = let (r, c') = replay_monotonic_ns c in (r, replay c')

abbrev ticked : Result (Text × ℕ) → Result (Unit {0})
ticked (ok pair) = ok tt
ticked (raised e) = raised e

-- `tick`, which only a `ReplayClock` has; `emit` looks for it by `getattr`.
unfoldable pub tick : Action Clock (Unit {0})
unfolding next
tick (system c) = (ok tt, system c)
tick (replay c) = let (r, c') = next c in (ticked r, replay c')

iso_of_interfaces :
    iso_format (record {
      year = 2026;
      month = 1;
      day = 15;
      hour = 10;
      minute = 30;
      second = 0;
      microsecond = 123456;
    })
    ≡ lit "2026-01-15T10:30:00.123Z"
unfolding iso_format lit
iso_of_interfaces = refl
