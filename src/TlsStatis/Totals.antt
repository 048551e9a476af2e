-- ===== src/TlsStatis/Totals.antt =====
-- What the rates of 722device/statis/tls_statis_rate.c add up to.
use ai_coding_for_business.Common.{
  ℕ, ◌+◌, ◌≤◌, ◌<◌, ◌≡◌, inl, inr, sym, subst, arith, List, [], ◌∷◌, if◌then◌else◌, Bool-cases,
}
use ai_coding_for_business.TlsStatis.{Meter, count, expired, poll}

-- Bytes are counted, or the thread looks at the meter.
pub data Event : Type 0 where
  counts : ℕ → Event
  polls : (first second : ℕ) → Event

-- The bytes that are counted.
abbrev pub total : List Event → ℕ
total [] = 0
total (counts n ∷ es) = n + total es
total (polls first second ∷ es) = total es

module _ (scale : ℕ → ℕ → ℕ) where
  -- The meter after the events, and the sum of the rates that have been set.
  unfoldable pub run : List Event → Meter → Meter × ℕ
  unfolding count poll
  run [] m = (m, 0)
  run (counts n ∷ es) m = run es (count m n)
  run (polls first second ∷ es) m =
      let m' = poll scale first second m in
      let rest = run es m' in (rest.0, (if expired m then m'.rate else 0) + rest.1)

  -- A look either sets the rate to the bytes of the interval, which are then 0, or leaves them.
  poll-cases :
      (bound : ℕ)
      → ((n : ℕ) → n < bound → scale n 1000 ≡ n)
      → (first second : ℕ) (m : Meter) → m.interval ≡ 1000
      → m.bytes < bound
      → let m' = poll scale first second m in
        (m'.interval ≡ 1000)
        × (m'.bytes ≤ m.bytes)
        × (m'.bytes + (if expired m then m'.rate else 0) ≡ m.bytes)
  unfolding poll
  poll-cases bound exact first second m e lt = elim (Bool-cases (expired m)) [
    | inl over ↦
        let rate : scale m.bytes m.interval ≡ m.bytes =
          subst (λ i. scale m.bytes i ≡ m.bytes) (sym e) (exact m.bytes lt) in
        rw over (e, omega arith, omega (arith, rate))
    | inr within ↦ rw within (e, omega arith, omega arith)
  ]

  -- The intervals have 1000 milliseconds, and the rate of an interval is exact as long as its bytes are below `bound`.
  -- Then no byte is lost, and none is counted twice, whenever the thread looks: the rates that have been
  -- set and the bytes of the interval that has begun are together what has been counted.
  pub run-total :
      (bound : ℕ)
      → ((n : ℕ) → n < bound → scale n 1000 ≡ n)
      → bound ≤ 18446744073709551616
      → (es : List Event) (m : Meter) → m.interval ≡ 1000
      → m.bytes + total es < bound
      → (run es m).0.bytes + (run es m).1 ≡ m.bytes + total es
  unfolding run count poll
  run-total bound exact small [] m e lt = omega arith
  run-total bound exact small (counts n ∷ es) m e lt =
      let m' = count m n in
      let sum : m'.bytes ≡ m.bytes + n = omega arith in
      omega (arith, run-total bound exact small es m' e (omega (arith, sum)), sum)
  run-total bound exact small (polls first second ∷ es) m e lt =
      let m' = poll scale first second m in
      let (same, left, shown) = poll-cases bound exact first second m e (omega (arith, lt)) in
      omega (arith, run-total bound exact small es m' same (omega (arith, lt, left)), shown)
