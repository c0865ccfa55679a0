-- ===== src/Latency/Bounds.antt =====
-- The reported figures of `measure_latency` in `src/redis_transport.rs`.
use native.Mathlib.Nat.{le-div_iff_mul-le, div-le_of_le-mul, mul-suc, mul-le-mul_right, mul_comm}
use shex.Prelude.{
  ℕ, zero, suc, ◌+◌, ◌*◌, ◌≤◌, ◌<◌, ◌≡◌, ◌∙◌, sym, ap, Bool-cases, inl, inr, List, [], ◌∷◌, length,
  arith, ◌==◌,
}
use shex.Result.{Result, ok, Exec, Result-cases}
use shex.Redis.{Redis}
use shex.Redis.World.{World}
use shex.Latency.{
  LatencyStats, least, greatest, sum, stats, samples, redis_ping, redis_sample, measured,
  measure_latency,
}

least-le : (x y : ℕ) (ys : List ℕ) → (least x (y ∷ ys) ≤ x) × (least x (y ∷ ys) ≤ least y ys)
unfolding least
least-le x y ys = (ground arith, ground arith)

greatest-ge :
    (x y : ℕ) (ys : List ℕ) → (x ≤ greatest x (y ∷ ys)) × (greatest y ys ≤ greatest x (y ∷ ys))
unfolding greatest
greatest-ge x y ys = (ground arith, ground arith)

scaled : (m r x s n : ℕ) → m ≤ x → m ≤ r → r * n ≤ s → m * suc n ≤ x + s
scaled m r x s n hx hr h = omega (arith, mul-suc m n, mul-le-mul_right n hr)

scaled_up : (m r x s n : ℕ) → x ≤ m → r ≤ m → s ≤ r * n → x + s ≤ m * suc n
scaled_up m r x s n hx hr h = omega (arith, mul-suc m n, mul-le-mul_right n hr)

least-sum : (x : ℕ) (xs : List ℕ) → least x xs * length (x ∷ xs) ≤ sum (x ∷ xs)
unfolding least sum
least-sum x [] = omega arith
least-sum x (y ∷ ys) =
    let (one, two) = least-le x y ys in
    scaled (least x (y ∷ ys)) (least y ys) x (sum (y ∷ ys)) (length (y ∷ ys)) one two
      (least-sum y ys)

sum-greatest : (x : ℕ) (xs : List ℕ) → sum (x ∷ xs) ≤ greatest x xs * length (x ∷ xs)
unfolding greatest sum
sum-greatest x [] = omega arith
sum-greatest x (y ∷ ys) =
    let (one, two) = greatest-ge x y ys in
    scaled_up (greatest x (y ∷ ys)) (greatest y ys) x (sum (y ∷ ys)) (length (y ∷ ys)) one two
      (sum-greatest y ys)

ok-inj {ℓ} : {A : Type ℓ} {a b : A} → ◌≡◌ {A = Result A} (ok a) (ok b) → a ≡ b
ok-inj e = cc

samples-length :
    {S : Type 0} (sample : Exec S ℕ) (n : ℕ) (s : S) {xs : List ℕ}
    → (samples sample n s).0 ≡ ok xs
    → length xs ≡ n
unfolding samples
samples-length sample zero s h = ap length (sym (ok-inj h))
samples-length sample (suc n) s {xs} h = elim (Result-cases (sample s).0) [
  | inr (e, failed) ↦ absurd (cc (rw failed at h))
  | inl (x, taken) ↦ elim (Result-cases (samples sample n (sample s).1).0) [
    | inr (e, failed) ↦ absurd (cc (rw (taken, failed) at h))
    | inl (rest, others) ↦
        ap length (sym (ok-inj (rw (taken, others) at h)))
        ∙ ap suc (samples-length sample n (sample s).1 others)
  ]
]

-- the average lies between the least and the greatest sample
pub Ordered : LatencyStats → Type 0
Ordered st = (st.minimum ≤ st.average) × (st.average ≤ st.maximum)

stats-Ordered :
    (count : ℕ) (xs : List ℕ) {st : LatencyStats}
    → length xs ≡ count
    → stats count xs ≡ ok st
    → Ordered st
unfolding stats Ordered
stats-Ordered count [] len h = absurd (cc)
stats-Ordered count (x ∷ xs) len h =
    rw (← ok-inj h, ← len)
      (
        (le-div_iff_mul-le (omega arith)).1 (least-sum x xs),
        div-le_of_le-mul (length (x ∷ xs))
            (omega (arith, mul_comm (length (x ∷ xs)) (greatest x xs), sum-greatest x xs)),
      )

module _ (R : Redis) where
  measured-Ordered :
      (count : ℕ) (w : World R.Db) {st : LatencyStats} → (measured R count w).0 ≡ ok st → Ordered st
  unfolding measured
  measured-Ordered count w h =
      let w1 = (redis_ping R w).1 in
      let taking = samples (redis_sample R) count in
      elim (Result-cases (redis_ping R w).0) [
        | inr (e, failed) ↦ absurd (cc (rw failed at h))
        | inl (u, answered) ↦ elim (Result-cases (taking w1).0) [
          | inr (e, failed) ↦ absurd (cc (rw (answered, failed) at h))
          | inl (xs, taken) ↦
              stats-Ordered count xs (samples-length (redis_sample R) count w1 taken)
                (rw (answered, taken) at h)
        ]
      ]

  -- Latency is reported only of at least one sample, and the reported average lies between the
  -- extremes, whatever the network does.
  measure_latency-Ordered :
      (count : ℕ) (w : World R.Db) {st : LatencyStats}
      → (measure_latency R count w).0 ≡ ok st
      → (0 < count) × Ordered st
  unfolding measure_latency
  measure_latency-Ordered count w h = elim (Bool-cases (count == 0)) [
    | inl none_asked ↦ absurd (cc (rw none_asked at h))
    | inr asked ↦ (ground arith, measured-Ordered count w (rw asked at h))
  ]
