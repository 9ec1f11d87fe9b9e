-- ===== src/Metrics/Resolution.antt =====
-- A chart stays within its budget of points.
use native.Mathlib.Nat.{le-div_iff_mul-le}
use interface.Prelude.{
  ℕ, ◌-◌, ◌^◌, ◌/◌, ◌≡◌, ◌≤◌, ◌<◌, ◌⊎◌, inl, inr, refl, List, [], ◌∷◌, leb, arith, Bool-cases,
  leb→le, In, All, ◌∙◌,
}
use interface.Prelude.Int.{ℤ, pos, ◌-ℤ◌, wrap64, wrap64_of_small}
use interface.Metrics.{buckets, first_fitting, long_bucket, budget, bucket_for}

-- the first bucket that fits fits; when none does, all were too fine
first_fitting-fits :
    (span points : ℕ) (bs : List ℕ) (fallback : ℕ)
    → (span / first_fitting span points bs fallback ≤ points)
      ⊎ ((first_fitting span points bs fallback ≡ fallback)
          × ((b : ℕ) → In b bs → points < span / b))
unfolding first_fitting
first_fitting-fits span points [] fallback = inr (refl, λ b m. absurd m)
first_fitting-fits span points (b ∷ bs) fallback = elim (Bool-cases (leb (span / b) points)) [
  | inl fits ↦ rw fits (inl (leb→le (span / b) points fits))
  | inr over ↦ elim (first_fitting-fits span points bs fallback) [
    | inl later ↦ rw over (inl later)
    | inr (same, fine) ↦
        rw over (inr (same, λ c m. elim m [ inl e ↦ rw e (ground arith) | inr m' ↦ fine c m' ]))
  ]
]

first_fitting-positive :
    (span points : ℕ) (bs : List ℕ) (fallback : ℕ)
    → All (λ b. 1 ≤ b) bs
    → 1 ≤ fallback
    → 1 ≤ first_fitting span points bs fallback
unfolding first_fitting
first_fitting-positive span points [] fallback h k = k
first_fitting-positive span points (b ∷ bs) fallback (p, h) k =
    ground (arith, p, first_fitting-positive span points bs fallback h k)

abbrev chosen : ℕ → ℕ → ℕ
chosen span points = first_fitting span points buckets (long_bucket span points)

week_listed : In 604800 buckets
week_listed = inr (inr (inr (inr (inr (inr (inr (inr (inr (inr (inl refl))))))))))

buckets_positive : All (λ b. 1 ≤ b) buckets
buckets_positive = omega arith

-- a window of more than the budget's weeks gives each point a second at least
long_bucket-division :
    (span points : ℕ)
    → 1 ≤ points
    → points < span / 604800
    → long_bucket span points ≡ span / points
long_bucket-division span points h k =
    let some_seconds : 1 ≤ span / points = (le-div_iff_mul-le h).1 (omega arith) in
    ground (arith, some_seconds)

sub_of_le : (a b : ℕ) → b ≤ a → pos a -ℤ pos b ≡ pos (a - b)
unfolding ◌-ℤ◌
sub_of_le a b h = ground arith

chosen-fits :
    (span points : ℕ)
    → 1 ≤ points
    → (1 ≤ chosen span points)
      × ((span / chosen span points ≤ points)
          ⊎ ((chosen span points ≡ span / points) × (points < span / 604800)))
chosen-fits span points h =
    let positive : 1 ≤ long_bucket span points = ground arith in
    (
      first_fitting-positive span points buckets (long_bucket span points) buckets_positive
          positive,
      elim (first_fitting-fits span points buckets (long_bucket span points)) [
        | inl fits ↦ inl fits
        | inr (same, fine) ↦
            let long : points < span / 604800 = fine 604800 week_listed in
            inr (same ∙ long_bucket-division span points h long, long)
      ],
    )

-- For a window that begins before it ends, the resolution is at least a second; and it keeps the
-- window within the caller's budget of points (500 when that is not positive), unless even a
-- week for each point is too fine, when it is the window divided by the budget.
pub bucket_for-fits :
    (from to : ℕ) (max_points : ℤ)
    → from < to
    → to < 2 ^ 63
    → (1 ≤ bucket_for (pos from) (pos to) max_points)
      × (((to - from) / bucket_for (pos from) (pos to) max_points ≤ budget max_points)
          ⊎ ((bucket_for (pos from) (pos to) max_points ≡ (to - from) / budget max_points)
              × (budget max_points < (to - from) / 604800)))
unfolding bucket_for
bucket_for-fits from to max_points h k =
    let difference : pos to -ℤ pos from ≡ pos (to - from) = sub_of_le to from (omega arith) in
    let span : wrap64 (pos to -ℤ pos from) ≡ pos (to - from) =
      rw difference (wrap64_of_small (to - from) (omega arith)) in
    let points : 1 ≤ budget max_points = ground arith in
    let same : bucket_for (pos from) (pos to) max_points ≡ chosen (to - from) (budget max_points) =
      rw span (ground arith) in
    rw same (chosen-fits (to - from) (budget max_points) points)
