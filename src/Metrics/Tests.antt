-- ===== src/Metrics/Tests.antt =====
-- The theorem on resolutions, at a week of samples.
use interface.Prelude.{ℕ, ◌/◌, ◌≡◌, ◌≤◌, ◌<◌, ◌⊎◌, arith}
use interface.Prelude.Int.{pos}
use interface.Metrics.{bucket_for}
use interface.Metrics.Resolution.{bucket_for-fits}

abbrev week : ℕ
week = bucket_for (pos 1000) (pos 605800) (pos 600)

bucket_for-fits_example :
    (1 ≤ week) × ((604800 / week ≤ 600) ⊎ ((week ≡ 604800 / 600) × (600 < 604800 / 604800)))
bucket_for-fits_example = bucket_for-fits 1000 605800 (pos 600) (omega arith) (omega arith)
