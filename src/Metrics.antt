-- ===== src/Metrics.antt =====
-- internal/metrics/provider.go: the resolution of a chart, and the check of a query.
mod Resolution
mod Tests
use interface.Prelude.{ℕ, ◌-◌, ◌/◌, Bool, true, false, List, [], ◌∷◌, ltb, leb, if◌then◌else◌}
use interface.Prelude.Int.{ℤ, pos, negsuc, ◌-ℤ◌, leb_ℤ, ltb_ℤ, pos_part, wrap64}
use interface.Prelude.Result.{Result, ok, err}
use interface.Text.{Text, is_empty}

abbrev pub buckets : List ℕ
buckets = 10 ∷ 30 ∷ 60 ∷ 300 ∷ 900 ∷ 1800 ∷ 3600 ∷ 21600 ∷ 43200 ∷ 86400 ∷ 604800 ∷ []

-- the loop over the buckets; the fallback is what stands after it
unfoldable pub first_fitting : ℕ → ℕ → List ℕ → ℕ → ℕ
first_fitting span points [] fallback = fallback
first_fitting span points (b ∷ bs) fallback =
    let rest = first_fitting span points bs fallback in if leb (span / b) points then b else rest

-- what stands after the loop
abbrev pub long_bucket : ℕ → ℕ → ℕ
long_bucket span points = if ltb 0 (span / points) then span / points else 604800

abbrev pub budget : ℤ → ℕ
budget max_points = if ltb_ℤ max_points (pos 1) then 500 else pos_part max_points

-- `BucketFor`; the difference is that of two `int64`
unfoldable pub bucket_for : ℤ → ℤ → ℤ → ℕ
bucket_for from to max_points =
    let span = wrap64 (to -ℤ from) in
    if leb_ℤ span (pos 0)
    then 10
    else first_fitting (pos_part span) (budget max_points) buckets
        (long_bucket (pos_part span) (budget max_points))

-- the part of `domain.MetricQuery` that `Validate` reads
pub record MetricQuery : Type 0 where
  pub hostname : Text
  pub description : Text
  pub from : ℤ
  pub to : ℤ

pub data QueryError : Type 0 where
  no_hostname no_description to_before_from : QueryError

unfoldable pub validate_query : MetricQuery → Result QueryError (Unit {0})
validate_query q =
    if is_empty q.hostname
    then err no_hostname
    else if is_empty q.description
    then err no_description
    else if ltb_ℤ q.to q.from
    then err to_before_from
    else ok tt
