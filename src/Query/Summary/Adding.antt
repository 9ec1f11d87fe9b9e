-- ===== src/Query/Summary/Adding.antt =====
-- The dashboard's counts add up.
use interface.Prelude.{ℕ, ◌≡◌, refl, List, [], ◌∷◌, arith}
use interface.Prelude.Int.{ℤ}
use interface.Prelude.Counts.{sum_counts, sum-bump_all}
use interface.Text.{Text, text_dec}
use interface.Query.Summary.{named, by_state}

sum-named :
    (names : List (ℤ × Text)) (rows : List (ℤ × ℕ))
    → sum_counts (named names rows) ≡ sum_counts rows
sum-named names [] = refl
sum-named names ((state, n) ∷ rows) = omega (arith, sum-named names rows)

-- The counts by state add up to the objects that were counted, whatever states the core has: no row is
-- dropped, and rows that get the same name are added.
pub by_state-sum :
    (names : List (ℤ × Text)) (rows : List (ℤ × ℕ))
    → sum_counts (by_state names rows) ≡ sum_counts rows
unfolding by_state
by_state-sum names rows =
    omega (arith, sum-bump_all text_dec (named names rows) [], sum-named names rows)
