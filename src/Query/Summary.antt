-- ===== src/Query/Summary.antt =====
-- internal/repository/mysql/summary.go: the counts that the dashboard adds up. The rows of the queries
-- are parameters.
pub mod Adding
use interface.Prelude.{
  ℕ, zero, suc, ◌+◌, ◌-◌, ◌*◌, ◌/◌, Bool, true, false, Option, none, some, List, [], ◌∷◌, ◌++◌, ltb,
  ◌==◌, if◌then◌else◌, ℕ_discrete,
}
use interface.Prelude.Maps.{lookup}
use interface.Prelude.Counts.{count_of, bump_all, sum_counts}
use interface.Text.{Text, ascii, text_dec}
use interface.Text.Decimal.{format_int}
use interface.Prelude.Int.{ℤ, pos}

pub ℤ_discrete : Discrete ℤ
ℤ_discrete = hlevel ℕ_discrete

-- `hostStateNames` and `serviceStateNames`
abbrev pub host_state_names : List (ℤ × Text)
host_state_names = (pos 0, ascii "up") ∷ (pos 1, ascii "down") ∷ (pos 2, ascii "unreachable") ∷ []

abbrev pub service_state_names : List (ℤ × Text)
service_state_names =
    (pos 0, ascii "ok")
    ∷ (pos 1, ascii "warning")
    ∷ (pos 2, ascii "critical")
    ∷ (pos 3, ascii "unknown")
    ∷ []

-- the name of a state, or its number if this build does not know it
unfoldable pub state_name : List (ℤ × Text) → ℤ → Text
state_name names state = elim (lookup ℤ_discrete state names) [
  | none ↦ ascii "state_" ++ format_int state
  | some name ↦ name
]

abbrev pub named : List (ℤ × Text) → List (ℤ × ℕ) → List (Text × ℕ)
named names [] = []
named names ((state, n) ∷ rows) = (state_name names state, n) ∷ named names rows

-- `byState`, from the rows of its query
unfoldable pub by_state : List (ℤ × Text) → List (ℤ × ℕ) → List (Text × ℕ)
by_state names rows = bump_all text_dec (named names rows) []

abbrev pub hour : ℕ
hour = 3600

-- the loop over the hours of the window: so many, from a time on
unfoldable pub hours_from : ℕ → ℕ → List (ℕ × ℕ) → List (ℕ × ℕ)
hours_from zero t buckets = []
hours_from (suc n) t buckets = (t, count_of ℕ_discrete t buckets) ∷ hours_from n (t + hour) buckets

-- how many turns the loop takes: none if it ends before it starts
unfoldable pub hours_in : ℕ → ℕ → ℕ
hours_in since now = if ltb (now / hour) (since / hour) then 0 else suc (now / hour - since / hour)

-- `notifications`, from the rows of the two queries: the total, and the hours of the window
unfoldable pub notifications : ℕ → ℕ → List (ℕ × ℕ) → List (ℕ × ℕ) → ℕ × List (ℕ × ℕ)
notifications since now host_rows service_rows =
    let buckets = bump_all ℕ_discrete service_rows (bump_all ℕ_discrete host_rows []) in
    (
      sum_counts host_rows + sum_counts service_rows,
      hours_from (hours_in since now) (since / hour * hour) buckets,
    )
