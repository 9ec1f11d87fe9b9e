-- ===== src/Query/Ordering.antt =====
-- What may stand in an ORDER BY.
use interface.Prelude.{
  ◌≡◌, inl, inr, Bool, some, List, [], ◌∷◌, ◌++◌, if◌then◌else◌, arith, In, Bool-cases,
  Option-cases, holds,
}
use interface.Prelude.Maps.{lookup}
use interface.Text.{Text, ascii, eq, text_dec}
use interface.Query.{direction, order_by}

-- the column names that a whitelist has
abbrev pub names : List (Text × Text) → List Text
names [] = []
names ((key, expr) ∷ columns) = expr ∷ names columns

lookup-names :
    (key expr : Text) (columns : List (Text × Text))
    → lookup text_dec key columns ≡ some expr
    → In expr (names columns)
unfolding lookup
lookup-names key expr [] h = absurd (cc)
lookup-names key expr ((k, e) ∷ columns) h = elim (Bool-cases (holds (text_dec k key))) [
  | inl here ↦ inl (ground arith)
  | inr there ↦ inr (lookup-names key expr columns (ground arith))
]

-- what follows the sort direction: a tiebreaker, unless it is the column that is sorted by
abbrev pub tiebreaker : Text → Text → Text
tiebreaker expr tie = if eq expr tie then [] else ascii ", " ++ (tie ++ ascii " ASC")

-- Whatever name a request asks to sort by, what stands in the text is a column of the whitelist,
-- followed by the fallback as a tiebreaker unless that is the same. The fallback is one of them.
pub order_by-whitelisted :
    (name fallback tie : Text) (desc : Bool) (columns : List (Text × Text))
    → lookup text_dec fallback columns ≡ some tie
    → (expr : Text) × In expr (names columns)
      × (order_by name desc columns fallback
          ≡ ascii " ORDER BY " ++ (expr ++ (ascii " " ++ (direction desc ++ tiebreaker expr tie))))
unfolding order_by
order_by-whitelisted name fallback tie desc columns h =
    elim (Option-cases (lookup text_dec name columns)) [
      | inl unknown ↦ (tie, lookup-names fallback tie columns h, ground arith)
      | inr (expr, known) ↦ (expr, lookup-names name expr columns known, ground arith)
    ]
