-- ===== src/Query.antt =====
-- internal/repository/mysql/query.go: the SQL text that a request becomes, and its bound values.
pub mod Bound
mod Ordering
mod Like
pub mod Search
pub mod Statement
pub mod History
pub mod Status
pub mod Downtimes
pub mod Acknowledgements
pub mod Problems
pub mod Logs
pub mod Summary
mod Lists
mod Tests
use interface.Prelude.{
  ℕ, zero, suc, Bool, true, false, Option, none, some, List, [], ◌∷◌, ◌++◌, map, length, ◌==◌, ◌||◌,
  if◌then◌else◌,
}
use interface.Prelude.Int.{ℤ}
use interface.Prelude.Maps.{lookup}
use interface.Text.{Text, ascii, eq, join, text_dec}

-- A value that is bound to a placeholder: the repository binds texts and integers.
pub data Value : Type 0 where
  text_value : Text → Value
  int_value : ℤ → Value

pub record Conditions : Type 0 where
  pub exprs : List Text
  pub args : List Value

abbrev pub no_conditions : Conditions
no_conditions = record { exprs = []; args = [] }

unfoldable pub add : Text → List Value → Conditions → Conditions
add expr values c = record { exprs = c.exprs ++ expr ∷ []; args = c.args ++ values }

unfoldable pub add_bool : Text → Option Bool → Conditions → Conditions
unfolding add
add_bool column none c = c
add_bool column (some want) c =
    if want then add (column ++ ascii " = 1") [] c else add (column ++ ascii " = 0") [] c

-- `strings.Repeat("?,", n)` without its last byte
unfoldable pub placeholders : ℕ → Text
placeholders zero = []
placeholders (suc zero) = ascii "?"
placeholders (suc (suc n)) = ascii "?," ++ placeholders (suc n)

abbrev pub ints_to_any : List ℤ → List Value
ints_to_any = map int_value

unfoldable pub add_in : Text → List ℤ → Conditions → Conditions
unfolding add placeholders
add_in column [] c = c
add_in column (v ∷ vs) c =
    add (column ++ (ascii " IN (" ++ (placeholders (length (v ∷ vs)) ++ ascii ")")))
      (ints_to_any (v ∷ vs)) c

abbrev pub where_text : List Text → Text
where_text [] = []
where_text (e ∷ es) = ascii " WHERE " ++ join (ascii " AND ") (e ∷ es)

unfoldable pub clause : Conditions → Text
clause c = where_text c.exprs

-- a column of the whitelist; a key that is missing gives the empty string
abbrev pub column_of : Text → List (Text × Text) → Text
column_of name columns = elim (lookup text_dec name columns) [ none ↦ [] | some c ↦ c ]

abbrev pub sort_column : Text → List (Text × Text) → Text → Text
sort_column name columns fallback = elim (lookup text_dec name columns) [
  | none ↦ column_of fallback columns
  | some expr ↦ expr
]

abbrev pub direction : Bool → Text
direction desc = if desc then ascii "DESC" else ascii "ASC"

-- `orderBy`
unfoldable pub order_by : Text → Bool → List (Text × Text) → Text → Text
order_by name desc columns fallback =
    let expr = sort_column name columns fallback in
    let tie = column_of fallback columns in
    if eq expr tie
    then ascii " ORDER BY " ++ (expr ++ (ascii " " ++ direction desc))
    else ascii " ORDER BY "
      ++ (expr ++ (ascii " " ++ (direction desc ++ (ascii ", " ++ (tie ++ ascii " ASC")))))

-- the replacer of `likeEscape`, byte by byte
unfoldable pub escape : Text → Text
escape [] = []
escape (b ∷ bs) =
    let rest = escape bs in
    if b == b'\\' || (b == b'%' || b == b'_') then b'\\' ∷ b ∷ rest else b ∷ rest

-- `likeEscape`
unfoldable pub like_escape : Text → Text
unfolding escape
like_escape s = b'%' ∷ (escape s ++ b'%' ∷ [])

pub record Page : Type 0 where
  pub limit : ℤ
  pub offset : ℤ
  pub sort : Text
  pub desc : Bool

unfoldable pub limit_clause : Text
limit_clause = ascii " LIMIT ? OFFSET ?"

unfoldable pub limit_args : Page → List Value
limit_args p = int_value p.limit ∷ int_value p.offset ∷ []
