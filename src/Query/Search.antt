-- ===== src/Query/Search.antt =====
-- internal/repository/mysql: the search conditions that the filters share, and `joinOr` of
-- filters.go.
use interface.Prelude.{
  ◌≡◌, refl, Bool, true, false, List, [], ◌∷◌, ◌++◌, length, All, if◌then◌else◌, arith, Bool-cases,
  inl, inr,
}
use interface.Text.{Text, ascii, is_empty}
use interface.Query.{Value, text_value, Conditions, add, like_escape}
use interface.Query.Bound.{marks, marks-append, IsBound, add-IsBound}

-- `joinOr`
unfoldable pub join_or : List Text → Text
join_or [] = []
join_or (p ∷ []) = p
join_or (p ∷ q ∷ ps) = p ++ (ascii " OR " ++ join_or (q ∷ ps))

abbrev pub like_column : Text → Text
like_column column = column ++ ascii " LIKE ? ESCAPE '\\\\'"

abbrev pub like_columns : List Text → List Text
like_columns [] = []
like_columns (c ∷ cs) = like_column c ∷ like_columns cs

-- the pattern, once for each column
abbrev pub like_values : Text → List Text → List Value
like_values pattern [] = []
like_values pattern (c ∷ cs) = text_value pattern ∷ like_values pattern cs

-- `if f.Search != ""` and its body
unfoldable pub add_search : Text → List Text → Conditions → Conditions
add_search search columns c =
    if is_empty search
    then c
    else add (ascii "(" ++ (join_or (like_columns columns) ++ ascii ")"))
        (like_values (like_escape search) columns) c

-- `if f.X != "" { c.add(expr, f.X) }`
unfoldable pub add_text : Text → Text → Conditions → Conditions
add_text expr value c = if is_empty value then c else add expr (text_value value ∷ []) c

-- `if test { c.add(expr) }`
unfoldable pub add_if : Bool → Text → Conditions → Conditions
add_if test expr c = if test then add expr [] c else c

-- the columns of a list have no placeholder
abbrev pub Unmarked : List Text → Type 0
Unmarked = All (λ c. marks c ≡ 0)

marks-like_columns :
    (columns : List Text)
    → Unmarked columns
    → marks (join_or (like_columns columns)) ≡ length columns
unfolding join_or
marks-like_columns [] h = refl
marks-like_columns (c ∷ []) (h, _) =
    omega (arith, h, marks-append c (ascii " LIKE ? ESCAPE '\\\\'"))
marks-like_columns (c ∷ d ∷ cs) (h, k) = omega (
  arith,
  h,
  marks-append (like_column c) (ascii " OR " ++ join_or (like_columns (d ∷ cs))),
  marks-append c (ascii " LIKE ? ESCAPE '\\\\'"),
  marks-append (ascii " OR ") (join_or (like_columns (d ∷ cs))),
  marks-like_columns (d ∷ cs) k,
)

length-like_values :
    (pattern : Text) (columns : List Text) → length (like_values pattern columns) ≡ length columns
length-like_values pattern [] = refl
length-like_values pattern (c ∷ cs) = omega (arith, length-like_values pattern cs)

pub add_search-IsBound :
    (search : Text) (columns : List Text) (c : Conditions)
    → Unmarked columns
    → IsBound c
    → IsBound (add_search search columns c)
unfolding add_search
add_search-IsBound search columns c h b = elim (Bool-cases (is_empty search)) [
  | inl none ↦ rw none b
  | inr some ↦ rw some (
      add-IsBound (ascii "(" ++ (join_or (like_columns columns) ++ ascii ")"))
        (like_values (like_escape search) columns) c
        (omega (
          arith,
          marks-append (join_or (like_columns columns)) (ascii ")"),
          marks-like_columns columns h,
          length-like_values (like_escape search) columns,
        ))
        b)
]

pub add_text-IsBound :
    (expr value : Text) (c : Conditions)
    → marks expr ≡ 1
    → IsBound c
    → IsBound (add_text expr value c)
unfolding add_text
add_text-IsBound expr value c h b = elim (Bool-cases (is_empty value)) [
  | inl none ↦ rw none b
  | inr some ↦ rw some (add-IsBound expr (text_value value ∷ []) c h b)
]

pub add_if-IsBound :
    (test : Bool) (expr : Text) (c : Conditions)
    → marks expr ≡ 0
    → IsBound c
    → IsBound (add_if test expr c)
unfolding add_if
add_if-IsBound true expr c h b = add-IsBound expr [] c h b
add_if-IsBound false expr c h b = b
