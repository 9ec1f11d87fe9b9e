-- ===== src/Http/Paging.antt =====
-- internal/httpapi/response.go: `parsePage` and `allowed`; and internal/httpapi/handlers_monitoring.go:
-- `sortableNames`, `page` and `metaFor`.
mod Sorted
pub mod Within
use interface.Prelude.{
  ℕ, Bool, true, false, ◌||◌, Option, none, some, List, [], ◌∷◌, ◌++◌, any, ltb, ◌==◌,
  if◌then◌else◌,
}
use interface.Prelude.Int.{ℤ, pos, ltb_ℤ}
use interface.Prelude.Result.{Result, ok, err, ◌>>=◌, ◌>>◌}
use interface.Text.{Text, ascii, is_empty, eq}
use interface.Text.Trim.{trim_space}
use interface.Query.{Page}
use interface.Http.{ApiError}
use interface.Http.Params.{Readers, Values, get, bad, bad_filter}

-- the keys of a whitelist, in the order in which the map gives them
abbrev pub keys : List (Text × Text) → List Text
keys [] = []
keys ((key, expr) ∷ columns) = key ∷ keys columns

-- `a < b` on strings
abbrev pub less : Text → Text → Bool
less a [] = false
less [] (b ∷ bs) = true
less (a ∷ more) (b ∷ bs) =
    let rest = less more bs in if ltb a b then true else if ltb b a then false else rest

-- The inner loop: a name sinks into the names before it, which come last to first.
unfoldable pub sink : Text → List Text → List Text
sink x [] = x ∷ []
sink x (y ∷ ys) = let rest = sink x ys in if less x y then y ∷ rest else x ∷ y ∷ ys

-- the outer loop
unfoldable pub sink_all : List Text → List Text → List Text
sink_all [] sorted = sorted
sink_all (x ∷ xs) sorted = sink_all xs (sink x sorted)

abbrev turn : List Text → List Text → List Text
turn [] out = out
turn (x ∷ xs) out = turn xs (x ∷ out)

-- `sortableNames`
unfoldable pub sortable_names : List (Text × Text) → List Text
unfolding sink_all
sortable_names columns = turn (sink_all (keys columns) []) []

-- `allowed`
unfoldable pub allowed : Text → List Text → Bool
allowed name list = any (λ s. eq s name) list

-- `strings.Cut(v, ":")`: what stands before and after the first colon
abbrev pub before_colon : Text → Text
before_colon [] = []
before_colon (b ∷ bs) = let rest = before_colon bs in if b == b':' then [] else b ∷ rest

abbrev pub after_colon : Text → Text
after_colon [] = []
after_colon (b ∷ bs) = let rest = after_colon bs in if b == b':' then bs else rest

module _ (s : Readers) (q : Values) where
  unfoldable pub read_limit : ℤ → ℤ → Result ApiError ℤ
  read_limit default max_limit =
      let v = get q (ascii "limit") in
      if is_empty v then ok default else elim (s.atoi v) [
        | none ↦ err (bad (ascii "limit"))
        | some n ↦ if ltb_ℤ n (pos 1) || ltb_ℤ max_limit n then err (bad (ascii "limit")) else ok n
      ]

  unfoldable pub read_offset : Result ApiError ℤ
  read_offset =
      let v = get q (ascii "offset") in
      if is_empty v then ok (pos 0) else elim (s.atoi v) [
        | none ↦ err (bad (ascii "offset"))
        | some n ↦ if ltb_ℤ n (pos 0) then err (bad (ascii "offset")) else ok n
      ]

  -- the `switch` on the direction
  unfoldable pub read_direction : Text → Result ApiError Bool
  read_direction dir =
      if is_empty dir || eq dir (ascii "asc")
      then ok false
      else if eq dir (ascii "desc")
      then ok true
      else err (bad (ascii "sort"))

  unfoldable pub read_column : Text → List Text → Result ApiError Text
  read_column name sortable =
      if allowed name sortable then ok name else err (bad_filter (ascii "sort"))

  unfoldable pub read_sort : Text → List Text → Result ApiError (Text × Bool)
  read_sort default sortable =
      let v = get q (ascii "sort") in
      if is_empty v then ok (default, false) else do
        desc ← read_direction (s.to_lower (trim_space (after_colon v)))
        name ← read_column (trim_space (before_colon v)) sortable
        ok (name, desc)

  -- `parsePage`, less the search, which no caller reads
  unfoldable pub parse_page : ℤ → ℤ → Text → List Text → Result ApiError Page
  parse_page default_limit max_limit default_sort sortable = do
    limit ← read_limit default_limit max_limit
    offset ← read_offset
    sort ← read_sort default_sort sortable
    ok (record { limit = limit; offset = offset; sort = sort.0; desc = sort.1 })

  -- `Server.page`, where the two limits are of the configuration
  unfoldable pub page : ℤ → ℤ → Text → List (Text × Text) → Result ApiError Page
  page default_limit max_limit default_sort columns =
      parse_page default_limit max_limit default_sort (sortable_names columns)

-- `if q.Get("sort") == "" { p.Desc = true }`
unfoldable pub newest_first : Values → Page → Page
newest_first q p = if is_empty (get q (ascii "sort")) then record p { desc = true } else p

-- `ListMeta`
pub record ListMeta : Type 0 where
  pub total : ℤ
  pub limit : ℤ
  pub offset : ℤ
  pub sort : Text

-- `metaFor`
unfoldable pub meta_for : Page → ℤ → ListMeta
meta_for p total = record {
  total = total;
  limit = p.limit;
  offset = p.offset;
  sort = p.sort ++ (if p.desc then ascii ":desc" else ascii ":asc");
}
