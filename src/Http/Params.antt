-- ===== src/Http/Params.antt =====
-- internal/httpapi/params.go: the parameters of a request's query. What `strconv` and `strings` read
-- of a text is a parameter.
pub mod Windows
pub mod Numbers
use interface.Prelude.{
  ℕ, Bool, true, false, ◌||◌, Option, none, some, List, [], ◌∷◌, ◌++◌, if◌then◌else◌,
}
use interface.Prelude.Int.{ℤ, pos, ◌-ℤ◌, ltb_ℤ, wrap64}
use interface.Prelude.Result.{Result, ok, err, ◌>>=◌, ◌>>◌}
use interface.Text.{Text, ascii, is_empty, eq, split}
use interface.Text.Trim.{trim_space}
use interface.Domain.{Kind, kind_host, kind_service}
use interface.Http.{ApiError, bad_request, invalid_filter}

-- `strconv.Atoi`, `strconv.ParseInt` to the base 10 for 64 bits, `strconv.ParseBool` and
-- `strings.ToLower`
pub record Readers : Type 0 where
  pub atoi : Text → Option ℤ
  pub parse_int : Text → Option ℤ
  pub parse_bool : Text → Option Bool
  pub to_lower : Text → Text

-- `url.Values`: the values that a name has
abbrev pub Values : Type 0
Values = Text → List Text

-- `Values.Get`
abbrev pub first_of : List Text → Text
first_of [] = []
first_of (v ∷ vs) = v

abbrev pub get : Values → Text → Text
get q name = first_of (q name)

abbrev pub trimmed : Values → Text → Text
trimmed q name = trim_space (get q name)

-- a refusal that names the parameter
abbrev pub bad : Text → ApiError
bad name = record { code = bad_request; field = name }

abbrev pub bad_filter : Text → ApiError
bad_filter name = record { code = invalid_filter; field = name }

-- `parseTriBool`
unfoldable pub parse_tri_bool : Readers → Values → Text → Result ApiError (Option Bool)
parse_tri_bool s q name =
    if is_empty (get q name)
    then ok none
    else elim (s.parse_bool (get q name)) [ none ↦ err (bad name) | some v ↦ ok (some v) ]

abbrev pub outside : ℤ → ℤ → ℤ → Bool
outside low high n = ltb_ℤ n low || ltb_ℤ high n

module _ (s : Readers) (name : Text) (low high : ℤ) where
  -- one number, checked
  unfoldable pub read_number : Text → List ℤ → Result ApiError (List ℤ)
  read_number part out = elim (s.atoi part) [
    | none ↦ err (bad_filter name)
    | some n ↦ if outside low high n then err (bad_filter name) else ok (out ++ n ∷ [])
  ]

  -- one turn of the inner loop
  unfoldable pub read_part : Text → List ℤ → Result ApiError (List ℤ)
  read_part part out =
      if is_empty (trim_space part) then ok out else read_number (trim_space part) out

  unfoldable pub read_parts : List Text → List ℤ → Result ApiError (List ℤ)
  read_parts [] out = ok out
  read_parts (p ∷ ps) out = read_part p out >>= λ more. read_parts ps more

  unfoldable pub read_groups : List Text → List ℤ → Result ApiError (List ℤ)
  read_groups [] out = ok out
  read_groups (g ∷ gs) out = read_parts (split b',' g) out >>= λ more. read_groups gs more

-- `parseIntList`; no value at all is the empty list that `read_groups` gives as well
unfoldable pub parse_int_list : Readers → Values → Text → ℤ → ℤ → Result ApiError (List ℤ)
parse_int_list s q name low high = read_groups s name low high (q name) []

pub record TimeRange : Type 0 where
  pub from : ℤ
  pub to : ℤ

-- a Unix time, or what stands for it if the parameter is not there
unfoldable pub read_time : Readers → Values → Text → ℤ → Result ApiError ℤ
read_time s q name default =
    if is_empty (get q name) then ok default else elim (s.parse_int (get q name)) [
      | none ↦ err (bad name)
      | some n ↦ if ltb_ℤ n (pos 0) then err (bad name) else ok n
    ]

abbrev pub too_wide : ℕ → ℤ → ℤ → Bool
too_wide max_window from to =
    if ltb_ℤ (pos 0) (pos max_window) then ltb_ℤ (pos max_window) (wrap64 (to -ℤ from)) else false

-- what `parseTimeRange` checks of the two times
unfoldable pub check_range : ℕ → TimeRange → Result ApiError TimeRange
check_range max_window tr =
    if ltb_ℤ tr.to tr.from
    then err (bad (ascii "to"))
    else if too_wide max_window tr.from tr.to
    then err (bad (ascii "from"))
    else ok tr

-- `parseTimeRange` at the time `now`; the two windows are in seconds
unfoldable pub parse_time_range : Readers → Values → ℤ → ℕ → ℕ → Result ApiError TimeRange
parse_time_range s q now default_window max_window = do
  from ← read_time s q (ascii "from") (wrap64 (now -ℤ pos default_window))
  to ← read_time s q (ascii "to") now
  check_range max_window (record { from = from; to = to })

-- `requiredQuery`
unfoldable pub required_query : Values → Text → Result ApiError Text
required_query q name = if is_empty (trimmed q name) then err (bad name) else ok (trimmed q name)

-- internal/httpapi/handlers_monitoring.go: `parseKind`
unfoldable pub parse_kind : Values → Result ApiError Kind
parse_kind q =
    let v = get q (ascii "kind") in
    if is_empty v
    then ok []
    else if eq v kind_host
    then ok kind_host
    else if eq v kind_service
    then ok kind_service
    else err (bad_filter (ascii "kind"))
