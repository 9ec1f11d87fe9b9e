-- ===== src/Http/RequestTests.antt =====
-- The theorems on list requests, at small queries.
use interface.Prelude.{
  ℕ, ◌≡◌, ◌↔◌, refl, true, false, Option, none, some, [], ◌∷◌, if◌then◌else◌, arith, Bool-cases,
  inl, inr, ℕ_discrete,
}
use interface.Prelude.Int.{ℤ, pos, ◌-ℤ◌, wrap64}
use interface.Prelude.Result.{ok, err}
use interface.Text.{Text, ascii, eq, text_dec}
use interface.Text.Trim.{trim_space}
use interface.Query.{Page}
use interface.Query.History.{HistoryFilter}
use interface.Http.Params.{
  Readers, Values, parse_tri_bool, parse_int_list, parse_kind, read_groups, read_time, check_range,
  parse_time_range, required_query,
}
use interface.Http.Params.Windows.{Reads64}
use interface.Http.Params.Numbers.{all_pieces, numbers, answer, parse_int_list-numbers}
use interface.Http.Paging.{
  read_limit, read_offset, read_direction, read_column, read_sort, allowed, sortable_names, sink,
  sink_all, parse_page, page, newest_first,
}
use interface.Http.Paging.Within.{IsWithin}
use interface.Http.Lists.{Setting, list_problems, problem_filter, history_filter}
use interface.Http.Lists.Windowed.{IsClock, IsScoped, history_filter-IsScoped}
use interface.Http.Lists.Pages.{problems, page_asked, sort_columns_of, IsOrdered, pages-IsWithin}
use interface.Http.Answers.{
  ReadError, Detail, Sources, get_detail, SeriesRequest, series_request, read_bounded, labels_of,
}
use interface.Http.Answers.Details.{IsDetail, get_detail-IsDetail_iff}
use interface.Http.Answers.Series.{IsTaken, series_request-IsTaken}

-- a table in place of what reads numbers
abbrev number_of : Text → Option ℤ
number_of v =
    if eq v (ascii "2")
    then some (pos 2)
    else if eq v (ascii "25")
    then some (pos 25)
    else if eq v (ascii "95000")
    then some (pos 95000)
    else none

abbrev readers : Readers
readers = record {
  atoi = number_of;
  parse_int = number_of;
  parse_bool = λ v. none;
  to_lower = λ v. v;
}

readers-Reads64 : Reads64 readers
readers-Reads64 v n h = elim (Bool-cases (eq v (ascii "2"))) [
  | inl two ↦ ground arith
  | inr other ↦ elim (Bool-cases (eq v (ascii "25"))) [
    | inl more ↦ ground arith
    | inr rest ↦ elim (Bool-cases (eq v (ascii "95000"))) [
      | inl last ↦ ground arith
      | inr unknown ↦ absurd (ground arith)
    ]
  ]
]

abbrev states : Values
states name = if eq name (ascii "state") then ascii "2, 25" ∷ ascii "2" ∷ [] else []

parse_int_list-numbers_example :
    parse_int_list readers states (ascii "state") (pos 0) (pos 3)
    ≡ answer readers
        (ascii "state")
        (pos 0)
        (pos 3)
        []
        (numbers readers (ascii "state") (pos 0) (pos 3) (all_pieces (states (ascii "state"))))
parse_int_list-numbers_example =
    parse_int_list-numbers readers states (ascii "state") (pos 0) (pos 3)

abbrev setting : Setting
setting = record {
  readers = readers;
  default_page_size = pos 50;
  max_page_size = pos 500;
  now = pos 100000;
}

setting-IsOrdered : IsOrdered setting
setting-IsOrdered = record { positive = omega arith; ordered = omega arith }

abbrev limited : Values
limited name =
    if eq name (ascii "limit")
    then ascii "25" ∷ []
    else if eq name (ascii "sort")
    then ascii "last_check:desc" ∷ []
    else []

abbrev limited_page : Page
limited_page = record { limit = pos 25; offset = pos 0; sort = ascii "last_check"; desc = true }

limited_ok : page_asked setting limited problems ≡ ok limited_page
unfolding parse_tri_bool page_asked list_problems problem_filter parse_kind page parse_page
    read_limit read_offset read_sort read_direction read_column allowed sortable_names sink_all sink
    newest_first trim_space text_dec ℕ_discrete
limited_ok = refl

pages-IsWithin_example : IsWithin (pos 500) (sort_columns_of problems) limited_page
pages-IsWithin_example =
    pages-IsWithin setting limited problems limited_page setting-IsOrdered limited_ok

late-IsClock : IsClock 100000
late-IsClock = record { past = omega arith; below = omega arith }

abbrev recent : Values
recent name = if eq name (ascii "from") then ascii "95000" ∷ [] else []

abbrev recent_filter : HistoryFilter
recent_filter = record {
  host = [];
  description = [];
  kind = [];
  search = [];
  states = [];
  from = pos 95000;
  to = pos 100000;
  hard_only = false;
  transitions_only = false;
}

recent_ok : history_filter setting recent (pos 3) ≡ ok recent_filter
unfolding history_filter parse_kind parse_int_list read_groups parse_time_range read_time
    check_range wrap64 ◌-ℤ◌ trim_space text_dec ℕ_discrete
recent_ok = refl

history_filter-IsScoped_example : IsScoped recent_filter
history_filter-IsScoped_example =
    history_filter-IsScoped setting recent 100000 (pos 3) recent_filter refl late-IsClock
      readers-Reads64 recent_ok

-- a host that is in a downtime, and not acknowledged
abbrev sources : Sources ℕ ℕ ℕ
sources = record { found = ok 7; for_object = ok (1 ∷ []); latest_for = err ReadError.other }

abbrev detail : Detail ℕ ℕ ℕ
detail = record { row = 7; downtimes = 1 ∷ []; acknowledgement = none }

get_detail-IsDetail_iff_example :
    (get_detail (λ _. true) (λ _. false) sources ≡ ok detail)
    ↔ IsDetail (λ _. true) (λ _. false) sources detail
get_detail-IsDetail_iff_example = get_detail-IsDetail_iff (λ _. true) (λ _. false) sources detail

abbrev charted : Values
charted name =
    if eq name (ascii "host")
    then ascii "db" ∷ []
    else if eq name (ascii "service")
    then ascii "cpu" ∷ []
    else if eq name (ascii "max_points")
    then ascii "25" ∷ []
    else if eq name (ascii "from")
    then ascii "95000" ∷ []
    else []

abbrev chart : SeriesRequest
chart = record {
  query = record {
    hostname = ascii "db";
    description = ascii "cpu";
    from = pos 95000;
    to = pos 100000;
  };
  labels = [];
  max_points = pos 25;
}

chart_ok : series_request setting charted ≡ ok chart
unfolding series_request required_query parse_time_range read_time check_range read_bounded
    labels_of wrap64 ◌-ℤ◌ trim_space text_dec ℕ_discrete
chart_ok = refl

series_request-IsTaken_example : IsTaken chart
series_request-IsTaken_example =
    series_request-IsTaken setting charted 100000 chart refl late-IsClock readers-Reads64 chart_ok
