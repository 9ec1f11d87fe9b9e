-- ===== src/Http/Answers/Series.antt =====
-- What the charts are asked for.
use interface.Prelude.{ℕ, ◌≡◌, refl, subst, false, arith, Bool-cases, Option-cases, inl, inr}
use interface.Prelude.Int.{ℤ, pos, ◌≤ℤ◌, ltb_ℤ}
use interface.Prelude.Result.{ok, bind_inv, ok_inj}
use interface.Text.{Text, ascii, is_empty}
use interface.Metrics.{validate_query}
use interface.Http.Params.{
  Readers, Values, get, trimmed, outside, TimeRange, parse_time_range, required_query,
}
use interface.Http.Params.Windows.{Reads64, IsWindow, parse_time_range-IsWindow}
use interface.Http.Lists.{Setting}
use interface.Http.Lists.Windowed.{IsClock}
use interface.Http.Answers.{read_bounded, SeriesRequest, series_request}

read_bounded_lem :
    (s : Readers) (q : Values) (name : Text) (low high default n : ℤ)
    → outside low high default ≡ false
    → read_bounded s q name low high default ≡ ok n
    → (low ≤ℤ n) × (n ≤ℤ high)
unfolding read_bounded
read_bounded_lem s q name low high default n d h = elim (Bool-cases (is_empty (get q name))) [
  | inl absent ↦ let e : n ≡ default = ground arith in rw e (ground arith, ground arith)
  | inr present ↦ elim (Option-cases (s.atoi (get q name))) [
    | inl bad_text ↦ absurd (ground arith)
    | inr (m, read) ↦ elim (Bool-cases (outside low high m)) [
      | inl out ↦ absurd (ground arith)
      | inr within ↦ let e : n ≡ m = ground arith in rw e (ground arith, ground arith)
    ]
  ]
]

required_query_lem :
    (q : Values) (name v : Text) → required_query q name ≡ ok v → is_empty v ≡ false
unfolding required_query
required_query_lem q name v h = elim (Bool-cases (is_empty (trimmed q name))) [
  | inl missing ↦ absurd (ground arith)
  | inr given ↦ let e : v ≡ trimmed q name = ground arith in rw e given
]

-- A request that the providers take: its query is valid, its window is at most 366 days, and it asks
-- for 10 to 5000 points.
pub record IsTaken (r : SeriesRequest) : Type 0 where
  pub valid : validate_query r.query ≡ ok tt
  pub window : IsWindow 31622400 (record { from = r.query.from; to = r.query.to })
  pub at_least : pos 10 ≤ℤ r.max_points
  pub at_most : r.max_points ≤ℤ pos 5000

valid_of :
    (host service : Text) (tr : TimeRange)
    → is_empty host ≡ false
    → is_empty service ≡ false
    → IsWindow 31622400 tr
    → validate_query (record { hostname = host; description = service; from = tr.from; to = tr.to })
      ≡ ok tt
valid_of host service tr h k (a, b, from_is, to_is, ordered, _) =
    let later : ltb_ℤ tr.to tr.from ≡ false = ground arith in
    unfold validate_query in rw (h, k, later) refl

-- A chart that a request asks for is one that the providers take: it passes `Validate`, its window is
-- at most 366 days, and it has 10 to 5000 points. The clock is past a day.
pub series_request-IsTaken :
    (s : Setting) (q : Values) (now : ℕ) (r : SeriesRequest)
    → s.now ≡ pos now
    → IsClock now
    → Reads64 s.readers
    → series_request s q ≡ ok r
    → IsTaken r
unfolding series_request
series_request-IsTaken s q now r clock c reads h =
    let (host, named, h1) = bind_inv (required_query q (ascii "host")) _ r h in
    let (service, described, h2) = bind_inv (required_query q (ascii "service")) _ r h1 in
    let (tr, ranged, h3) = bind_inv (parse_time_range s.readers q s.now 21600 31622400) _ r h2 in
    let (points, counted, h4) =
      bind_inv (read_bounded s.readers q (ascii "max_points") (pos 10) (pos 5000) (pos 500)) _ r
        h3 in
    let (low, high) =
      read_bounded_lem s.readers q (ascii "max_points") (pos 10) (pos 5000) (pos 500) points refl
        counted in
    let window : IsWindow 31622400 tr =
      parse_time_range-IsWindow s.readers q now 21600 31622400 tr reads (omega (arith, c.past))
        c.below (subst (λ n. parse_time_range s.readers q n 21600 31622400 ≡ ok tr) clock ranged) in
    subst IsTaken (ok_inj _ r h4) (record {
      valid =
          valid_of host service tr (required_query_lem q (ascii "host") host named)
            (required_query_lem q (ascii "service") service described) window;
      window = window;
      at_least = low;
      at_most = high;
    })
