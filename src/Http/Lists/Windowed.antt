-- ===== src/Http/Lists/Windowed.antt =====
-- The window of a history list: how long it may be depends on whether a host is named.
use interface.Prelude.{ℕ, ◌+◌, ◌≤◌, ◌<◌, ◌^◌, ◌≡◌, refl, subst, true, [], ◌∷◌, arith, if◌then◌else◌}
use interface.Prelude.Int.{ℤ, pos}
use interface.Prelude.Result.{ok, bind_inv, ok_inj}
use interface.Text.{Text, ascii, is_empty}
use interface.Query.History.{HistoryFilter}
use interface.Http.Params.{Values, trimmed, parse_int_list, parse_kind, TimeRange, parse_time_range}
use interface.Http.Params.Windows.{Reads64, parse_time_range-IsWindow}
use interface.Http.Lists.{Setting, check_service, default_window, longest_window, history_filter}

-- A clock that is past the longest default window, below the bound of an `int64`.
pub record IsClock (now : ℕ) : Type 0 where
  pub past : 86400 ≤ now
  pub below : now < 2 ^ 63

abbrev pub window_of : HistoryFilter → TimeRange
window_of f = record { from = f.from; to = f.to }

-- What a history list may read: a service with its host, and at most six hours, unless a host is
-- named, for which it is 90 days.
pub record IsScoped (f : HistoryFilter) : Type 0 where
  pub service_has_host : is_empty f.host ≡ true → f.description ≡ []
  pub window :
      (a : ℕ) × (b : ℕ) × (f.from ≡ pos a)
      × (f.to ≡ pos b)
      × (a ≤ b)
      × (b ≤ (if is_empty f.host then 21600 else 7776000) + a)

default_of : (host : Text) → default_window host ≤ 86400
default_of [] = omega arith
default_of (b ∷ bs) = omega arith

empty_of : (t : Text) → is_empty t ≡ true → t ≡ []
empty_of [] h = refl
empty_of (b ∷ bs) h = absurd (ground arith)

longest_positive : (host : Text) → 0 < longest_window host
longest_positive [] = omega arith
longest_positive (b ∷ bs) = omega arith

service_of :
    (q : Values) (u : Unit {0})
    → check_service q ≡ ok u
    → is_empty (trimmed q (ascii "host")) ≡ true
    → trimmed q (ascii "service") ≡ []
service_of q u named h = empty_of (trimmed q (ascii "service")) (ground arith)

-- The filter of a history list, of checks, state changes and notifications alike, is for at most six
-- hours unless the request names a host, and then for at most 90 days; a service is named with its
-- host. The clock is past a day.
pub history_filter-IsScoped :
    (s : Setting) (q : Values) (now : ℕ) (max_state : ℤ) (f : HistoryFilter)
    → s.now ≡ pos now
    → IsClock now
    → Reads64 s.readers
    → history_filter s q max_state ≡ ok f
    → IsScoped f
unfolding history_filter
history_filter-IsScoped s q now max_state f clock c r h =
    let host = trimmed q (ascii "host") in
    let (u, named, h1) = bind_inv (check_service q) _ f h in
    let (kind, _, h2) = bind_inv (parse_kind q) _ f h1 in
    let (states, _, h3) =
      bind_inv (parse_int_list s.readers q (ascii "state") (pos 0) max_state) _ f h2 in
    let (tr, ranged, h4) =
      bind_inv (parse_time_range s.readers q s.now (default_window host) (longest_window host)) _ f
        h3 in
    let (a, b, from_is, to_is, ordered, within) =
      parse_time_range-IsWindow s.readers q now (default_window host) (longest_window host) tr r
        (omega (arith, default_of host, c.past)) c.below
        (subst
          (λ n. parse_time_range s.readers q n (default_window host) (longest_window host) ≡ ok tr)
          clock ranged) in
    let near : b ≤ longest_window host + a =
      omega (arith, ordered, within (longest_positive host)) in
    subst IsScoped (ok_inj _ f h4) (record {
      service_has_host = service_of q u named;
      window = (a, b, from_is, to_is, ordered, near);
    })
