-- ===== src/Query/Tests.antt =====
-- The theorems on queries, at the hosts' columns.
use interface.Prelude.{
  ℕ, All, ◌≡◌, ◌↔◌, refl, true, false, some, List, [], ◌∷◌, ◌++◌, ℕ_discrete, In,
}
use interface.Prelude.Int.{ℤ, pos, negsuc}
use interface.Prelude.Maps.{lookup}
use interface.Text.{Text, ascii, text_dec}
use interface.Query.{no_conditions, clause, direction, order_by, like_escape}
use interface.Query.Bound.{IsBound}
use interface.Query.Ordering.{names, tiebreaker, order_by-whitelisted}
use interface.Query.Like.{IsLike, like_escape-IsLike_iff}
use interface.Prelude.Counts.{sum_counts}
use interface.Query.{Page}
use interface.Query.Statement.{IsPlaced}
use interface.Query.History.{HistoryFilter, checks, history_sides}
use interface.Query.History.Windows.{IsWindowed, time_of, history_sides-IsWindowed}
use interface.Query.Lists.{history, count_statement, page_statement, statements-IsPlaced}
use interface.Query.Summary.{host_state_names, by_state}
use interface.Query.Summary.Adding.{by_state-sum}

empty-IsBound : IsBound no_conditions
unfolding IsBound clause
empty-IsBound = refl

abbrev columns : List (Text × Text)
columns = (ascii "host", ascii "h.hostname") ∷ (ascii "state", ascii "h.state") ∷ []

has_fallback : lookup text_dec (ascii "host") columns ≡ some (ascii "h.hostname")
unfolding lookup text_dec ℕ_discrete
has_fallback = refl

order_by-whitelisted_example :
    (expr : Text) × In expr (names columns)
    × (order_by (ascii "1; DROP") true columns (ascii "host")
        ≡ ascii " ORDER BY "
          ++ (expr ++ (ascii " " ++ (direction true ++ tiebreaker expr (ascii "h.hostname")))))
order_by-whitelisted_example =
    order_by-whitelisted (ascii "1; DROP") (ascii "host") (ascii "h.hostname") true columns
      has_fallback

like_escape-IsLike_iff_example :
    IsLike (ascii "disk_full") (like_escape (ascii "k_f"))
    ↔ ((pre : Text) × (post : Text) × (ascii "disk_full" ≡ pre ++ (ascii "k_f" ++ post)))
like_escape-IsLike_iff_example = like_escape-IsLike_iff (ascii "k_f") (ascii "disk_full")

abbrev recent : HistoryFilter
recent = record {
  host = [];
  description = [];
  kind = [];
  search = ascii "disk";
  states = pos 1 ∷ [];
  from = pos 3600;
  to = pos 7200;
  hard_only = true;
  transitions_only = false;
}

abbrev first_page : Page
first_page = record { limit = pos 50; offset = pos 0; sort = ascii "state"; desc = true }

statements-IsPlaced_example :
    IsPlaced (count_statement (history checks recent))
    × IsPlaced (page_statement (history checks recent) first_page)
statements-IsPlaced_example = statements-IsPlaced (history checks recent) first_page

history_sides-IsWindowed_example :
    All (λ p. IsWindowed recent (time_of checks) p.conditions) (history_sides checks recent)
history_sides-IsWindowed_example = history_sides-IsWindowed checks recent

-- two hosts are down, and one is in a state that has no name
abbrev counted : List (ℤ × ℕ)
counted = (pos 0, 5) ∷ (pos 1, 2) ∷ (negsuc 0, 1) ∷ []

by_state-sum_example : sum_counts (by_state host_state_names counted) ≡ sum_counts counted
by_state-sum_example = by_state-sum host_state_names counted
