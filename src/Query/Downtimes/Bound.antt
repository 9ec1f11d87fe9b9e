-- ===== src/Query/Downtimes/Bound.antt =====
-- The statements of the downtime lists bind a value to each placeholder.
use interface.Prelude.{
  ◌≡◌, refl, Bool, true, false, Option, none, some, List, [], ◌∷◌, ◌++◌, All-append, ℕ_discrete,
}
use interface.Prelude.Int.{ℤ}
use interface.Prelude.Maps.{lookup}
use interface.Text.{Text, ascii, text_dec}
use interface.Query.{Conditions, no_conditions, Page, clause}
use interface.Query.Bound.{marks, IsBound, add-IsBound}
use interface.Query.Search.{Unmarked, add_search-IsBound, add_text-IsBound}
use interface.Query.Statement.{
  IsPlaced, IsWhitelist, IsPlacedPart, sides-IsPlaced, count_of-IsPlaced, page_of-IsPlaced,
}
use interface.Query.Downtimes.{
  DowntimeFilter, running_text, add_running, apply_downtime, host_downtimes, service_downtimes,
  downtime_union, downtime_count, downtime_page,
}
use interface.Query.Downtimes.Columns

add_running-IsBound :
    (want : Option Bool) (now : ℤ) (c : Conditions) → IsBound c → IsBound (add_running want now c)
unfolding add_running
add_running-IsBound none now c b = b
add_running-IsBound (some true) now c b = add-IsBound running_text _ c refl b
add_running-IsBound (some false) now c b = add-IsBound _ _ c refl b

apply_downtime-IsBound :
    (f : DowntimeFilter) (columns : List Text)
    → Unmarked columns
    → IsBound (apply_downtime f columns no_conditions)
unfolding apply_downtime IsBound clause
apply_downtime-IsBound f columns u = add_running-IsBound f.running f.now _ (
    add_search-IsBound f.search (columns ++ ascii "comment_data" ∷ []) _
      (All-append (λ c. marks c ≡ 0) columns (ascii "comment_data" ∷ []) u (refl, tt))
      (add_text-IsBound (ascii "service_description = ?") f.service _ refl
        (add_text-IsBound (ascii "hostname = ?") f.host no_conditions refl refl)))

host_downtimes-IsPlaced :
    (history : Bool) (f : DowntimeFilter) → IsPlacedPart (host_downtimes history f)
host_downtimes-IsPlaced true f = (refl, apply_downtime-IsBound f _ (refl, tt))
host_downtimes-IsPlaced false f = (refl, apply_downtime-IsBound f _ (refl, tt))

service_downtimes-IsPlaced :
    (history : Bool) (f : DowntimeFilter) → IsPlacedPart (service_downtimes history f)
service_downtimes-IsPlaced true f = (refl, apply_downtime-IsBound f _ (refl, (refl, tt)))
service_downtimes-IsPlaced false f = (refl, apply_downtime-IsBound f _ (refl, (refl, tt)))

downtime_union-IsPlaced :
    (history : Bool) (f : DowntimeFilter) → IsPlaced (downtime_union history f)
unfolding downtime_union
downtime_union-IsPlaced history f =
    sides-IsPlaced Columns.empty_downtime_select _ _ (host_downtimes history f)
      (service_downtimes history f) refl (host_downtimes-IsPlaced history f)
      (service_downtimes-IsPlaced history f)

whitelist :
    IsWhitelist Columns.downtime_sort_columns
      (ascii "scheduled_start_time")
      (ascii "scheduled_start_time")
unfolding lookup text_dec ℕ_discrete
whitelist = (refl, (refl, (refl, (refl, (refl, (refl, (refl, (refl, tt))))))), refl)

-- Whatever a request asks for, the count and the page of the current and the past downtimes hand
-- the database as many values as their text has placeholders.
pub downtimes-IsPlaced :
    (history : Bool) (f : DowntimeFilter) (p : Page)
    → IsPlaced (downtime_count history f) × IsPlaced (downtime_page history f p)
unfolding downtime_count downtime_page
downtimes-IsPlaced history f p = (
  count_of-IsPlaced (ascii "d") (downtime_union history f) refl (downtime_union-IsPlaced history f),
  page_of-IsPlaced (ascii "d") Columns.downtime_sort_columns (ascii "scheduled_start_time")
      (ascii "scheduled_start_time") p (downtime_union history f) refl whitelist
      (downtime_union-IsPlaced history f),
)
