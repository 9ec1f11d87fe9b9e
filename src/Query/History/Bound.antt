-- ===== src/Query/History/Bound.antt =====
-- The statements of the history lists bind a value to each placeholder.
use interface.Prelude.{◌≡◌, refl, Bool, true, false, List, [], ◌∷◌, ◌++◌, arith, ℕ_discrete}
use interface.Prelude.Maps.{lookup}
use interface.Text.{Text, ascii, text_dec}
use interface.Query.{int_value, Conditions, no_conditions, add, add_in, Page, clause}
use interface.Query.Bound.{marks, marks-append, IsBound, add-IsBound, add_in-IsBound}
use interface.Query.Search.{
  Unmarked, add_search-IsBound, add_text-IsBound, add_if-IsBound, add_text,
}
use interface.Query.Statement.{
  IsPlaced, IsWhitelist, sides-IsPlaced, count_of-IsPlaced, page_of-IsPlaced,
}
use interface.Query.History
use interface.Query.History.{
  HistoryFilter, apply_time, apply_hard_only, apply_object, apply_common, object_conditions,
  check_union, state_union, notification_union, Listing, checks, state_changes, notifications,
  history_union, history_count, history_page, transitions,
}
use interface.Query.History.Columns

empty-IsBound : IsBound no_conditions
unfolding IsBound clause
empty-IsBound = refl

apply_time-IsBound :
    (f : HistoryFilter) (column : Text) (c : Conditions)
    → marks column ≡ 0
    → IsBound c
    → IsBound (apply_time f column c)
unfolding apply_time
apply_time-IsBound f column c h b =
    add-IsBound (column ++ ascii " <= ?") (int_value f.to ∷ [])
      (add (column ++ ascii " >= ?") (int_value f.from ∷ []) c)
      (omega (arith, h, marks-append column (ascii " <= ?")))
      (add-IsBound (column ++ ascii " >= ?") (int_value f.from ∷ []) c
        (omega (arith, h, marks-append column (ascii " >= ?"))) b)

apply_object-IsBound :
    (f : HistoryFilter) (is_service : Bool) (c : Conditions)
    → IsBound c
    → IsBound (apply_object f is_service c)
unfolding apply_object
apply_object-IsBound f false c b = add_text-IsBound (ascii "hostname = ?") f.host c refl b
apply_object-IsBound f true c b =
    add_text-IsBound (ascii "service_description = ?") f.description
      (add_text (ascii "hostname = ?") f.host c) refl
      (add_text-IsBound (ascii "hostname = ?") f.host c refl b)

object_conditions-IsBound :
    (f : HistoryFilter) (time : Text) (is_service : Bool) (columns : List Text)
    → marks time ≡ 0
    → Unmarked columns
    → IsBound (object_conditions f time is_service columns)
unfolding apply_common
object_conditions-IsBound f time is_service columns h u =
    let timed = apply_time f time no_conditions in
    let named = apply_object f is_service timed in
    add_search-IsBound f.search columns (add_in (ascii "state") f.states named) u (
      add_in-IsBound (ascii "state") f.states named refl (
        apply_object-IsBound f is_service timed
          (apply_time-IsBound f time no_conditions h empty-IsBound)))

hard-IsBound : (f : HistoryFilter) (c : Conditions) → IsBound c → IsBound (apply_hard_only f c)
unfolding apply_hard_only
hard-IsBound f c b = add_if-IsBound f.hard_only (ascii "is_hardstate = 1") c refl b

transitions-IsBound : (f : HistoryFilter) (c : Conditions) → IsBound c → IsBound (transitions f c)
transitions-IsBound f c b = add_if-IsBound f.transitions_only (ascii "state_change = 1") c refl b

abbrev object_columns : Bool → Text → List Text
object_columns b x = ascii "hostname" ∷ ascii "output" ∷ []

check_union-IsPlaced : (f : HistoryFilter) → IsPlaced (check_union f)
unfolding check_union
check_union-IsPlaced f =
    sides-IsPlaced Columns.empty_check_select _ _ (History.host_checks f) (History.service_checks f)
      refl
      (
        refl,
        hard-IsBound f _
            (object_conditions-IsBound f (ascii "start_time") false _ refl (refl, (refl, tt))),
      )
      (
        refl,
        hard-IsBound f _ (
            object_conditions-IsBound f (ascii "start_time") true _ refl
              (refl, (refl, (refl, tt)))),
      )

state_union-IsPlaced : (f : HistoryFilter) → IsPlaced (state_union f)
unfolding state_union
state_union-IsPlaced f =
    sides-IsPlaced Columns.empty_state_select _ _ (History.host_states f) (History.service_states f)
      refl
      (
        refl,
        transitions-IsBound f _ (
            hard-IsBound f _
              (object_conditions-IsBound f (ascii "state_time") false _ refl (refl, (refl, tt)))),
      )
      (
        refl,
        transitions-IsBound f _ (
            hard-IsBound f _ (
              object_conditions-IsBound f (ascii "state_time") true _ refl
                (refl, (refl, (refl, tt))))),
      )

notification_union-IsPlaced : (f : HistoryFilter) → IsPlaced (notification_union f)
unfolding notification_union
notification_union-IsPlaced f =
    sides-IsPlaced Columns.empty_notification_select _ _ (History.host_notifications f)
      (History.service_notifications f) refl
      (
        refl,
        object_conditions-IsBound f (ascii "start_time") false _ refl (refl, (refl, (refl, tt))),
      )
      (
        refl,
        object_conditions-IsBound f (ascii "start_time") true _ refl
            (refl, (refl, (refl, (refl, tt)))),
      )

history_union-IsPlaced : (l : Listing) (f : HistoryFilter) → IsPlaced (history_union l f)
history_union-IsPlaced checks f = check_union-IsPlaced f
history_union-IsPlaced state_changes f = state_union-IsPlaced f
history_union-IsPlaced notifications f = notification_union-IsPlaced f

check-IsWhitelist : IsWhitelist Columns.check_sort_columns (ascii "start_time") (ascii "start_time")
unfolding lookup text_dec ℕ_discrete
check-IsWhitelist = (refl, (refl, (refl, (refl, (refl, (refl, (refl, tt)))))), refl)

state_change-IsWhitelist :
    IsWhitelist Columns.state_change_sort_columns (ascii "state_time") (ascii "state_time")
unfolding lookup text_dec ℕ_discrete
state_change-IsWhitelist = (refl, (refl, (refl, (refl, (refl, tt)))), refl)

notification-IsWhitelist :
    IsWhitelist Columns.notification_sort_columns (ascii "start_time") (ascii "start_time")
unfolding lookup text_dec ℕ_discrete
notification-IsWhitelist = (refl, (refl, (refl, (refl, (refl, (refl, tt))))), refl)

-- Whatever a request asks for, the count and the page of each history list hand the database as
-- many values as their text has placeholders.
pub history-IsPlaced :
    (l : Listing) (f : HistoryFilter) (p : Page)
    → IsPlaced (history_count l f) × IsPlaced (history_page l f p)
unfolding history_count history_page
history-IsPlaced checks f p = (
  count_of-IsPlaced (ascii "x") (check_union f) refl (check_union-IsPlaced f),
  page_of-IsPlaced (ascii "c") Columns.check_sort_columns (ascii "start_time") (ascii "start_time")
      p (check_union f) refl check-IsWhitelist (check_union-IsPlaced f),
)
history-IsPlaced state_changes f p = (
  count_of-IsPlaced (ascii "x") (state_union f) refl (state_union-IsPlaced f),
  page_of-IsPlaced (ascii "s") Columns.state_change_sort_columns (ascii "state_time")
      (ascii "state_time") p (state_union f) refl state_change-IsWhitelist (state_union-IsPlaced f),
)
history-IsPlaced notifications f p = (
  count_of-IsPlaced (ascii "x") (notification_union f) refl (notification_union-IsPlaced f),
  page_of-IsPlaced (ascii "n") Columns.notification_sort_columns (ascii "start_time")
      (ascii "start_time") p (notification_union f) refl notification-IsWhitelist
      (notification_union-IsPlaced f),
)
