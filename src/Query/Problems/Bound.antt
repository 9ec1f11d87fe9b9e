-- ===== src/Query/Problems/Bound.antt =====
-- The statements of the problem list bind a value to each placeholder.
use interface.Prelude.{◌≡◌, refl, List, [], ◌++◌, arith, ℕ_discrete}
use interface.Prelude.Maps.{lookup}
use interface.Text.{Text, ascii, text_dec}
use interface.Query.{Conditions, no_conditions, Page, clause}
use interface.Query.Bound.{marks, marks-append, IsBound, add-IsBound, add_bool-IsBound}
use interface.Query.Search.{Unmarked, add_search-IsBound, add_if-IsBound}
use interface.Query.Status.Bound.{add_choice-IsBound}
use interface.Query.Statement.{
  IsPlaced, IsWhitelist, sides-IsPlaced, count_of-IsPlaced, page_of-IsPlaced,
}
use interface.Query.Problems.{
  ProblemFilter, ack_column, downtime_column, handled_text, unhandled_text, apply_problem,
  problem_conditions, host_problems, service_problems, problem_union, problem_count, problem_page,
}
use interface.Query.Problems.Columns

prefixed : (prefix s : Text) → marks prefix ≡ 0 → marks s ≡ 0 → marks (prefix ++ s) ≡ 0
prefixed prefix s h k = omega (arith, h, k, marks-append prefix s)

handled_text-marks : (prefix : Text) → marks prefix ≡ 0 → marks (handled_text prefix) ≡ 0
handled_text-marks prefix h =
    let dt = downtime_column prefix ++ ascii " > 0)" in
    omega (
      arith,
      prefixed prefix (ascii "problem_has_been_acknowledged") h refl,
      prefixed prefix (ascii "scheduled_downtime_depth") h refl,
      marks-append (ack_column prefix) (ascii " = 1 OR " ++ dt),
      marks-append (ascii " = 1 OR ") dt,
      marks-append (downtime_column prefix) (ascii " > 0)"),
    )

unhandled_text-marks : (prefix : Text) → marks prefix ≡ 0 → marks (unhandled_text prefix) ≡ 0
unhandled_text-marks prefix h =
    let dt = downtime_column prefix ++ ascii " = 0" in
    omega (
      arith,
      prefixed prefix (ascii "problem_has_been_acknowledged") h refl,
      prefixed prefix (ascii "scheduled_downtime_depth") h refl,
      marks-append (ack_column prefix) (ascii " = 0 AND " ++ dt),
      marks-append (ascii " = 0 AND ") dt,
      marks-append (downtime_column prefix) (ascii " = 0"),
    )

apply_problem-IsBound :
    (f : ProblemFilter) (prefix : Text) (columns : List Text) (c : Conditions)
    → marks prefix ≡ 0
    → Unmarked columns
    → IsBound c
    → IsBound (apply_problem f prefix columns c)
unfolding apply_problem
apply_problem-IsBound f prefix columns c h u b =
    let dt = prefixed prefix (ascii "scheduled_downtime_depth") h refl in
    add_choice-IsBound f.handled _ _ _ (handled_text-marks prefix h) (unhandled_text-marks prefix h)
      (add_choice-IsBound f.in_downtime _ _ _
        (prefixed (downtime_column prefix) (ascii " > 0") dt refl)
        (prefixed (downtime_column prefix) (ascii " = 0") dt refl)
        (add_bool-IsBound _ f.flapping _ (prefixed prefix (ascii "is_flapping") h refl) (
          add_bool-IsBound _ f.hard_state _ (prefixed prefix (ascii "is_hardstate") h refl) (
            add_bool-IsBound _ f.acknowledged _
              (prefixed prefix (ascii "problem_has_been_acknowledged") h refl)
              (add_search-IsBound f.search columns c u b)))))

problem_conditions-IsBound :
    (prefix : Text) → marks prefix ≡ 0 → IsBound (problem_conditions prefix)
unfolding IsBound clause
problem_conditions-IsBound prefix h =
    add-IsBound _ [] _ (prefixed prefix (ascii "last_check > 0") h refl)
      (add-IsBound _ [] no_conditions (prefixed prefix (ascii "current_state <> 0") h refl) refl)

problem_union-IsPlaced : (f : ProblemFilter) → IsPlaced (problem_union f)
unfolding problem_union
problem_union-IsPlaced f =
    sides-IsPlaced Columns.empty_problem_select _ _ (host_problems f) (service_problems f) refl
      (refl, apply_problem-IsBound f [] _ _ refl (refl, tt) (problem_conditions-IsBound [] refl))
      (
        refl,
        add_if-IsBound f.hide_services_of_down_hosts _ _ refl (
            apply_problem-IsBound f (ascii "s.") _ _ refl (refl, (refl, tt))
              (problem_conditions-IsBound (ascii "s.") refl)),
      )

whitelist : IsWhitelist Columns.problem_sort_columns (ascii "severity") (ascii "severity")
unfolding lookup text_dec ℕ_discrete
whitelist = (refl, (refl, (refl, (refl, (refl, (refl, (refl, (refl, tt))))))), refl)

-- Whatever a request asks for, the count and the page of the problems hand the database as many
-- values as their text has placeholders.
pub problems-IsPlaced :
    (f : ProblemFilter) (p : Page) → IsPlaced (problem_count f) × IsPlaced (problem_page f p)
unfolding problem_count problem_page
problems-IsPlaced f p = (
  count_of-IsPlaced (ascii "p") (problem_union f) refl (problem_union-IsPlaced f),
  page_of-IsPlaced (ascii "p") Columns.problem_sort_columns (ascii "severity") (ascii "severity") p
      (problem_union f) refl whitelist (problem_union-IsPlaced f),
)
