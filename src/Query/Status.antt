-- ===== src/Query/Status.antt =====
-- internal/repository/mysql: `StatusFilter` of filters.go, and the lists of hosts.go and
-- services.go.
pub mod Columns
pub mod Bound
use interface.Prelude.{Bool, true, false, Option, none, some, List, [], ◌∷◌, ◌++◌, if◌then◌else◌}
use interface.Prelude.Int.{ℤ, pos}
use interface.Prelude.Maps.{lookup}
use interface.Text.{Text, ascii}
use interface.Query.{
  int_value, Conditions, no_conditions, add, add_bool, add_in, clause, order_by, Page, limit_clause,
  limit_args,
}
use interface.Query.Search.{add_search, add_text}
use interface.Query.Statement.{Statement}
use Columns

pub record StatusFilter : Type 0 where
  pub search : Text
  pub host : Text
  pub states : List ℤ
  pub acknowledged : Option Bool
  pub in_downtime : Option Bool
  pub flapping : Option Bool
  pub notifications_enabled : Option Bool
  pub active_checks_enabled : Option Bool
  pub hard_state : Option Bool
  pub passive : Option Bool
  pub problems_only : Bool
  pub handled : Option Bool

-- one of two expressions, if the caller asked
unfoldable pub add_choice : Option Bool → Text → Text → Conditions → Conditions
add_choice none on off c = c
add_choice (some want) on off c = if want then add on [] c else add off [] c

unfoldable pub add_problems : Bool → ℤ → Conditions → Conditions
add_problems only ok_state c =
    if only then add (ascii "current_state <> ?") (int_value ok_state ∷ []) c else c

-- the flags that are columns of their own
unfoldable pub add_flags : StatusFilter → Conditions → Conditions
add_flags f c = add_bool (ascii "is_passive_check") f.passive (
    add_bool (ascii "is_hardstate") f.hard_state (
      add_bool (ascii "active_checks_enabled") f.active_checks_enabled (
        add_bool (ascii "notifications_enabled") f.notifications_enabled (
          add_bool (ascii "is_flapping") f.flapping
            (add_bool (ascii "problem_has_been_acknowledged") f.acknowledged c)))))

-- `StatusFilter.apply`
unfoldable pub apply_status : StatusFilter → List Text → ℤ → Conditions → Conditions
apply_status f columns ok_state c =
    add_choice f.handled
      (ascii "(problem_has_been_acknowledged = 1 OR scheduled_downtime_depth > 0)")
      (ascii "problem_has_been_acknowledged = 0 AND scheduled_downtime_depth = 0")
      (add_choice f.in_downtime (ascii "scheduled_downtime_depth > 0")
        (ascii "scheduled_downtime_depth = 0")
        (add_flags f (
          add_problems f.problems_only ok_state (
            add_in (ascii "current_state") f.states
              (add_search f.search columns (add_text (ascii "hostname = ?") f.host c))))))

-- which of the two tables is listed
pub data Table : Type 0 where
  host_table service_table : Table

abbrev pub search_columns : Table → List Text
search_columns host_table = ascii "hostname" ∷ []
search_columns service_table = ascii "hostname" ∷ ascii "service_description" ∷ []

abbrev pub status_table : Table → Text
status_table host_table = ascii "statusengine_hoststatus"
status_table service_table = ascii "statusengine_servicestatus"

abbrev pub list_columns : Table → Text
list_columns host_table = Columns.host_list_columns
list_columns service_table = Columns.service_list_columns

abbrev pub status_sort_columns : Table → List (Text × Text)
status_sort_columns host_table = Columns.host_sort_columns
status_sort_columns service_table = Columns.service_sort_columns

abbrev pub status_conditions : Table → StatusFilter → Conditions
status_conditions t f = apply_status f (search_columns t) (pos 0) no_conditions

-- the count of `Hosts.List` and `Services.List`
unfoldable pub status_count : Table → StatusFilter → Statement
status_count t f = record {
  text = ascii "SELECT COUNT(*) FROM " ++ (status_table t ++ clause (status_conditions t f));
  args = (status_conditions t f).args;
}

-- their page
unfoldable pub status_page : Table → StatusFilter → Page → Statement
status_page t f p = record {
  text =
      ascii "SELECT "
      ++ (list_columns t
          ++ (ascii " FROM "
              ++ (status_table t
                  ++ (clause (status_conditions t f)
                      ++ (order_by p.sort p.desc (status_sort_columns t) (ascii "hostname")
                          ++ limit_clause)))));
  args = (status_conditions t f).args ++ limit_args p;
}
