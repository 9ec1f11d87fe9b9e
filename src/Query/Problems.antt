-- ===== src/Query/Problems.antt =====
-- internal/repository/mysql/problems.go: the statements of the problem list.
pub mod Columns
pub mod Bound
use interface.Prelude.{
  Bool, true, false, not, Option, none, some, List, [], ◌∷◌, ◌++◌, if◌then◌else◌,
}
use interface.Text.{Text, ascii, eq}
use interface.Domain.{Kind, kind_host, kind_service}
use interface.Query.{Conditions, no_conditions, add, add_bool, Page}
use interface.Query.Search.{add_search, add_if}
use interface.Query.Status.{add_choice}
use interface.Query.Statement.{Statement, Part, part_if, union, count_of, page_of}
use Columns

pub record ProblemFilter : Type 0 where
  pub search : Text
  pub kind : Kind
  pub acknowledged : Option Bool
  pub in_downtime : Option Bool
  pub hard_state : Option Bool
  pub flapping : Option Bool
  pub handled : Option Bool
  pub hide_services_of_down_hosts : Bool

-- `ack` and `dt` of `applyCommon`
abbrev pub ack_column : Text → Text
ack_column prefix = prefix ++ ascii "problem_has_been_acknowledged"

abbrev pub downtime_column : Text → Text
downtime_column prefix = prefix ++ ascii "scheduled_downtime_depth"

abbrev pub handled_text : Text → Text
handled_text prefix =
    ascii "("
    ++ (ack_column prefix ++ (ascii " = 1 OR " ++ (downtime_column prefix ++ ascii " > 0)")))

abbrev pub unhandled_text : Text → Text
unhandled_text prefix =
    ack_column prefix ++ (ascii " = 0 AND " ++ (downtime_column prefix ++ ascii " = 0"))

-- `ProblemFilter.applyCommon`
unfoldable pub apply_problem : ProblemFilter → Text → List Text → Conditions → Conditions
apply_problem f prefix columns c =
    add_choice f.handled (handled_text prefix) (unhandled_text prefix) (
      add_choice f.in_downtime (downtime_column prefix ++ ascii " > 0")
        (downtime_column prefix ++ ascii " = 0")
        (add_bool (prefix ++ ascii "is_flapping") f.flapping (
          add_bool (prefix ++ ascii "is_hardstate") f.hard_state
            (add_bool (ack_column prefix) f.acknowledged (add_search f.search columns c)))))

-- what makes a row a problem
abbrev pub problem_conditions : Text → Conditions
problem_conditions prefix =
    add (prefix ++ ascii "last_check > 0") []
      (add (prefix ++ ascii "current_state <> 0") [] no_conditions)

abbrev pub host_problems : ProblemFilter → Part
host_problems f = record {
  select = Columns.host_problem_select;
  conditions = apply_problem f [] (ascii "hostname" ∷ []) (problem_conditions []);
}

abbrev pub service_problems : ProblemFilter → Part
service_problems f = record {
  select = Columns.service_problem_select;
  conditions = add_if f.hide_services_of_down_hosts (ascii "COALESCE(h.current_state, 0) = 0") (
      apply_problem f (ascii "s.") (ascii "s.hostname" ∷ ascii "s.service_description" ∷ [])
        (problem_conditions (ascii "s.")));
}

-- `ProblemFilter.union`
unfoldable pub problem_union : ProblemFilter → Statement
problem_union f = union Columns.empty_problem_select (
    part_if (not (eq f.kind kind_service)) (host_problems f)
    ++ part_if (not (eq f.kind kind_host)) (service_problems f))

-- the two statements of `Problems.List`
unfoldable pub problem_count : ProblemFilter → Statement
problem_count f = count_of (ascii "p") (problem_union f)

unfoldable pub problem_page : ProblemFilter → Page → Statement
problem_page f p =
    page_of (ascii "p") Columns.problem_sort_columns (ascii "severity") p (problem_union f)
