-- ===== src/Query/History.antt =====
-- internal/repository/mysql/history.go: the statements of the check, state-change and notification
-- lists.
pub mod Columns
pub mod Windows
pub mod Bound
use interface.Prelude.{Bool, true, false, not, ◌&&◌, List, [], ◌∷◌, ◌++◌, if◌then◌else◌}
use interface.Prelude.Int.{ℤ}
use interface.Text.{Text, ascii, is_empty, eq}
use interface.Domain.{Kind, kind_host, kind_service}
use interface.Query.{Value, int_value, Conditions, no_conditions, add, add_in, Page}
use interface.Query.Search.{add_search, add_text, add_if}
use interface.Query.Statement.{Statement, Part, part_if, union, count_of, page_of}
use Columns

pub record HistoryFilter : Type 0 where
  pub host : Text
  pub description : Text
  pub kind : Kind
  pub search : Text
  pub states : List ℤ
  pub from : ℤ
  pub to : ℤ
  pub hard_only : Bool
  pub transitions_only : Bool

unfoldable pub scoped : HistoryFilter → Bool
scoped f = not (is_empty f.host)

unfoldable pub apply_time : HistoryFilter → Text → Conditions → Conditions
apply_time f column c =
    add (column ++ ascii " <= ?") (int_value f.to ∷ [])
      (add (column ++ ascii " >= ?") (int_value f.from ∷ []) c)

unfoldable pub apply_hard_only : HistoryFilter → Conditions → Conditions
apply_hard_only f c = add_if f.hard_only (ascii "is_hardstate = 1") c

unfoldable pub apply_object : HistoryFilter → Bool → Conditions → Conditions
apply_object f is_service c =
    let named = add_text (ascii "hostname = ?") f.host c in
    if is_service then add_text (ascii "service_description = ?") f.description named else named

unfoldable pub apply_common : HistoryFilter → List Text → Conditions → Conditions
apply_common f columns c = add_search f.search columns (add_in (ascii "state") f.states c)

-- whether the host table is read, and the service table
abbrev pub reads_hosts : HistoryFilter → Bool
reads_hosts f = not (eq f.kind kind_service) && is_empty f.description

abbrev pub reads_services : HistoryFilter → Bool
reads_services f = not (eq f.kind kind_host)

-- the conditions that the three tables of an object share
abbrev pub object_conditions : HistoryFilter → Text → Bool → List Text → Conditions
object_conditions f time is_service columns =
    apply_common f columns (apply_object f is_service (apply_time f time no_conditions))

abbrev pub select_from : Text → Text → Text
select_from columns table = ascii "SELECT " ++ (columns ++ (ascii " FROM " ++ table))

abbrev pub host_checks : HistoryFilter → Part
host_checks f = record {
  select = select_from Columns.host_check_columns (ascii "statusengine_hostchecks");
  conditions =
      apply_hard_only f
        (object_conditions f (ascii "start_time") false (ascii "hostname" ∷ ascii "output" ∷ []));
}

abbrev pub service_checks : HistoryFilter → Part
service_checks f = record {
  select = select_from Columns.service_check_columns (ascii "statusengine_servicechecks");
  conditions = apply_hard_only f (
      object_conditions f (ascii "start_time") true
        (ascii "hostname" ∷ ascii "service_description" ∷ ascii "output" ∷ []));
}

abbrev pub check_sides : HistoryFilter → List Part
check_sides f =
    part_if (reads_hosts f) (host_checks f) ++ part_if (reads_services f) (service_checks f)

unfoldable pub check_union : HistoryFilter → Statement
check_union f = union Columns.empty_check_select (check_sides f)

abbrev pub transitions : HistoryFilter → Conditions → Conditions
transitions f c = add_if f.transitions_only (ascii "state_change = 1") c

abbrev pub host_states : HistoryFilter → Part
host_states f = record {
  select = select_from Columns.host_state_columns (ascii "statusengine_host_statehistory");
  conditions = transitions f (
      apply_hard_only f
        (object_conditions f (ascii "state_time") false (ascii "hostname" ∷ ascii "output" ∷ [])));
}

abbrev pub service_states : HistoryFilter → Part
service_states f = record {
  select = select_from Columns.service_state_columns (ascii "statusengine_service_statehistory");
  conditions = transitions f (
      apply_hard_only f (
        object_conditions f (ascii "state_time") true
          (ascii "hostname" ∷ ascii "service_description" ∷ ascii "output" ∷ [])));
}

abbrev pub state_sides : HistoryFilter → List Part
state_sides f =
    part_if (reads_hosts f) (host_states f) ++ part_if (reads_services f) (service_states f)

unfoldable pub state_union : HistoryFilter → Statement
state_union f = union Columns.empty_state_select (state_sides f)

abbrev pub host_notifications : HistoryFilter → Part
host_notifications f = record {
  select = select_from Columns.host_notification_columns (ascii "statusengine_host_notifications");
  conditions =
      object_conditions f (ascii "start_time") false
        (ascii "hostname" ∷ ascii "contact_name" ∷ ascii "output" ∷ []);
}

abbrev pub service_notifications : HistoryFilter → Part
service_notifications f = record {
  select =
      select_from Columns.service_notification_columns (ascii "statusengine_service_notifications");
  conditions =
      object_conditions f (ascii "start_time") true (
        ascii "hostname"
        ∷ ascii "service_description"
        ∷ ascii "contact_name"
        ∷ ascii "output"
        ∷ []);
}

abbrev pub notification_sides : HistoryFilter → List Part
notification_sides f =
    part_if (reads_hosts f) (host_notifications f)
    ++ part_if (reads_services f) (service_notifications f)

unfoldable pub notification_union : HistoryFilter → Statement
notification_union f = union Columns.empty_notification_select (notification_sides f)

-- the list that a request reads, of the three
pub data Listing : Type 0 where
  checks state_changes notifications : Listing

abbrev pub history_union : Listing → HistoryFilter → Statement
history_union checks f = check_union f
history_union state_changes f = state_union f
history_union notifications f = notification_union f

-- the sides of its union
abbrev pub history_sides : Listing → HistoryFilter → List Part
history_sides checks f = check_sides f
history_sides state_changes f = state_sides f
history_sides notifications f = notification_sides f

-- `count`
unfoldable pub history_count : Listing → HistoryFilter → Statement
history_count l f = count_of (ascii "x") (history_union l f)

-- the page that `Checks`, `StateChanges` or `Notifications` reads
unfoldable pub history_page : Listing → HistoryFilter → Page → Statement
history_page checks f p =
    page_of (ascii "c") Columns.check_sort_columns (ascii "start_time") p (check_union f)
history_page state_changes f p =
    page_of (ascii "s") Columns.state_change_sort_columns (ascii "state_time") p (state_union f)
history_page notifications f p =
    page_of (ascii "n") Columns.notification_sort_columns (ascii "start_time") p
      (notification_union f)
