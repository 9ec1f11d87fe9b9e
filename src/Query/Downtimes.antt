-- ===== src/Query/Downtimes.antt =====
-- internal/repository/mysql/downtimes.go: the statements of the downtime lists.
pub mod Columns
pub mod Bound
use interface.Prelude.{
  Bool, true, false, not, ◌&&◌, Option, none, some, List, [], ◌∷◌, ◌++◌, if◌then◌else◌,
}
use interface.Prelude.Int.{ℤ, pos}
use interface.Text.{Text, ascii, is_empty, eq}
use interface.Domain.{Kind, kind_host, kind_service}
use interface.Query.{int_value, Conditions, no_conditions, add, Page}
use interface.Query.Search.{add_search, add_text}
use interface.Query.Statement.{Statement, Part, part_if, union, count_of, page_of}
use Columns

pub record DowntimeFilter : Type 0 where
  pub search : Text
  pub host : Text
  pub service : Text
  pub kind : Kind
  pub running : Option Bool
  pub now : ℤ

abbrev pub running_text : Text
running_text = ascii "was_started = 1 AND scheduled_start_time <= ? AND scheduled_end_time > ?"

unfoldable pub add_running : Option Bool → ℤ → Conditions → Conditions
add_running none now c = c
add_running (some want) now c =
    let values = int_value now ∷ int_value now ∷ [] in
    if want
    then add running_text values c
    else add (ascii "NOT (" ++ (running_text ++ ascii ")")) values c

-- `DowntimeFilter.applyCommon`
unfoldable pub apply_downtime : DowntimeFilter → List Text → Conditions → Conditions
apply_downtime f columns c = add_running f.running f.now (
    add_search f.search (columns ++ ascii "comment_data" ∷ []) (
      add_text (ascii "service_description = ?") f.service
        (add_text (ascii "hostname = ?") f.host c)))

abbrev pub host_downtime_table : Bool → Text
host_downtime_table history =
    if history
    then ascii "statusengine_host_downtimehistory"
    else ascii "statusengine_host_scheduleddowntimes"

abbrev pub service_downtime_table : Bool → Text
service_downtime_table history =
    if history
    then ascii "statusengine_service_downtimehistory"
    else ascii "statusengine_service_scheduleddowntimes"

abbrev pub extra_columns : Bool → Text
extra_columns history =
    if history
    then ascii ", actual_end_time, COALESCE(was_cancelled, 0) AS was_cancelled"
    else ascii ", 0 AS actual_end_time, 0 AS was_cancelled"

abbrev pub downtime_select : Text → Bool → Text → Text
downtime_select lead history table =
    lead
    ++ (Columns.downtime_common_columns ++ (extra_columns history ++ (ascii " FROM " ++ table)))

abbrev pub host_downtimes : Bool → DowntimeFilter → Part
host_downtimes history f = record {
  select =
      downtime_select (ascii "SELECT 'host' AS kind, hostname, '' AS service_description, ") history
        (host_downtime_table history);
  conditions = apply_downtime f (ascii "hostname" ∷ []) no_conditions;
}

abbrev pub service_downtimes : Bool → DowntimeFilter → Part
service_downtimes history f = record {
  select =
      downtime_select (ascii "SELECT 'service' AS kind, hostname, service_description, ") history
        (service_downtime_table history);
  conditions = apply_downtime f (ascii "hostname" ∷ ascii "service_description" ∷ []) no_conditions;
}

-- `DowntimeFilter.union`
unfoldable pub downtime_union : Bool → DowntimeFilter → Statement
downtime_union history f = union Columns.empty_downtime_select (
    part_if (not (eq f.kind kind_service) && is_empty f.service) (host_downtimes history f)
    ++ part_if (not (eq f.kind kind_host)) (service_downtimes history f))

-- the two statements of `Downtimes.query`
unfoldable pub downtime_count : Bool → DowntimeFilter → Statement
downtime_count history f = count_of (ascii "d") (downtime_union history f)

unfoldable pub downtime_page : Bool → DowntimeFilter → Page → Statement
downtime_page history f p =
    page_of (ascii "d") Columns.downtime_sort_columns (ascii "scheduled_start_time") p
      (downtime_union history f)

-- the filter and the page of `ForObject`
unfoldable pub for_object : Kind → Text → Text → ℤ → Statement
for_object kind host service now =
    downtime_page false
      (record {
        search = [];
        host = host;
        service = if eq kind kind_service then service else [];
        kind = kind;
        running = none;
        now = now;
      })
      (record { limit = pos 25; offset = pos 0; sort = ascii "scheduled_start_time"; desc = true })
