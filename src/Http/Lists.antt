-- ===== src/Http/Lists.antt =====
-- internal/httpapi/handlers_monitoring.go and handlers_history.go: what the list handlers ask the
-- repositories for, and what they answer.
pub mod Windowed
pub mod Pages
use interface.Prelude.{
  ℕ, Bool, true, false, not, ◌&&◌, Option, none, some, List, [], ◌∷◌, if◌then◌else◌, length,
}
use interface.Prelude.Int.{ℤ, pos}
use interface.Prelude.Result.{Result, ok, err, ◌>>=◌, ◌>>◌}
use interface.Text.{Text, ascii, is_empty, eq}
use interface.Query.{Page}
use interface.Query.Status.{StatusFilter, host_table, service_table, status_sort_columns}
use interface.Query.Downtimes.{DowntimeFilter}
use interface.Query.Downtimes.Columns.{downtime_sort_columns}
use interface.Query.Acknowledgements.{AckFilter}
use interface.Query.Acknowledgements.Columns.{ack_sort_columns}
use interface.Query.Problems.{ProblemFilter}
use interface.Query.Problems.Columns.{problem_sort_columns}
use interface.Query.Logs.{LogFilter}
use interface.Query.Logs.Columns.{log_sort_columns}
use interface.Query.History.{HistoryFilter}
use interface.Query.History.Columns.{
  check_sort_columns, state_change_sort_columns, notification_sort_columns,
}
use interface.Http.{ApiError}
use interface.Http.Params.{
  Readers, Values, get, trimmed, bad, parse_tri_bool, parse_int_list, TimeRange, parse_time_range,
  parse_kind,
}
use interface.Http.Paging.{page, newest_first, ListMeta, meta_for}

-- what every handler has: the readers, the page limits of the configuration, and the clock
pub record Setting : Type 0 where
  pub readers : Readers
  pub default_page_size : ℤ
  pub max_page_size : ℤ
  pub now : ℤ

abbrev pub is_true : Values → Text → Bool
is_true q name = eq (get q name) (ascii "true")

-- a service is named with its host
abbrev pub check_service : Values → Result ApiError (Unit {0})
check_service q =
    if not (is_empty (trimmed q (ascii "service"))) && is_empty (trimmed q (ascii "host"))
    then err (bad (ascii "host"))
    else ok tt

-- the page is read after the filter
abbrev pub with_page :
    {F : Type 0} → Result ApiError F → Result ApiError Page → Result ApiError (F × Page)
with_page filter page = do f ← filter; p ← page; ok (f, p)

abbrev pub no_range : TimeRange
no_range = record { from = pos 0; to = pos 0 }

-- the default and the longest window of a history list, in seconds
abbrev pub default_window : Text → ℕ
default_window host = if is_empty host then 3600 else 86400

abbrev pub longest_window : Text → ℕ
longest_window host = if is_empty host then 21600 else 7776000

module _ (s : Setting) (q : Values) where
  abbrev pub tri : Text → Result ApiError (Option Bool)
  tri = parse_tri_bool s.readers q

  -- `Server.page`
  abbrev pub page_by : Text → List (Text × Text) → Result ApiError Page
  page_by = page s.readers q s.default_page_size s.max_page_size

  -- the same, newest first unless the request says otherwise
  abbrev pub newest_page_by : Text → List (Text × Text) → Result ApiError Page
  newest_page_by name columns = page_by name columns >>= λ p. ok (newest_first q p)

  -- `statusFilter`
  unfoldable pub status_filter : ℤ → Result ApiError StatusFilter
  status_filter max_state = do
    states ← parse_int_list s.readers q (ascii "state") (pos 0) max_state
    acknowledged ← tri (ascii "acknowledged")
    in_downtime ← tri (ascii "in_downtime")
    flapping ← tri (ascii "flapping")
    notifications_enabled ← tri (ascii "notifications_enabled")
    active_checks_enabled ← tri (ascii "active_checks_enabled")
    hard_state ← tri (ascii "hard_state")
    passive ← tri (ascii "passive")
    handled ← tri (ascii "handled")
    ok (record {
      search = trimmed q (ascii "q");
      host = trimmed q (ascii "host");
      states = states;
      acknowledged = acknowledged;
      in_downtime = in_downtime;
      flapping = flapping;
      notifications_enabled = notifications_enabled;
      active_checks_enabled = active_checks_enabled;
      hard_state = hard_state;
      passive = passive;
      problems_only = is_true q (ascii "problems");
      handled = handled;
    })

  -- `handleListHosts`, up to the list
  unfoldable pub list_hosts : Result ApiError (StatusFilter × Page)
  list_hosts =
      with_page (status_filter (pos 2))
        (page_by (ascii "hostname") (status_sort_columns host_table))

  -- `handleListServices`; the path may name a host
  unfoldable pub list_services : Text → Result ApiError (StatusFilter × Page)
  list_services path_host =
      with_page
        (status_filter (pos 3) >>= λ f.
          ok (if is_empty path_host then f else record f { host = path_host }))
        (page_by (ascii "hostname") (status_sort_columns service_table))

  -- `handleListProblems`: its filter, and the whole
  unfoldable pub problem_filter : Result ApiError ProblemFilter
  problem_filter = do
    kind ← parse_kind q
    acknowledged ← tri (ascii "acknowledged")
    in_downtime ← tri (ascii "in_downtime")
    hard_state ← tri (ascii "hard_state")
    flapping ← tri (ascii "flapping")
    handled ← tri (ascii "handled")
    ok (record {
      search = trimmed q (ascii "q");
      kind = kind;
      acknowledged = acknowledged;
      in_downtime = in_downtime;
      hard_state = hard_state;
      flapping = flapping;
      handled = handled;
      hide_services_of_down_hosts = is_true q (ascii "hide_services_of_down_hosts");
    })

  unfoldable pub list_problems : Result ApiError (ProblemFilter × Page)
  list_problems = with_page problem_filter (newest_page_by (ascii "severity") problem_sort_columns)

  -- `downtimeFilter`
  unfoldable pub downtime_filter : Result ApiError DowntimeFilter
  downtime_filter = do
    check_service q
    kind ← parse_kind q
    running ← tri (ascii "running")
    ok (record {
      search = trimmed q (ascii "q");
      host = trimmed q (ascii "host");
      service = trimmed q (ascii "service");
      kind = kind;
      running = running;
      now = s.now;
    })

  -- `handleListDowntimes` and `handleListDowntimeHistory`
  unfoldable pub list_downtimes : Bool → Result ApiError (DowntimeFilter × Page)
  list_downtimes history = with_page downtime_filter (
      if history
      then newest_page_by (ascii "scheduled_start_time") downtime_sort_columns
      else page_by (ascii "scheduled_start_time") downtime_sort_columns)

  -- the window that an acknowledgement list may have
  unfoldable pub ack_range : Result ApiError TimeRange
  ack_range =
      if is_empty (get q (ascii "from")) && is_empty (get q (ascii "to"))
      then ok no_range
      else parse_time_range s.readers q s.now 2592000 0

  -- `handleListAcknowledgements`: its filter, and the whole
  unfoldable pub ack_filter : Result ApiError AckFilter
  ack_filter = do
    check_service q
    kind ← parse_kind q
    tr ← ack_range
    ok (record {
      search = trimmed q (ascii "q");
      host = trimmed q (ascii "host");
      service = trimmed q (ascii "service");
      author = trimmed q (ascii "author");
      kind = kind;
      from = tr.from;
      to = tr.to;
    })

  unfoldable pub list_acknowledgements : Result ApiError (AckFilter × Page)
  list_acknowledgements =
      with_page ack_filter (newest_page_by (ascii "entry_time") ack_sort_columns)

  -- `handleListLogEntries`: its filter, and the whole
  unfoldable pub log_filter : Result ApiError LogFilter
  log_filter = do
    tr ← parse_time_range s.readers q s.now 86400 2678400
    ok (record {
      search = trimmed q (ascii "q");
      from = tr.from;
      to = tr.to;
      types = [];
      node = trimmed q (ascii "node");
    })

  unfoldable pub list_log_entries : Result ApiError (LogFilter × Page)
  list_log_entries = with_page log_filter (newest_page_by (ascii "entry_time") log_sort_columns)

  -- `historyFilter`
  unfoldable pub history_filter : ℤ → Result ApiError HistoryFilter
  history_filter max_state = do
    check_service q
    kind ← parse_kind q
    states ← parse_int_list s.readers q (ascii "state") (pos 0) max_state
    let host = trimmed q (ascii "host")
    tr ← parse_time_range s.readers q s.now (default_window host) (longest_window host)
    ok (record {
      host = host;
      description = trimmed q (ascii "service");
      kind = kind;
      search = trimmed q (ascii "q");
      states = states;
      from = tr.from;
      to = tr.to;
      hard_only = is_true q (ascii "hard_only");
      transitions_only = is_true q (ascii "transitions_only");
    })

  -- `handleHistoryChecks`
  unfoldable pub history_checks : Result ApiError (HistoryFilter × Page)
  history_checks =
      with_page (history_filter (pos 3)) (newest_page_by (ascii "start_time") check_sort_columns)

  -- `handleHistoryStateChanges`
  unfoldable pub history_state_changes : Result ApiError (HistoryFilter × Page)
  history_state_changes =
      with_page (history_filter (pos 3))
        (newest_page_by (ascii "state_time") state_change_sort_columns)

  -- `handleHistoryNotifications`
  unfoldable pub history_notifications : Result ApiError (HistoryFilter × Page)
  history_notifications =
      with_page (history_filter (pos 3) >>= λ f. ok (record f { hard_only = false }))
        (newest_page_by (ascii "start_time") notification_sort_columns)
