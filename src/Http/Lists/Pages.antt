-- ===== src/Http/Lists/Pages.antt =====
-- The page of every list handler.
use interface.Prelude.{
  ◌≡◌, refl, ap, ◌∙◌, true, false, List, ℕ_discrete, subst, Bool-cases, inl, inr,
}
use interface.Prelude.Int.{ℤ, pos, ◌≤ℤ◌}
use interface.Prelude.Result.{Result, ok, ◌>>=◌, bind_inv, ok_inj}
use interface.Text.{Text, ascii, is_empty, text_dec}
use interface.Query.{Page}
use interface.Query.Status.{host_table, service_table, status_sort_columns}
use interface.Query.Downtimes.Columns.{downtime_sort_columns}
use interface.Query.Acknowledgements.Columns.{ack_sort_columns}
use interface.Query.Problems.Columns.{problem_sort_columns}
use interface.Query.Logs.Columns.{log_sort_columns}
use interface.Query.History.Columns.{
  check_sort_columns, state_change_sort_columns, notification_sort_columns,
}
use interface.Http.{ApiError}
use interface.Http.Params.{Values, get}
use interface.Http.Paging.{keys, newest_first, allowed}
use interface.Http.Paging.Within.{IsWithin, page-IsWithin}
use interface.Http.Lists.{
  Setting, page_by, newest_page_by, with_page, list_hosts, list_services, list_problems,
  list_downtimes, list_acknowledgements, list_log_entries, history_checks, history_state_changes,
  history_notifications,
}

-- the routes that list something
pub data ListRoute : Type 0 where
  hosts problems downtimes downtime_history acknowledgements log_entries checks state_changes
        notifications :
      ListRoute
  services : Text → ListRoute

abbrev only_page : {F : Type 0} → Result ApiError (F × Page) → Result ApiError Page
only_page r = r >>= λ asked. ok asked.1

-- the page that a route's handler asks for
unfoldable pub page_asked : Setting → Values → ListRoute → Result ApiError Page
page_asked s q hosts = only_page (list_hosts s q)
page_asked s q (services path_host) = only_page (list_services s q path_host)
page_asked s q problems = only_page (list_problems s q)
page_asked s q downtimes = only_page (list_downtimes s q false)
page_asked s q downtime_history = only_page (list_downtimes s q true)
page_asked s q acknowledgements = only_page (list_acknowledgements s q)
page_asked s q log_entries = only_page (list_log_entries s q)
page_asked s q checks = only_page (history_checks s q)
page_asked s q state_changes = only_page (history_state_changes s q)
page_asked s q notifications = only_page (history_notifications s q)

-- the whitelist of the list
abbrev pub sort_columns_of : ListRoute → List (Text × Text)
sort_columns_of hosts = status_sort_columns host_table
sort_columns_of (services path_host) = status_sort_columns service_table
sort_columns_of problems = problem_sort_columns
sort_columns_of downtimes = downtime_sort_columns
sort_columns_of downtime_history = downtime_sort_columns
sort_columns_of acknowledgements = ack_sort_columns
sort_columns_of log_entries = log_sort_columns
sort_columns_of checks = check_sort_columns
sort_columns_of state_changes = state_change_sort_columns
sort_columns_of notifications = notification_sort_columns

-- Page limits in order, as `Validate` leaves them.
pub record IsOrdered (s : Setting) : Type 0 where
  pub positive : pos 1 ≤ℤ s.default_page_size
  pub ordered : s.default_page_size ≤ℤ s.max_page_size

newest_first-IsWithin :
    (q : Values) (most : ℤ) (columns : List (Text × Text)) (p : Page)
    → IsWithin most columns p
    → IsWithin most columns (newest_first q p)
unfolding newest_first
newest_first-IsWithin q most columns p w = elim (Bool-cases (is_empty (get q (ascii "sort")))) [
  | inl unsorted ↦ rw unsorted (record {
    at_least_one = w.at_least_one;
    at_most = w.at_most;
    offset_from_zero = w.offset_from_zero;
    listed = w.listed;
  })
  | inr sorted ↦ rw sorted w
]

module _ (s : Setting) (q : Values) (set : IsOrdered s) where
  -- all the pages that a result may be are within the limits
  abbrev Pages : List (Text × Text) → Result ApiError Page → Type 0
  Pages columns r = (p : Page) → r ≡ ok p → IsWithin s.max_page_size columns p

  page_by-IsWithin :
      (name : Text) (columns : List (Text × Text))
      → allowed name (keys columns) ≡ true
      → Pages columns (page_by s q name columns)
  page_by-IsWithin name columns known p h =
      page-IsWithin s.readers q s.default_page_size s.max_page_size name columns p set.positive
        set.ordered known h

  newest-IsWithin :
      (name : Text) (columns : List (Text × Text))
      → allowed name (keys columns) ≡ true
      → Pages columns (newest_page_by s q name columns)
  newest-IsWithin name columns known p h =
      let (first, read, e) = bind_inv (page_by s q name columns) _ p h in
      subst (IsWithin s.max_page_size columns) (ok_inj _ p e) (
        newest_first-IsWithin q s.max_page_size columns first
          (page_by-IsWithin name columns known first read))

  paged :
      {F : Type 0} (columns : List (Text × Text)) (filter : Result ApiError F)
      (page : Result ApiError Page)
      → Pages columns page
      → Pages columns (only_page (with_page filter page))
  paged columns filter page within p h =
      let (asked, both, e) = bind_inv (with_page filter page) _ p h in
      let (f, _, chain) = bind_inv filter _ asked both in
      let (read, paging, pair) = bind_inv page _ asked chain in
      subst (IsWithin s.max_page_size columns) (ap (λ r. r.1) (ok_inj _ asked pair) ∙ ok_inj _ p e)
        (within read paging)

-- Whatever list a request reads, and whatever it asks for, its page has at least one row and at most
-- the configured number, and is sorted by a name of that list's whitelist. The configured limits
-- are in order.
pub pages-IsWithin :
    (s : Setting) (q : Values) (route : ListRoute) (p : Page)
    → IsOrdered s
    → page_asked s q route ≡ ok p
    → IsWithin s.max_page_size (sort_columns_of route) p
unfolding page_asked list_hosts list_services list_problems list_downtimes list_acknowledgements
    list_log_entries history_checks history_state_changes history_notifications allowed text_dec
    ℕ_discrete
pages-IsWithin s q hosts p set h =
    paged s q set _ _ _ (page_by-IsWithin s q set (ascii "hostname") _ refl) p h
pages-IsWithin s q (services path_host) p set h =
    paged s q set _ _ _ (page_by-IsWithin s q set (ascii "hostname") _ refl) p h
pages-IsWithin s q problems p set h =
    paged s q set _ _ _ (newest-IsWithin s q set (ascii "severity") _ refl) p h
pages-IsWithin s q downtimes p set h =
    paged s q set _ _ _ (page_by-IsWithin s q set (ascii "scheduled_start_time") _ refl) p h
pages-IsWithin s q downtime_history p set h =
    paged s q set _ _ _ (newest-IsWithin s q set (ascii "scheduled_start_time") _ refl) p h
pages-IsWithin s q acknowledgements p set h =
    paged s q set _ _ _ (newest-IsWithin s q set (ascii "entry_time") _ refl) p h
pages-IsWithin s q log_entries p set h =
    paged s q set _ _ _ (newest-IsWithin s q set (ascii "entry_time") _ refl) p h
pages-IsWithin s q checks p set h =
    paged s q set _ _ _ (newest-IsWithin s q set (ascii "start_time") _ refl) p h
pages-IsWithin s q state_changes p set h =
    paged s q set _ _ _ (newest-IsWithin s q set (ascii "state_time") _ refl) p h
pages-IsWithin s q notifications p set h =
    paged s q set _ _ _ (newest-IsWithin s q set (ascii "start_time") _ refl) p h
