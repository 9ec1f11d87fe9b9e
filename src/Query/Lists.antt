-- ===== src/Query/Lists.antt =====
-- internal/repository/mysql: the count and the page of every list.
use interface.Prelude.{Bool}
use interface.Query.{Page}
use interface.Query.Statement.{Statement, IsPlaced}
use interface.Query.Status.{StatusFilter, Table, status_count, status_page}
use interface.Query.Status.Bound.{status-IsPlaced}
use interface.Query.Downtimes.{DowntimeFilter, downtime_count, downtime_page}
use interface.Query.Downtimes.Bound.{downtimes-IsPlaced}
use interface.Query.Acknowledgements.{AckFilter, ack_count, ack_page}
use interface.Query.Acknowledgements.Bound.{acknowledgements-IsPlaced}
use interface.Query.Problems.{ProblemFilter, problem_count, problem_page}
use interface.Query.Problems.Bound.{problems-IsPlaced}
use interface.Query.Logs.{LogFilter, log_count, log_page}
use interface.Query.Logs.Bound.{logs-IsPlaced}
use interface.Query.History.{HistoryFilter, Listing, history_count, history_page}
use interface.Query.History.Bound.{history-IsPlaced}

-- a list of a repository, with the filter that it is asked for
pub data Listed : Type 0 where
  objects : Table → StatusFilter → Listed
  downtimes : (history : Bool) → DowntimeFilter → Listed
  acknowledgements : AckFilter → Listed
  problems : ProblemFilter → Listed
  log_entries : LogFilter → Listed
  history : Listing → HistoryFilter → Listed

unfoldable pub count_statement : Listed → Statement
count_statement (objects t f) = status_count t f
count_statement (downtimes past f) = downtime_count past f
count_statement (acknowledgements f) = ack_count f
count_statement (problems f) = problem_count f
count_statement (log_entries f) = log_count f
count_statement (history l f) = history_count l f

unfoldable pub page_statement : Listed → Page → Statement
page_statement (objects t f) p = status_page t f p
page_statement (downtimes past f) p = downtime_page past f p
page_statement (acknowledgements f) p = ack_page f p
page_statement (problems f) p = problem_page f p
page_statement (log_entries f) p = log_page f p
page_statement (history l f) p = history_page l f p

-- Whatever list a request reads and whatever it filters, searches and sorts by, its count and its page
-- hand the database as many values as their text has placeholders.
pub statements-IsPlaced :
    (l : Listed) (p : Page) → IsPlaced (count_statement l) × IsPlaced (page_statement l p)
unfolding count_statement page_statement
statements-IsPlaced (objects t f) p = status-IsPlaced t f p
statements-IsPlaced (downtimes past f) p = downtimes-IsPlaced past f p
statements-IsPlaced (acknowledgements f) p = acknowledgements-IsPlaced f p
statements-IsPlaced (problems f) p = problems-IsPlaced f p
statements-IsPlaced (log_entries f) p = logs-IsPlaced f p
statements-IsPlaced (history l f) p = history-IsPlaced l f p
