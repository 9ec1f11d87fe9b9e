-- ===== src/Http/Answers.antt =====
-- internal/httpapi/handlers_monitoring.go and handlers_history.go: what the handlers make of the
-- repositories' results, and the requests of the dashboard and of the charts.
pub mod Details
pub mod Series
use interface.Prelude.{
  ℕ, ◌*◌, Bool, true, false, ◌||◌, Option, none, some, List, [], ◌∷◌, length, if◌then◌else◌,
}
use interface.Prelude.Int.{ℤ, pos, ◌-ℤ◌, ltb_ℤ, pos_part, wrap64}
use interface.Prelude.Result.{Result, ok, err, ◌>>=◌, ◌>>◌}
use interface.Text.{Text, ascii, is_empty, split}
use interface.Text.Trim.{trim_space}
use interface.Domain.{Kind, kind_host, kind_service}
use interface.Query.{Page}
use interface.Query.History.{HistoryFilter, scoped}
use interface.Metrics.{MetricQuery}
use interface.Http.{
  ApiCode, ApiError, code_not_found, unavailable, internal_error, timeout, fail_status,
}
use interface.Http.Params.{
  Readers, Values, get, bad, outside, TimeRange, parse_time_range, required_query,
}
use interface.Http.Paging.{ListMeta, meta_for}
use interface.Http.Lists.{Setting}

-- what a repository or a provider fails with
pub data ReadError : Type 0 where
  deadline_exceeded canceled not_found not_implemented other : ReadError

-- What a request fails with; a request that its caller gave up has no answer.
pub data Failure : Type 0 where
  refused_by : ApiError → Failure
  failed : ℕ → ApiCode → Failure
  nobody : Failure

abbrev pub Answer : Type 0 → Type 0
Answer = Result Failure

-- `internalError`
unfoldable pub internal_failure : ReadError → Failure
internal_failure deadline_exceeded = failed 504 timeout
internal_failure canceled = nobody
internal_failure not_found = failed 500 internal_error
internal_failure not_implemented = failed 500 internal_error
internal_failure other = failed 500 internal_error

-- `metricsError`
unfoldable pub metrics_failure : ReadError → Failure
metrics_failure deadline_exceeded = internal_failure deadline_exceeded
metrics_failure canceled = internal_failure canceled
metrics_failure not_found = internal_failure not_found
metrics_failure not_implemented = failed 501 unavailable
metrics_failure other = internal_failure other

-- what `repo.ErrNotFound` is answered with
unfoldable pub get_failure : ReadError → Failure
get_failure not_found = failed 404 code_not_found
get_failure deadline_exceeded = internal_failure deadline_exceeded
get_failure canceled = internal_failure canceled
get_failure not_implemented = internal_failure not_implemented
get_failure other = internal_failure other

abbrev pub or_fail : {E A : Type 0} → (E → Failure) → Result E A → Answer A
or_fail f (ok a) = ok a
or_fail f (err e) = err (f e)

-- the HTTP status, if there is an answer
abbrev pub status_of : {A : Type 0} → Answer A → Option ℕ
status_of (ok a) = some 200
status_of (err (refused_by e)) = some (fail_status e.code)
status_of (err (failed status code)) = some status
status_of (err nobody) = none

-- one list: the request, the repository's rows with their total, and the meta
unfoldable pub list_answer :
    {F R : Type 0}
    → Result ApiError (F × Page)
    → (F → Page → Result ReadError (List R × ℤ))
    → Answer (List R × ListMeta)
list_answer request list = do
  asked ← or_fail refused_by request
  found ← or_fail internal_failure (list asked.0 asked.1)
  ok (found.0, meta_for asked.1 found.1)

-- `historyMeta`
pub record HistoryMeta : Type 0 where
  pub list_meta : ListMeta
  pub from : ℤ
  pub to : ℤ
  pub is_scoped : Bool

-- `writeHistory`, after its handler
unfoldable pub history_answer :
    {R : Type 0}
    → Result ApiError (HistoryFilter × Page)
    → (HistoryFilter → Page → Result ReadError (List R × ℤ))
    → Answer (List R × HistoryMeta)
history_answer request list = do
  asked ← or_fail refused_by request
  found ← or_fail internal_failure (list asked.0 asked.1)
  ok (
    found.0,
    record {
      list_meta = meta_for asked.1 found.1;
      from = asked.0.from;
      to = asked.0.to;
      is_scoped = scoped asked.0;
    },
  )

-- a host or a service, with the records that explain why it is quiet
pub record Detail (Row Downtime Ack : Type 0) : Type 0 where
  pub row : Row
  pub downtimes : List Downtime
  pub acknowledgement : Option Ack

-- the three reads behind a detail
pub record Sources (Row Downtime Ack : Type 0) : Type 0 where
  pub found : Result ReadError Row
  pub for_object : Result ReadError (List Downtime)
  pub latest_for : Result ReadError (Option Ack)

-- the part that `handleGetHost` and `handleGetService` have in common, once it is known which object
-- the reads are for; a read that is not wanted is not made
unfoldable pub get_detail :
    {Row Downtime Ack : Type 0}
    → (in_downtime acknowledged : Row → Bool) → Sources Row Downtime Ack
    → Answer (Detail Row Downtime Ack)
get_detail in_downtime acknowledged sources = do
  row ← or_fail get_failure sources.found
  downtimes ← if in_downtime row then or_fail internal_failure sources.for_object else ok []
  ack ← if acknowledged row then or_fail internal_failure sources.latest_for else ok none
  ok (record { row = row; downtimes = downtimes; acknowledgement = ack })

-- `ForObject` and `LatestFor`, of a kind, a host and a service
pub record ObjectReads (Downtime Ack : Type 0) : Type 0 where
  pub for_object : Kind → Text → Text → Result ReadError (List Downtime)
  pub latest_for : Kind → Text → Text → Result ReadError (Option Ack)

-- `handleGetHost`, with the host of the path
unfoldable pub get_host :
    {Row Downtime Ack : Type 0}
    → (in_downtime acknowledged : Row → Bool) → (Text → Result ReadError Row)
    → ObjectReads Downtime Ack
    → Text
    → Answer (Detail Row Downtime Ack)
get_host in_downtime acknowledged get_row reads hostname =
    get_detail in_downtime acknowledged (record {
      found = get_row hostname;
      for_object = reads.for_object kind_host hostname [];
      latest_for = reads.latest_for kind_host hostname [];
    })

-- `handleGetService`
unfoldable pub get_service :
    {Row Downtime Ack : Type 0}
    → Values
    → (in_downtime acknowledged : Row → Bool) → (Text → Text → Result ReadError Row)
    → ObjectReads Downtime Ack
    → Answer (Detail Row Downtime Ack)
get_service q in_downtime acknowledged get_row reads = do
  host ← or_fail refused_by (required_query q (ascii "host"))
  description ← or_fail refused_by (required_query q (ascii "service"))
  get_detail in_downtime acknowledged (record {
    found = get_row host description;
    for_object = reads.for_object kind_service host description;
    latest_for = reads.latest_for kind_service host description;
  })

-- a number between two bounds, or what stands for it if the parameter is not there
unfoldable pub read_bounded : Readers → Values → Text → ℤ → ℤ → ℤ → Result ApiError ℤ
read_bounded s q name low high default =
    if is_empty (get q name) then ok default else elim (s.atoi (get q name)) [
      | none ↦ err (bad name)
      | some n ↦ if outside low high n then err (bad name) else ok n
    ]

-- `handleSummary`: the hours, and the time since which the dashboard counts
unfoldable pub summary_since : Setting → Values → Result ApiError (ℤ × ℤ)
summary_since s q = do
  hours ← read_bounded s.readers q (ascii "hours") (pos 1) (pos 168) (pos 24)
  ok (hours, wrap64 (s.now -ℤ pos (pos_part hours * 3600)))

-- the labels of a chart that are more than white space, trimmed
unfoldable pub read_labels : List Text → List Text
read_labels [] = []
read_labels (l ∷ ls) =
    let rest = read_labels ls in if is_empty (trim_space l) then rest else trim_space l ∷ rest

-- what `handleMetricSeries` asks the provider for
pub record SeriesRequest : Type 0 where
  pub query : MetricQuery
  pub labels : List Text
  pub max_points : ℤ

unfoldable pub labels_of : Values → List Text
labels_of q = let v = get q (ascii "label") in if is_empty v then [] else read_labels (split b',' v)

unfoldable pub series_request : Setting → Values → Result ApiError SeriesRequest
series_request s q = do
  host ← required_query q (ascii "host")
  service ← required_query q (ascii "service")
  tr ← parse_time_range s.readers q s.now 21600 31622400
  max_points ← read_bounded s.readers q (ascii "max_points") (pos 10) (pos 5000) (pos 500)
  ok (record {
    query = record { hostname = host; description = service; from = tr.from; to = tr.to };
    labels = labels_of q;
    max_points = max_points;
  })
