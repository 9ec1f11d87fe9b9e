-- ===== src/Http/Routes.antt =====
-- internal/httpapi/server.go: the table of the routes, and the guards that each is behind.

use interface.Prelude.{Option, none, some, List, [], ◌∷◌}
pub mod Reached
use interface.Text.{Text, ascii}
use interface.Auth.Permissions.Perm
use interface.Http.Guards.{Passage, require_permission}

-- what `routes` wraps a handler in
pub data Access : Type 0 where
  -- `api.HandleFunc`
  open_to_all : Access
  -- `authed("", h)`
  signed_in : Access
  -- `authed(perm, h)`
  reading : Text → Access
  -- `commanding(perm, h)`
  commanding : Text → Access

pub record Route : Type 0 where
  pub pattern : Text
  pub access : Access

abbrev route : Text → Access → Route
route pattern access = record { pattern = pattern; access = access }

-- the table of `routes`
abbrev pub routes : List Route
routes =
    route (ascii "GET /api/v1/healthz") open_to_all
    ∷ route (ascii "GET /api/v1/readyz") open_to_all
    ∷ route (ascii "GET /api/v1/meta") open_to_all
    ∷ route (ascii "POST /api/v1/auth/login") open_to_all
    ∷ route (ascii "POST /api/v1/auth/login/demo") open_to_all
    ∷ route (ascii "POST /api/v1/auth/logout") open_to_all
    ∷ route (ascii "GET /api/v1/auth/me") signed_in
    ∷ route (ascii "GET /api/v1/summary") (reading Perm.hosts_read)
    ∷ route (ascii "GET /api/v1/hosts") (reading Perm.hosts_read)
    ∷ route (ascii "GET /api/v1/hosts/names") (reading Perm.hosts_read)
    ∷ route (ascii "GET /api/v1/hosts/{host}") (reading Perm.hosts_read)
    ∷ route (ascii "GET /api/v1/hosts/{host}/services") (reading Perm.services_read)
    ∷ route (ascii "GET /api/v1/services") (reading Perm.services_read)
    ∷ route (ascii "GET /api/v1/service") (reading Perm.services_read)
    ∷ route (ascii "GET /api/v1/problems") (reading Perm.problems_read)
    ∷ route (ascii "GET /api/v1/downtimes") (reading Perm.downtimes_read)
    ∷ route (ascii "GET /api/v1/downtimes/history") (reading Perm.downtimes_read)
    ∷ route (ascii "GET /api/v1/acknowledgements") (reading Perm.acks_read)
    ∷ route (ascii "GET /api/v1/logentries") (reading Perm.log_entries_read)
    ∷ route (ascii "GET /api/v1/history/checks") (reading Perm.history_read)
    ∷ route (ascii "GET /api/v1/history/statechanges") (reading Perm.history_read)
    ∷ route (ascii "GET /api/v1/history/notifications") (reading Perm.history_read)
    ∷ route (ascii "GET /api/v1/metrics/labels") (reading Perm.metrics_read)
    ∷ route (ascii "GET /api/v1/metrics/series") (reading Perm.metrics_read)
    ∷ route (ascii "POST /api/v1/commands/acknowledge") (commanding Perm.acknowledge)
    ∷ route (ascii "POST /api/v1/commands/remove-acknowledgement") (commanding Perm.acknowledge)
    ∷ route (ascii "POST /api/v1/commands/downtime") (commanding Perm.downtime)
    ∷ route (ascii "POST /api/v1/commands/downtime/delete") (commanding Perm.downtime)
    ∷ route (ascii "POST /api/v1/commands/reschedule") (commanding Perm.reschedule)
    ∷ route (ascii "POST /api/v1/commands/submit-result") (commanding Perm.passive_result)
    ∷ route (ascii "POST /api/v1/commands/notify") (commanding Perm.notification)
    ∷ route (ascii "POST /api/v1/commands/toggle") (commanding Perm.toggle)
    ∷ route (ascii "GET /api/v1/commands/audit") (reading Perm.audit_read)
    ∷ route (ascii "GET /api/v1/events") signed_in
    ∷ []

-- What `authed` and `commanding` make of the passage through `authMiddleware`; a route that is open
-- to all has none. The rate limit of a command comes after.
unfoldable pub behind : Access → Passage → Option Passage
behind open_to_all p = none
behind signed_in p = some p
behind (reading perm) p = some (require_permission perm p)
behind (commanding perm) p = some (require_permission perm p)
