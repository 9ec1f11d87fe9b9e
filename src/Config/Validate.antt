-- ===== src/Config/Validate.antt =====
-- internal/config/config.go: `Validate`.
use interface.Prelude.{Bool, true, false, not, ◌||◌, List, [], ◌∷◌, ◌++◌, if◌then◌else◌}
use interface.Prelude.Int.{pos, ltb_ℤ, leb_ℤ}
use interface.Text.{Text, ascii, is_empty, eq}
use interface.Config.{Config, demo_command_notify, is_demo_command}

pub data ConfigError : Type 0 where
  dsn_required listen_addr_required graphite_url_required unknown_provider unknown_log_format :
      ConfigError
  default_page_size_low max_page_size_low session_ttl_low demo_max_targets_low retention_low :
      ConfigError
  event_clients_low query_timeout_low notify_refused : ConfigError
  unknown_demo_command : Text → ConfigError

-- `if cond { errs = append(errs, err) }`
abbrev pub error_if : Bool → ConfigError → List ConfigError
error_if true e = e ∷ []
error_if false e = []

unfoldable pub provider_errors : Config → List ConfigError
provider_errors c =
    if eq c.metrics_provider (ascii "mysql")
    then []
    else if eq c.metrics_provider (ascii "graphite")
    then error_if (is_empty c.graphite_url) graphite_url_required
    else unknown_provider ∷ []

unfoldable pub demo_error : Text → List ConfigError
demo_error name =
    if eq name demo_command_notify
    then notify_refused ∷ []
    else error_if (not (is_demo_command name)) (unknown_demo_command name)

unfoldable pub demo_errors : List Text → List ConfigError
demo_errors [] = []
demo_errors (name ∷ names) = demo_error name ++ demo_errors names

-- the errors of all the checks, in order
unfoldable pub all_errors : List (List ConfigError) → List ConfigError
all_errors [] = []
all_errors (es ∷ ess) = es ++ all_errors ess

abbrev pub checks : Config → List (List ConfigError)
checks c =
    error_if (is_empty c.mysql_dsn) dsn_required
    ∷ error_if (is_empty c.listen_addr) listen_addr_required
    ∷ provider_errors c
    ∷ error_if (not (eq c.log_format (ascii "text") || eq c.log_format (ascii "json")))
        unknown_log_format
    ∷ error_if (ltb_ℤ c.default_page_size (pos 1)) default_page_size_low
    ∷ error_if (ltb_ℤ c.max_page_size c.default_page_size) max_page_size_low
    ∷ error_if (leb_ℤ c.session_ttl (pos 0)) session_ttl_low
    ∷ demo_errors c.demo_commands
    ∷ error_if (ltb_ℤ c.demo_max_targets (pos 1)) demo_max_targets_low
    ∷ error_if (ltb_ℤ c.audit_retention_days (pos 0)) retention_low
    ∷ error_if (ltb_ℤ c.max_event_clients (pos 1)) event_clients_low
    ∷ error_if (leb_ℤ c.query_timeout (pos 0)) query_timeout_low
    ∷ []

-- `Validate`: all that is wrong with a configuration
unfoldable pub validate : Config → List ConfigError
validate c = all_errors (checks c)
