-- ===== src/Config.antt =====
-- internal/config/config.go: the settings, their defaults, and what they allow.
mod Env
pub mod Validate
pub mod Sound
mod Tests
use interface.Prelude.{ℕ, ◌*◌, Bool, true, false, not, ◌&&◌, List, [], ◌∷◌, any, if◌then◌else◌}
use interface.Prelude.Int.{ℤ, pos}
use interface.Text.{Text, ascii, is_empty, eq}

-- `Config`; durations are in nanoseconds.
pub record Config : Type 0 where
  pub listen_addr : Text
  pub base_url : Text
  pub read_timeout : ℤ
  pub write_timeout : ℤ
  pub idle_timeout : ℤ
  pub mysql_dsn : Text
  pub mysql_max_open_conns : ℤ
  pub mysql_conn_max_life : ℤ
  pub query_timeout : ℤ
  pub worker_command_url : Text
  pub worker_command_key : Text
  pub worker_events_url : Text
  pub worker_events_key : Text
  pub worker_timeout : ℤ
  pub session_ttl : ℤ
  pub session_cookie : Text
  pub secure_cookies : Bool
  pub demo_mode : Bool
  pub demo_user : Text
  pub login_rate_limit : ℤ
  pub login_rate_window : ℤ
  pub demo_commands : List Text
  pub command_rate_limit : ℤ
  pub demo_command_rate_limit : ℤ
  pub demo_max_targets : ℤ
  pub audit_client_ip : Bool
  pub audit_retention_days : ℤ
  pub max_event_clients : ℤ
  pub metrics_provider : Text
  pub graphite_url : Text
  pub graphite_prefix : Text
  pub default_page_size : ℤ
  pub max_page_size : ℤ
  pub log_level : Text
  pub log_format : Text
  pub ui_dir : Text

abbrev pub second : ℕ
second = 1000000000

abbrev pub seconds : ℕ → ℤ
seconds n = pos (n * second)

-- `Default`
unfoldable pub default_config : Config
default_config = record {
  listen_addr = ascii "127.0.0.1:8090";
  base_url = [];
  read_timeout = seconds 15;
  write_timeout = seconds 60;
  idle_timeout = seconds 120;
  mysql_dsn = [];
  mysql_max_open_conns = pos 25;
  mysql_conn_max_life = seconds 300;
  query_timeout = seconds 20;
  worker_command_url = ascii "http://127.0.0.1:8081/commands";
  worker_command_key = [];
  worker_events_url = ascii "ws://127.0.0.1:8080/ws";
  worker_events_key = [];
  worker_timeout = seconds 10;
  session_ttl = seconds 43200;
  session_cookie = ascii "sei_session";
  secure_cookies = false;
  demo_mode = false;
  demo_user = ascii "guest";
  login_rate_limit = pos 10;
  login_rate_window = seconds 60;
  demo_commands = [];
  command_rate_limit = pos 60;
  demo_command_rate_limit = pos 10;
  demo_max_targets = pos 25;
  audit_client_ip = true;
  audit_retention_days = pos 0;
  max_event_clients = pos 500;
  metrics_provider = ascii "mysql";
  graphite_url = [];
  graphite_prefix = ascii "statusengine";
  default_page_size = pos 50;
  max_page_size = pos 500;
  log_level = ascii "info";
  log_format = ascii "text";
  ui_dir = [];
}

abbrev pub demo_command_notify : Text
demo_command_notify = ascii "notify"

-- `DemoCommandNames`
abbrev pub demo_command_names : List Text
demo_command_names =
    ascii "acknowledge"
    ∷ ascii "downtime"
    ∷ ascii "reschedule"
    ∷ ascii "submit-result"
    ∷ ascii "toggle"
    ∷ []

-- `isDemoCommand`
unfoldable pub is_demo_command : Text → Bool
is_demo_command name = any (λ known. eq known name) demo_command_names

-- `CommandsEnabled`
unfoldable pub commands_enabled : Config → Bool
commands_enabled c = not (is_empty c.worker_command_key) && not (is_empty c.worker_command_url)

-- `EventsEnabled`
unfoldable pub events_enabled : Config → Bool
events_enabled c = not (is_empty c.worker_events_key) && not (is_empty c.worker_events_url)

-- `AllowsDemoCommand`
unfoldable pub allows_demo_command : Config → Text → Bool
allows_demo_command c name =
    if not c.demo_mode then false else any (λ allowed. eq allowed name) c.demo_commands
