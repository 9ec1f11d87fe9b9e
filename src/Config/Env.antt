-- ===== src/Config/Env.antt =====
-- internal/config/config.go: `mergeEnv`. What `strconv` and `time` read of a text is a parameter, and
-- so is the environment.
mod Overrides
use interface.Prelude.{Bool, Option, none, some, List, [], ◌∷◌, if◌then◌else◌}
use interface.Prelude.Int.{ℤ}
use interface.Prelude.Result.{Result, ok, err, ◌>>=◌}
use interface.Text.{Text, ascii, is_empty, split}
use interface.Text.Trim.{trim_space}
use interface.Config.{Config}

-- `os.LookupEnv`
abbrev pub Environment : Type 0
Environment = Text → Option Text

-- `strconv.Atoi`, `strconv.ParseBool` and `time.ParseDuration`
pub record Parsers : Type 0 where
  pub atoi : Text → Option ℤ
  pub parse_bool : Text → Option Bool
  pub parse_duration : Text → Option ℤ

-- a setting that takes the text of its variable as it is
abbrev pub text_of : Environment → Text → Text → Text
text_of env name old = elim (env name) [ none ↦ old | some v ↦ v ]

-- A setting that reads the text of its variable; a text that it cannot read is an error, which names
-- the variable.
abbrev pub read_of : {A : Type 0} → (Text → Option A) → Environment → Text → A → Result Text A
read_of parse env name old = elim (env name) [
  | none ↦ ok old
  | some v ↦ elim (parse v) [ none ↦ err name | some n ↦ ok n ]
]

-- the names between the commas that are more than white space, trimmed
unfoldable pub names_in : List Text → List Text
names_in [] = []
names_in (p ∷ ps) =
    let rest = names_in ps in if is_empty (trim_space p) then rest else trim_space p ∷ rest

unfoldable pub demo_commands_of : Environment → List Text → List Text
demo_commands_of env old = elim (env (ascii "SEI_DEMO_COMMANDS")) [
  | none ↦ old
  | some v ↦ names_in (split b',' v)
]

-- the loop over the texts
unfoldable pub merge_texts : Environment → Config → Config
merge_texts env c = record c {
  listen_addr = text_of env (ascii "SEI_LISTEN_ADDR") c.listen_addr;
  base_url = text_of env (ascii "SEI_BASE_URL") c.base_url;
  mysql_dsn = text_of env (ascii "SEI_MYSQL_DSN") c.mysql_dsn;
  worker_command_url = text_of env (ascii "SEI_WORKER_COMMAND_URL") c.worker_command_url;
  worker_command_key = text_of env (ascii "SEI_WORKER_COMMAND_KEY") c.worker_command_key;
  worker_events_url = text_of env (ascii "SEI_WORKER_EVENTS_URL") c.worker_events_url;
  worker_events_key = text_of env (ascii "SEI_WORKER_EVENTS_KEY") c.worker_events_key;
  session_cookie = text_of env (ascii "SEI_SESSION_COOKIE") c.session_cookie;
  demo_user = text_of env (ascii "SEI_DEMO_USER") c.demo_user;
  metrics_provider = text_of env (ascii "SEI_METRICS_PROVIDER") c.metrics_provider;
  graphite_url = text_of env (ascii "SEI_GRAPHITE_URL") c.graphite_url;
  graphite_prefix = text_of env (ascii "SEI_GRAPHITE_PREFIX") c.graphite_prefix;
  log_level = text_of env (ascii "SEI_LOG_LEVEL") c.log_level;
  log_format = text_of env (ascii "SEI_LOG_FORMAT") c.log_format;
  ui_dir = text_of env (ascii "SEI_UI_DIR") c.ui_dir;
}

module _ (p : Parsers) (env : Environment) where
  -- The loop over the numbers. Go walks it in any order, which only says whose error is reported.
  unfoldable pub merge_ints : Config → Result Text Config
  merge_ints c = do
    conns ← read_of p.atoi env (ascii "SEI_MYSQL_MAX_OPEN_CONNS") c.mysql_max_open_conns
    login ← read_of p.atoi env (ascii "SEI_LOGIN_RATE_LIMIT") c.login_rate_limit
    command ← read_of p.atoi env (ascii "SEI_COMMAND_RATE_LIMIT") c.command_rate_limit
    demo ← read_of p.atoi env (ascii "SEI_DEMO_COMMAND_RATE_LIMIT") c.demo_command_rate_limit
    targets ← read_of p.atoi env (ascii "SEI_DEMO_MAX_TARGETS") c.demo_max_targets
    clients ← read_of p.atoi env (ascii "SEI_MAX_EVENT_CLIENTS") c.max_event_clients
    days ← read_of p.atoi env (ascii "SEI_AUDIT_RETENTION_DAYS") c.audit_retention_days
    default ← read_of p.atoi env (ascii "SEI_DEFAULT_PAGE_SIZE") c.default_page_size
    most ← read_of p.atoi env (ascii "SEI_MAX_PAGE_SIZE") c.max_page_size
    ok (record c {
      mysql_max_open_conns = conns;
      login_rate_limit = login;
      command_rate_limit = command;
      demo_command_rate_limit = demo;
      demo_max_targets = targets;
      max_event_clients = clients;
      audit_retention_days = days;
      default_page_size = default;
      max_page_size = most;
    })

  -- the loop over the flags
  unfoldable pub merge_flags : Config → Result Text Config
  merge_flags c = do
    secure ← read_of p.parse_bool env (ascii "SEI_SECURE_COOKIES") c.secure_cookies
    demo ← read_of p.parse_bool env (ascii "SEI_DEMO_MODE") c.demo_mode
    client_ip ← read_of p.parse_bool env (ascii "SEI_AUDIT_CLIENT_IP") c.audit_client_ip
    ok (record c { secure_cookies = secure; demo_mode = demo; audit_client_ip = client_ip })

  -- the loop over the durations
  unfoldable pub merge_durations : Config → Result Text Config
  merge_durations c = do
    ttl ← read_of p.parse_duration env (ascii "SEI_SESSION_TTL") c.session_ttl
    worker ← read_of p.parse_duration env (ascii "SEI_WORKER_TIMEOUT") c.worker_timeout
    query ← read_of p.parse_duration env (ascii "SEI_QUERY_TIMEOUT") c.query_timeout
    ok (record c { session_ttl = ttl; worker_timeout = worker; query_timeout = query })

  -- `mergeEnv`
  unfoldable pub merge_env : Config → Result Text Config
  merge_env c = do
    numbered ← merge_ints (merge_texts env c)
    flagged ←
        merge_flags
          (record numbered { demo_commands = demo_commands_of env numbered.demo_commands })
    merge_durations flagged
