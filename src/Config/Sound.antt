-- ===== src/Config/Sound.antt =====
-- What a validated configuration guarantees the rest of the program.
use interface.Prelude.{
  ◌≡◌, ◌↔◌, refl, Bool, true, false, not, ◌||◌, some, List, [], ◌∷◌, ◌++◌, arith, ℕ_discrete, All,
  All-In, In, inl, inr, ◌⊎◌,
}
use interface.Prelude.Sets.{has, has-In}
use interface.Prelude.Int.{ℤ, pos, ltb_ℤ, leb_ℤ, ◌≤ℤ◌}
use interface.Text.{Text, ascii, is_empty, eq, text_dec}
use interface.Auth.Permissions.{demo_command_permission}
use interface.Auth.Permissions.Perm
use interface.Config.{
  Config, demo_command_notify, demo_command_names, is_demo_command, allows_demo_command,
}
use interface.Config.Validate.{
  ConfigError, error_if, provider_errors, demo_error, demo_errors, all_errors, checks, validate,
}

-- a command that has a permission, which is not that of notifications
abbrev pub IsHarmless : Text → Type 0
IsHarmless name = (is_demo_command name ≡ true) × (eq name demo_command_notify ≡ false)

abbrev pub IsProvided : Config → Type 0
IsProvided c =
    (eq c.metrics_provider (ascii "mysql") ≡ true)
    ⊎ ((eq c.metrics_provider (ascii "graphite") ≡ true) × (is_empty c.graphite_url ≡ false))

-- What the rest of the program relies on.
pub record IsSound (c : Config) : Type 0 where
  pub has_dsn : is_empty c.mysql_dsn ≡ false
  pub has_addr : is_empty c.listen_addr ≡ false
  pub provided : IsProvided c
  pub logs : (eq c.log_format (ascii "text") || eq c.log_format (ascii "json")) ≡ true
  pub page_positive : pos 1 ≤ℤ c.default_page_size
  pub page_ordered : c.default_page_size ≤ℤ c.max_page_size
  pub session_lives : pos 1 ≤ℤ c.session_ttl
  pub demo : All IsHarmless c.demo_commands
  pub demo_targets : pos 1 ≤ℤ c.demo_max_targets
  pub retention : pos 0 ≤ℤ c.audit_retention_days
  pub event_clients : pos 1 ≤ℤ c.max_event_clients
  pub query_time : pos 1 ≤ℤ c.query_timeout

append-nil_iff : {A : Type 0} (xs ys : List A) → (xs ++ ys ≡ []) ↔ ((xs ≡ []) × (ys ≡ []))
append-nil_iff [] ys = (λ h. (refl, h), λ h. h.1)
append-nil_iff (x ∷ xs) ys = (λ h. absurd (cc), λ h. absurd (cc))

error_if-nil_iff : (b : Bool) (e : ConfigError) → (error_if b e ≡ []) ↔ (b ≡ false)
error_if-nil_iff true e = (λ h. absurd (cc), λ h. absurd (cc))
error_if-nil_iff false e = (λ h. refl, λ h. refl)

demo_error-nil_iff : (name : Text) → (demo_error name ≡ []) ↔ IsHarmless name
unfolding demo_error
demo_error-nil_iff name = ground arith

demo_errors-nil_iff : (names : List Text) → (demo_errors names ≡ []) ↔ All IsHarmless names
unfolding demo_errors
demo_errors-nil_iff [] = (λ h. tt, λ h. refl)
demo_errors-nil_iff (name ∷ names) =
    let (split, append) = append-nil_iff (demo_error name) (demo_errors names) in
    let (first, first_back) = demo_error-nil_iff name in
    let (rest, rest_back) = demo_errors-nil_iff names in
    (λ h. let (a, b) = split h in (first a, rest b), λ (i, k). append (first_back i, rest_back k))

provider-nil_iff : (c : Config) → (provider_errors c ≡ []) ↔ IsProvided c
unfolding provider_errors
provider-nil_iff c = ground arith

not_leb_iff : (a : ℤ) → (leb_ℤ a (pos 0) ≡ false) ↔ (pos 1 ≤ℤ a)
not_leb_iff a = ground arith

not_ltb_iff : (a b : ℤ) → (ltb_ℤ a b ≡ false) ↔ (b ≤ℤ a)
not_ltb_iff a b = ground arith

denied_iff : (b : Bool) → (not b ≡ false) ↔ (b ≡ true)
denied_iff b = ground arith

all_errors-nil_iff :
    (ess : List (List ConfigError)) → (all_errors ess ≡ []) ↔ All (λ es. es ≡ []) ess
unfolding all_errors
all_errors-nil_iff [] = (λ h. tt, λ h. refl)
all_errors-nil_iff (es ∷ ess) =
    let (split, append) = append-nil_iff es (all_errors ess) in
    let (rest, rest_back) = all_errors-nil_iff ess in
    (λ h. let (a, b) = split h in (a, rest b), λ (a, k). append (a, rest_back k))

test_off : (b : Bool) (e : ConfigError) → error_if b e ≡ [] → b ≡ false
test_off b e = (error_if-nil_iff b e).0

no_error : (b : Bool) (e : ConfigError) → b ≡ false → error_if b e ≡ []
no_error b e = (error_if-nil_iff b e).1

validate-IsSound : (c : Config) → validate c ≡ [] → IsSound c
unfolding validate
validate-IsSound c h =
    let (
      dsn,
      (
        addr,
        (
          provider,
          (logs, (low, (ordered, (ttl, (demo, (targets, (days, (clients, (time, _))))))))),
        ),
      ),
    ) =
      (all_errors-nil_iff (checks c)).0 h in
    record {
      has_dsn = test_off _ _ dsn;
      has_addr = test_off _ _ addr;
      provided = (provider-nil_iff c).0 provider;
      logs = (denied_iff _).0 (test_off _ _ logs);
      page_positive = (not_ltb_iff c.default_page_size (pos 1)).0 (test_off _ _ low);
      page_ordered = (not_ltb_iff c.max_page_size c.default_page_size).0 (test_off _ _ ordered);
      session_lives = (not_leb_iff c.session_ttl).0 (test_off _ _ ttl);
      demo = (demo_errors-nil_iff c.demo_commands).0 demo;
      demo_targets = (not_ltb_iff c.demo_max_targets (pos 1)).0 (test_off _ _ targets);
      retention = (not_ltb_iff c.audit_retention_days (pos 0)).0 (test_off _ _ days);
      event_clients = (not_ltb_iff c.max_event_clients (pos 1)).0 (test_off _ _ clients);
      query_time = (not_leb_iff c.query_timeout).0 (test_off _ _ time);
    }

validate_complete : (c : Config) → IsSound c → validate c ≡ []
unfolding validate
validate_complete c s = (all_errors-nil_iff (checks c)).1 (
  no_error _ _ s.has_dsn,
  (
    no_error _ _ s.has_addr,
    (
      (provider-nil_iff c).1 s.provided,
      (
        no_error _ _ ((denied_iff _).1 s.logs),
        (
          no_error _ _ ((not_ltb_iff c.default_page_size (pos 1)).1 s.page_positive),
          (
            no_error _ _ ((not_ltb_iff c.max_page_size c.default_page_size).1 s.page_ordered),
            (
              no_error _ _ ((not_leb_iff c.session_ttl).1 s.session_lives),
              (
                (demo_errors-nil_iff c.demo_commands).1 s.demo,
                (
                  no_error _ _ ((not_ltb_iff c.demo_max_targets (pos 1)).1 s.demo_targets),
                  (
                    no_error _ _ ((not_ltb_iff c.audit_retention_days (pos 0)).1 s.retention),
                    (
                      no_error _ _ ((not_ltb_iff c.max_event_clients (pos 1)).1 s.event_clients),
                      (no_error _ _ ((not_leb_iff c.query_timeout).1 s.query_time), tt),
                    ),
                  ),
                ),
              ),
            ),
          ),
        ),
      ),
    ),
  ),
)

-- A configuration passes `Validate` exactly when it has a database and an address, a provider with
-- what it needs, a log format that exists, page sizes in order from one on, times and caps above
-- zero, a retention that is not negative, and only demo commands that exist and are not "notify".
pub validate-IsSound_iff : (c : Config) → (validate c ≡ []) ↔ IsSound c
validate-IsSound_iff c = (validate-IsSound c, validate_complete c)

-- a permission that is not the one of notifications
abbrev pub Grant : Text → Type 0
Grant name = (p : Text) × (demo_command_permission name ≡ some p) × (eq p Perm.notification ≡ false)

granted_one : (name : Text) → In name demo_command_names → Grant name
unfolding demo_command_permission text_dec ℕ_discrete
granted_one name (inl e) = rw e (Perm.acknowledge, refl, refl)
granted_one name (inr (inl e)) = rw e (Perm.downtime, refl, refl)
granted_one name (inr (inr (inl e))) = rw e (Perm.reschedule, refl, refl)
granted_one name (inr (inr (inr (inl e)))) = rw e (Perm.passive_result, refl, refl)
granted_one name (inr (inr (inr (inr (inl e))))) = rw e (Perm.toggle, refl, refl)
granted_one name (inr (inr (inr (inr (inr m))))) = absurd m

-- What the demo account may do under a validated configuration has a permission of its own, and that
-- permission is never the one of custom notifications, whatever the configuration lists.
pub allows_demo_command-granted :
    (c : Config) (name : Text) → validate c ≡ [] → allows_demo_command c name ≡ true → Grant name
unfolding allows_demo_command is_demo_command
allows_demo_command-granted c name valid h =
    let allowed : has text_dec name c.demo_commands ≡ true = ground arith in
    let (known, _) =
      All-In IsHarmless name c.demo_commands (validate-IsSound c valid).demo
        (has-In text_dec name c.demo_commands allowed) in
    granted_one name (has-In text_dec name demo_command_names known)
