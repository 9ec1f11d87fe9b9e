-- ===== src/Config/Tests.antt =====
-- The theorems on the configuration, at the defaults with a database.
use interface.Prelude.{◌≡◌, ◌↔◌, refl, true, [], ◌∷◌, ℕ_discrete}
use interface.Text.{ascii, text_dec}
use interface.Config.{Config, default_config, is_demo_command, allows_demo_command}
use interface.Config.Validate.{
  validate, all_errors, provider_errors, demo_errors, demo_error, dsn_required,
}
use interface.Config.Sound.{IsSound, Grant, validate-IsSound_iff, allows_demo_command-granted}

abbrev demo_config : Config
demo_config = record default_config {
  mysql_dsn = ascii "sei@/naemon";
  demo_mode = true;
  demo_commands = ascii "acknowledge" ∷ [];
}

validate-IsSound_iff_example : (validate demo_config ≡ []) ↔ IsSound demo_config
validate-IsSound_iff_example = validate-IsSound_iff demo_config

demo_config-valid : validate demo_config ≡ []
unfolding validate all_errors provider_errors demo_errors demo_error is_demo_command default_config
    text_dec ℕ_discrete
demo_config-valid = refl

-- the defaults lack the database, and nothing else
default_config-lacks : validate default_config ≡ dsn_required ∷ []
unfolding validate all_errors provider_errors demo_errors demo_error is_demo_command default_config
    text_dec ℕ_discrete
default_config-lacks = refl

allowed : allows_demo_command demo_config (ascii "acknowledge") ≡ true
unfolding allows_demo_command default_config text_dec ℕ_discrete
allowed = refl

allows_demo_command-granted_example : Grant (ascii "acknowledge")
allows_demo_command-granted_example =
    allows_demo_command-granted demo_config (ascii "acknowledge") demo_config-valid allowed
