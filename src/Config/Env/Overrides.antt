-- ===== src/Config/Env/Overrides.antt =====
-- What the environment leaves of a configuration.
use mathlib.Core.Path.{fun_ext}
use interface.Prelude.{◌≡◌, refl, sym, subst, none}
use interface.Prelude.Result.{ok}
use interface.Text.{Text}
use interface.Config.{Config}
use interface.Config.Env.{
  Environment, Parsers, demo_commands_of, merge_texts, merge_ints, merge_flags, merge_durations,
  merge_env,
}

unset : (p : Parsers) (c : Config) → merge_env p (λ _. none) c ≡ ok c
unfolding merge_env merge_ints merge_flags merge_durations merge_texts demo_commands_of
unset p c = refl

-- An environment that sets none of the variables changes no setting, whatever the parsers do.
pub merge_env_of_unset :
    (p : Parsers) (env : Environment) (c : Config)
    → ((name : Text) → env name ≡ none)
    → merge_env p env c ≡ ok c
merge_env_of_unset p env c h =
    let same : env ≡ (λ _. none) = fun_ext h in
    subst (λ e. merge_env p e c ≡ ok c) (sym same) (unset p c)
