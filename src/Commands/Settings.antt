-- ===== src/Commands/Settings.antt =====
-- Switches: acceptance, and what is sent.
use interface.Prelude.{
  ◌≡◌, ◌≢◌, ◌↔◌, refl, sym, subst, ℕ_discrete, Bool, true, false, Option, none, some, ◌∙◌,
  Bool-cases, List, [], ◌∷◌, ◌++◌, arith, Option-cases, inl, inr, if◌then◌else◌, In,
}
use interface.Prelude.Result.{ok}
use interface.Text.{Text, ascii, text_dec}
use interface.Text.Fields.{Lacks}
use interface.Commands.{is_service, validate, Envelope, raw}
use interface.Commands.Builders.{object_fields}
use interface.Commands.Results.{ToggleRequest, toggle, switches, switch_commands, switch_verb}
use interface.Commands.Carried.{IsAddressable, validate-IsAddressable_iff}
use interface.Commands.Arguments.{arguments, arguments-raw, object_fields-Undivided}
use interface.Commands.Acceptance.{Accepted}

switch_commands_iff : (s : Text) → (switch_commands s ≢ none) ↔ In s switches
unfolding switch_commands
switch_commands_iff s = (λ h. ground arith, λ h. ground arith)

-- A setting, and the core's four commands for it.
pub record SettingCommands : Type 0 where
  pub name : Text
  pub enable_host : Text
  pub disable_host : Text
  pub enable_service : Text
  pub disable_service : Text

-- the core's commands, spelled out
abbrev pub settings : List SettingCommands
settings =
    record {
      name = ascii "active_checks";
      enable_host = ascii "ENABLE_HOST_CHECK";
      disable_host = ascii "DISABLE_HOST_CHECK";
      enable_service = ascii "ENABLE_SVC_CHECK";
      disable_service = ascii "DISABLE_SVC_CHECK";
    }
    ∷ record {
      name = ascii "passive_checks";
      enable_host = ascii "ENABLE_PASSIVE_HOST_CHECKS";
      disable_host = ascii "DISABLE_PASSIVE_HOST_CHECKS";
      enable_service = ascii "ENABLE_PASSIVE_SVC_CHECKS";
      disable_service = ascii "DISABLE_PASSIVE_SVC_CHECKS";
    }
    ∷ record {
      name = ascii "notifications";
      enable_host = ascii "ENABLE_HOST_NOTIFICATIONS";
      disable_host = ascii "DISABLE_HOST_NOTIFICATIONS";
      enable_service = ascii "ENABLE_SVC_NOTIFICATIONS";
      disable_service = ascii "DISABLE_SVC_NOTIFICATIONS";
    }
    ∷ record {
      name = ascii "flap_detection";
      enable_host = ascii "ENABLE_HOST_FLAP_DETECTION";
      disable_host = ascii "DISABLE_HOST_FLAP_DETECTION";
      enable_service = ascii "ENABLE_SVC_FLAP_DETECTION";
      disable_service = ascii "DISABLE_SVC_FLAP_DETECTION";
    }
    ∷ record {
      name = ascii "event_handler";
      enable_host = ascii "ENABLE_HOST_EVENT_HANDLER";
      disable_host = ascii "DISABLE_HOST_EVENT_HANDLER";
      enable_service = ascii "ENABLE_SVC_EVENT_HANDLER";
      disable_service = ascii "DISABLE_SVC_EVENT_HANDLER";
    }
    ∷ []

-- which of the four: by what is asked for, and by the kind of the object
abbrev pub command_for : Bool → Bool → SettingCommands → Text
command_for true true e = e.enable_service
command_for true false e = e.enable_host
command_for false true e = e.disable_service
command_for false false e = e.disable_host

-- what the core reads of a change: the setting's command, and the host, or the host and the service
abbrev pub setting_line : ToggleRequest → SettingCommands → List Text
setting_line r e =
    command_for r.enable (is_service r.target) e
    ∷ r.target.hostname
    ∷ (if is_service r.target then r.target.description ∷ [] else [])

-- the command that the code puts together
abbrev switch_name : Bool → Bool → Text × Text → Text
switch_name enable service names =
    switch_verb enable ++ (ascii "_" ++ (if service then names.1 else names.0))

-- a setting of the table, whose commands the code puts together and which divide no line
IsSpelled : Text → Text × Text → SettingCommands → Type 0
IsSpelled s names e =
    In e settings
    × (e.name ≡ s)
    × ((enable service : Bool)
        → (switch_name enable service names ≡ command_for enable service e)
          × Lacks b';' (command_for enable service e))

IsSpelledAs : Text × Text → SettingCommands → Bool → Bool → Type 0
IsSpelledAs names e enable service =
    (switch_name enable service names ≡ command_for enable service e)
    × Lacks b';' (command_for enable service e)

spelled :
    (s : Text) (names known : Text × Text) (e : SettingCommands)
    → s ≡ e.name
    → ◌≡◌ {A = Option (Text × Text)} (some known) (some names)
    → In e settings
    → IsSpelledAs known e true true
    → IsSpelledAs known e true false
    → IsSpelledAs known e false true
    → IsSpelledAs known e false false
    → (x : SettingCommands) × IsSpelled s names x
unfolding IsSpelled IsSpelledAs
spelled s names known e q h i tt tf ft ff =
    let same : known ≡ names = cc in
    subst (λ n. (x : SettingCommands) × IsSpelled s n x) same (e, (i, sym q, go))
  where
    go : (enable service : Bool) → IsSpelledAs known e enable service
    go true true = tt
    go true false = tf
    go false true = ft
    go false false = ff

switch_commands-IsSpelled :
    (s : Text) (names : Text × Text)
    → switch_commands s ≡ some names
    → In s switches
    → (e : SettingCommands) × IsSpelled s names e
unfolding switch_commands text_dec ℕ_discrete IsSpelledAs
switch_commands-IsSpelled s names h i = elim i [
  | inl q ↦
      spelled s names _ _ q (rw q at h) (inl refl) (refl, omega arith) (refl, omega arith)
        (refl, omega arith) (refl, omega arith)
  | inr (inl q) ↦
      spelled s names _ _ q (rw q at h) (inr (inl refl)) (refl, omega arith) (refl, omega arith)
        (refl, omega arith) (refl, omega arith)
  | inr (inr (inl q)) ↦
      spelled s names _ _ q (rw q at h) (inr (inr (inl refl))) (refl, omega arith)
        (refl, omega arith) (refl, omega arith) (refl, omega arith)
  | inr (inr (inr (inl q))) ↦
      spelled s names _ _ q (rw q at h) (inr (inr (inr (inl refl)))) (refl, omega arith)
        (refl, omega arith) (refl, omega arith) (refl, omega arith)
  | inr (inr (inr (inr (inl q)))) ↦
      spelled s names _ _ q (rw q at h) (inr (inr (inr (inr (inl refl))))) (refl, omega arith)
        (refl, omega arith) (refl, omega arith) (refl, omega arith)
  | inr (inr (inr (inr (inr x)))) ↦ absurd x
]

toggle_of_names :
    (r : ToggleRequest) (names : Text × Text)
    → validate r.target ≡ ok tt
    → switch_commands r.switch ≡ some names
    → toggle r
      ≡ ok (raw (switch_name r.enable (is_service r.target) names) (object_fields r.target))
unfolding toggle
toggle_of_names r (host, service) v h = rw (v, h) (ground arith)

object_line :
    (r : ToggleRequest) (e : SettingCommands)
    → ◌≡◌ {A = Option (List Text)}
        (some (command_for r.enable (is_service r.target) e ∷ object_fields r.target))
        (some (setting_line r e))
object_line r e = elim (Bool-cases (is_service r.target)) [
  | inl service ↦ rw service
  | inr host ↦ rw host
]

-- A change of a setting is accepted exactly when its target can be addressed and `Switches` lists
-- the setting; the core then reads the command it has for that setting, for the kind of the object
-- and for what is asked, and the names of the object.
pub toggle-arguments :
    (r : ToggleRequest)
    → (Accepted (toggle r) ↔ (IsAddressable r.target × In r.switch switches))
      × ((e : Envelope)
          → toggle r ≡ ok e
          → (x : SettingCommands) × In x settings
            × (x.name ≡ r.switch)
            × (arguments e ≡ some (setting_line r x)))
unfolding IsSpelled
toggle-arguments r = ((to, from), reads)
  where
    t : (validate r.target ≡ ok tt) ↔ IsAddressable r.target
    t = validate-IsAddressable_iff r.target

    listed : (switch_commands r.switch ≢ none) ↔ In r.switch switches
    listed = switch_commands_iff r.switch

    to : Accepted (toggle r) → IsAddressable r.target × In r.switch switches
    to h =
        (t.0 (unfold toggle in ground arith), listed.0 (λ missing. unfold toggle in ground arith))

    from : IsAddressable r.target × In r.switch switches → Accepted (toggle r)
    from (a, i) = elim (Option-cases (switch_commands r.switch)) [
      | inl missing ↦ absurd (listed.1 i missing)
      | inr (names, found) ↦ (
        raw (switch_name r.enable (is_service r.target) names) (object_fields r.target),
        toggle_of_names r names (t.1 a) found,
      )
    ]

    reads :
        (e : Envelope)
        → toggle r ≡ ok e
        → (x : SettingCommands) × In x settings
          × (x.name ≡ r.switch)
          × (arguments e ≡ some (setting_line r x))
    reads e h = elim (Option-cases (switch_commands r.switch)) [
      | inl missing ↦ absurd (listed.1 (to (e, h)).1 missing)
      | inr (names, found) ↦
          let (x, holds) = switch_commands-IsSpelled r.switch names found (to (e, h)).1 in
          let (i, same, spells) = holds in
          let (name_same, lacks) = spells r.enable (is_service r.target) in
          let built : e
              ≡ raw (command_for r.enable (is_service r.target) x) (object_fields r.target) =
            cc (toggle_of_names r names (t.1 (to (e, h)).0) found) in
          (
            x,
            i,
            same,
            rw built (
                arguments-raw _ _ lacks (object_fields-Undivided r.target (to (e, h)).0)
                ∙ object_line r x),
          )
    ]
