-- ===== src/Auth/Permissions.antt =====
-- internal/auth/permissions.go
pub mod Perm
pub mod Grants
use interface.Prelude.{
  ℕ, Bool, true, false, ◌||◌, Option, none, some, List, [], ◌∷◌, ◌++◌, any, if◌then◌else◌,
}
use interface.Prelude.Sets.{has, add}
use interface.Text.{Text, ascii, is_empty, eq, text_dec}
use interface.Text.Trim.{trim_space}

abbrev pub wildcard : Text
wildcard = ascii "*"

abbrev pub read_permissions : List Text
read_permissions =
    Perm.hosts_read ∷ Perm.services_read ∷ Perm.problems_read ∷ Perm.downtimes_read ∷ Perm.acks_read
    ∷ Perm.log_entries_read ∷ Perm.history_read ∷ Perm.metrics_read ∷ []

abbrev pub command_permissions : List Text
command_permissions =
    Perm.reschedule ∷ Perm.acknowledge ∷ Perm.downtime ∷ Perm.notification ∷ Perm.passive_result
    ∷ Perm.toggle ∷ []

unfoldable pub demo_command_permission : Text → Option Text
demo_command_permission name =
    if eq name (ascii "acknowledge")
    then some Perm.acknowledge
    else if eq name (ascii "downtime")
    then some Perm.downtime
    else if eq name (ascii "reschedule")
    then some Perm.reschedule
    else if eq name (ascii "submit-result")
    then some Perm.passive_result
    else if eq name (ascii "toggle")
    then some Perm.toggle
    else none

abbrev pub all_permissions : List Text
all_permissions =
    (read_permissions ++ command_permissions) ++ Perm.audit_read ∷ Perm.users_manage ∷ []

unfoldable pub is_known_permission : Text → Bool
is_known_permission s = eq s wildcard || has text_dec s all_permissions

pub record PermissionSet : Type 0 where
  pub all_granted : Bool
  pub perms : List Text

-- one turn of the loop of `NewPermissionSet`, for an entry that is trimmed
unfoldable pub grant : Text → PermissionSet → PermissionSet
grant p ps =
    if eq p wildcard
    then record ps { all_granted = true }
    else if is_empty p
    then ps
    else record ps { perms = add text_dec p ps.perms }

unfoldable pub grant_all : List Text → PermissionSet → PermissionSet
grant_all [] ps = ps
grant_all (p ∷ more) ps = grant_all more (grant (trim_space p) ps)

unfoldable pub new_permission_set : List Text → PermissionSet
unfolding grant_all grant
new_permission_set perms = grant_all perms (record { all_granted = false; perms = [] })

-- `PermissionSet.Has`
unfoldable pub grants : PermissionSet → Text → Bool
grants ps perm = if ps.all_granted then true else has text_dec perm ps.perms

unfoldable pub has_any_command : PermissionSet → Bool
unfolding grants
has_any_command ps = if ps.all_granted then true else any (λ p. grants ps p) command_permissions

unfoldable pub granted_among : PermissionSet → List Text → List Text
granted_among ps [] = []
granted_among ps (p ∷ more) =
    let rest = granted_among ps more in if has text_dec p ps.perms then p ∷ rest else rest

-- `PermissionSet.List`
unfoldable pub list : PermissionSet → List Text
unfolding granted_among
list ps = if ps.all_granted then all_permissions else granted_among ps all_permissions

-- `DemoPermissions`, of internal/auth/bootstrap.go: the reading permissions and the listed commands
unfoldable pub demo_commands : List Text → List Text
demo_commands [] = []
demo_commands (name ∷ more) = elim (demo_command_permission name) [
  | none ↦ demo_commands more
  | some p ↦ p ∷ demo_commands more
]

unfoldable pub demo_permissions : List Text → List Text
unfolding demo_commands demo_command_permission
demo_permissions allowlist = read_permissions ++ demo_commands allowlist
