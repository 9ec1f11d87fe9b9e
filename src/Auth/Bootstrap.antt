-- ===== src/Auth/Bootstrap.antt =====
-- internal/auth/bootstrap.go: the built-in roles, and how they are kept as the code says.
pub mod Same
use interface.Prelude.{
  ℕ, zero, suc, Bool, true, false, not, ◌||◌, Option, none, some, List, [], ◌∷◌, ◌++◌, length, ◌==◌,
  if◌then◌else◌,
}
use interface.Prelude.Maps.{lookup, insert}
use interface.Prelude.Counts.{count_of, bump}
use interface.Prelude.Sets.{has}
use interface.Prelude.Result.{Result, ok, err}
use interface.Text.{Text, ascii, is_empty, eq, text_dec}
use interface.Auth.Model.{AuthError, not_found, duplicate, Role}
use interface.Auth.Permissions.{wildcard, read_permissions, command_permissions, demo_permissions}
use interface.Auth.Permissions.Perm
use interface.Auth.Service.{role_guest, role_demo}

-- a role as the code defines it
pub record Builtin : Type 0 where
  pub name : Text
  pub description : Text
  pub permissions : List Text

abbrev pub role_admin : Text
role_admin = ascii "admin"

abbrev pub role_operator : Text
role_operator = ascii "operator"

abbrev pub demo_role : List Text → List Builtin
demo_role [] = []
demo_role (c ∷ cs) =
    record {
      name = role_demo;
      description =
          ascii "The public demo account: read-only plus the commands named in demo_commands";
      permissions = demo_permissions (c ∷ cs);
    }
    ∷ []

-- the roles that `Bootstrap` keeps
unfoldable pub builtins : List Text → List Builtin
builtins demo_commands =
    record {
      name = role_admin;
      description = ascii "Full access, including user management";
      permissions = wildcard ∷ [];
    }
    ∷ record {
      name = role_operator;
      description = ascii "Read everything and submit external commands";
      permissions = (read_permissions ++ command_permissions) ++ Perm.audit_read ∷ [];
    }
    ∷ record {
      name = role_guest;
      description = ascii "Read-only; every external command is refused";
      permissions = read_permissions;
    }
    ∷ demo_role demo_commands

abbrev pub Tally : Type 0
Tally = List (Text × ℕ)

-- `seen[p]++` for each permission
unfoldable pub tally : List Text → Tally → Tally
tally [] seen = seen
tally (p ∷ ps) seen = tally ps (bump text_dec p 1 seen)

-- `seen[p]--`, unless that is below zero
unfoldable pub take_one : Text → Tally → Option Tally
take_one p seen = elim (count_of text_dec p seen) [
  | zero ↦ none
  | suc n ↦ some (insert text_dec p n seen)
]

-- the second loop of `samePermissions`
unfoldable pub untally : List Text → Tally → Option Tally
untally [] seen = some seen
untally (p ∷ ps) seen = elim (take_one p seen) [ none ↦ none | some rest ↦ untally ps rest ]

-- `samePermissions`
unfoldable pub same_permissions : List Text → List Text → Bool
same_permissions a b =
    if not (length a == length b)
    then false
    else elim (untally b (tally a [])) [ none ↦ false | some rest ↦ true ]

-- `missing`
unfoldable pub missing : List Text → List Text → List Text
missing [] have = []
missing (p ∷ want) have =
    let rest = missing want have in if has text_dec p have then rest else p ∷ rest

-- The store's calls that the loop makes, over a state of the database.
pub record RoleStore : Type 1 where
  pub State : Type 0
  pub role_by_name : Text → State → Result AuthError Role
  pub set_role_permissions : ℕ → List Text → State → State × Result AuthError (Unit {0})
  pub create_role : Builtin → State → State × Result AuthError (Unit {0})

-- another instance may have created the role first
unfoldable pub after_create : Result AuthError (Unit {0}) → Result AuthError (Unit {0})
after_create (ok u) = ok tt
after_create (err duplicate) = ok tt
after_create (err e) = err e

module _ (store : RoleStore) where
  -- one turn of the loop of `Bootstrap`
  unfoldable pub keep_role : Builtin → store.State → store.State × Result AuthError (Unit {0})
  keep_role r s = elim (store.role_by_name r.name s) [
    | ok existing ↦
        if same_permissions existing.permissions r.permissions
        then (s, ok tt)
        else store.set_role_permissions existing.id r.permissions s
    | err not_found ↦ let (s', made) = store.create_role r s in (s', after_create made)
    | err e ↦ (s, err e)
  ]

  -- the loop
  unfoldable pub keep_roles : List Builtin → store.State → store.State × Result AuthError (Unit {0})
  keep_roles [] s = (s, ok tt)
  keep_roles (r ∷ rs) s =
      let (s', kept) = keep_role r s in elim kept [ ok u ↦ keep_roles rs s' | err e ↦ (s', err e) ]
