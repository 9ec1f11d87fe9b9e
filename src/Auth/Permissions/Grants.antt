-- ===== src/Auth/Permissions/Grants.antt =====
-- What a permission set grants, and what the demo account can be granted.
use interface.Prelude.{
  ◌≡◌, ◌≢◌, ◌⊎◌, inl, inr, refl, ap, ◌∙◌, Bool, true, false, ◌||◌, ◌&&◌, not, some, List, [], ◌∷◌,
  ◌++◌, any, arith, In, All, All-append, Bool-cases, Option-cases,
}
use interface.Prelude.Sets.{has, has-add, has-In}
use interface.Text.{Text, is_empty, eq, text_dec}
use interface.Text.Trim.{trim_space}
use interface.Auth.Permissions.Perm
use interface.Auth.Permissions.{
  wildcard, read_permissions, all_permissions, demo_command_permission, PermissionSet, grant,
  grant_all, new_permission_set, grants, granted_among, list, demo_commands, demo_permissions,
}

-- one entry of a stored list, trimmed, grants what it names
abbrev entry_grants : Text → Text → Bool
entry_grants q p = eq p wildcard || (eq p q && not (is_empty p))

grants-grant :
    (p q : Text) (ps : PermissionSet) → grants (grant p ps) q ≡ (grants ps q || entry_grants q p)
unfolding grants grant
grants-grant p q ps = ground (arith, has-add text_dec p q ps.perms)

grants-grant_all :
    (perms : List Text) (q : Text) (ps : PermissionSet)
    → grants (grant_all perms ps) q
      ≡ (grants ps q || any (λ p. entry_grants q (trim_space p)) perms)
unfolding grant_all
grants-grant_all [] q ps = ground arith
grants-grant_all (p ∷ more) q ps =
    ground
      (arith, grants-grant_all more q (grant (trim_space p) ps), grants-grant (trim_space p) q ps)

-- A set grants a permission exactly when one of the stored entries, with the white space around it
-- cut, is the wildcard or that permission.
pub grants-new_permission_set :
    (perms : List Text) (q : Text)
    → grants (new_permission_set perms) q ≡ any (λ p. entry_grants q (trim_space p)) perms
unfolding new_permission_set
grants-new_permission_set perms q =
    grants-grant_all perms q (record { all_granted = false; perms = [] }) ∙ grants_none
  where
    grants_none :
        (grants (record { all_granted = false; perms = [] }) q
          || any (λ p. entry_grants q (trim_space p)) perms)
        ≡ any (λ p. entry_grants q (trim_space p)) perms
    grants_none = unfold grants in refl

has-append :
    (x : Text) (xs ys : List Text)
    → has text_dec x (xs ++ ys) ≡ (has text_dec x xs || has text_dec x ys)
has-append x [] ys = refl
has-append x (y ∷ xs) ys = ground (arith, has-append x xs ys)

granted_among-has :
    (ps : PermissionSet) (q : Text) (among : List Text)
    → has text_dec q (granted_among ps among) ≡ (has text_dec q among && has text_dec q ps.perms)
unfolding granted_among
granted_among-has ps q [] = refl
granted_among-has ps q (p ∷ more) = ground (arith, granted_among-has ps q more)

-- `List` names exactly the permissions of the catalogue that the set grants.
pub list-grants :
    (ps : PermissionSet) (q : Text)
    → has text_dec q (list ps) ≡ (has text_dec q all_permissions && grants ps q)
unfolding list grants
list-grants ps q = ground (arith, granted_among-has ps q all_permissions)

demo_commands-has :
    (allowlist : List Text) (p : Text)
    → has text_dec p (demo_commands allowlist) ≡ true
    → (name : Text) × In name allowlist × (demo_command_permission name ≡ some p)
unfolding demo_commands
demo_commands-has [] p h = absurd (cc)
demo_commands-has (name ∷ more) p h = elim (Option-cases (demo_command_permission name)) [
  | inl unknown ↦ let (n, m, e) = demo_commands-has more p (ground arith) in (n, inr m, e)
  | inr (q, known) ↦ elim (text_dec q p) [
    | yes same ↦ (name, inl refl, known ∙ ap some same)
    | no other ↦ let (n, m, e) = demo_commands-has more p (ground arith) in (n, inr m, e)
  ]
]

-- The demo role holds a permission only for reading, or for a command that the allowlist names.
pub demo_permissions-has :
    (allowlist : List Text) (p : Text)
    → has text_dec p (demo_permissions allowlist) ≡ true
    → In p read_permissions
      ⊎ ((name : Text) × In name allowlist × (demo_command_permission name ≡ some p))
unfolding demo_permissions
demo_permissions-has allowlist p h = elim (Bool-cases (has text_dec p read_permissions)) [
  | inl reads ↦ inl (has-In text_dec p read_permissions reads)
  | inr other ↦ inr (
      demo_commands-has allowlist p
        (ground (arith, has-append p read_permissions (demo_commands allowlist))))
]

-- what no allowlist can grant
abbrev pub reserved : List Text
reserved = Perm.notification ∷ Perm.audit_read ∷ Perm.users_manage ∷ wildcard ∷ []

demo_command-reserved : (name p : Text) → In p reserved → demo_command_permission name ≡ some p → ⊥
unfolding demo_command_permission
demo_command-reserved name p m h = ground arith

read-reserved : (p : Text) → In p reserved → In p read_permissions → ⊥
read-reserved p m r = ground arith

-- Whatever the allowlist, the demo role holds neither notifications nor the audit, neither the
-- management of users nor the wildcard.
pub demo_permissions-reserved :
    (allowlist : List Text) (p : Text)
    → In p reserved
    → has text_dec p (demo_permissions allowlist) ≡ false
demo_permissions-reserved allowlist p m =
    elim (Bool-cases (has text_dec p (demo_permissions allowlist))) [
      | inr absent ↦ absent
      | inl present ↦ elim (demo_permissions-has allowlist p present) [
        | inl r ↦ absurd (read-reserved p m r)
        | inr (name, _, e) ↦ absurd (demo_command-reserved name p m e)
      ]
    ]

demo_command-trimmed : (name p : Text) → demo_command_permission name ≡ some p → trim_space p ≡ p
unfolding demo_command_permission trim_space
demo_command-trimmed name p h = ground arith

abbrev Trimmed : List Text → Type 0
Trimmed = All (λ p. trim_space p ≡ p)

read-Trimmed : Trimmed read_permissions
unfolding trim_space
read-Trimmed = (refl, (refl, (refl, (refl, (refl, (refl, (refl, (refl, tt))))))))

demo_commands-Trimmed : (allowlist : List Text) → Trimmed (demo_commands allowlist)
unfolding demo_commands
demo_commands-Trimmed [] = tt
demo_commands-Trimmed (name ∷ more) = elim (Option-cases (demo_command_permission name)) [
  | inl unknown ↦ rw (unknown, demo_commands) (demo_commands-Trimmed more)
  | inr (p, known) ↦
      rw (known, demo_commands) (demo_command-trimmed name p known, demo_commands-Trimmed more)
]

any-Trimmed :
    (q : Text) (perms : List Text)
    → Trimmed perms
    → q ≢ []
    → has text_dec wildcard perms ≡ false
    → any (λ p. entry_grants q (trim_space p)) perms ≡ has text_dec q perms
any-Trimmed q [] t n w = refl
any-Trimmed q (p ∷ more) (e, t) n w = rw e (ground (arith, any-Trimmed q more t n))

demo_permissions-Trimmed : (allowlist : List Text) → Trimmed (demo_permissions allowlist)
unfolding demo_permissions
demo_permissions-Trimmed allowlist =
    All-append (λ p. trim_space p ≡ p) read_permissions (demo_commands allowlist) read-Trimmed
      (demo_commands-Trimmed allowlist)

-- The set that the demo login is held to grants a permission exactly when the demo role holds it.
pub grants-demo_permissions :
    (allowlist : List Text) (q : Text)
    → q ≢ []
    → grants (new_permission_set (demo_permissions allowlist)) q
      ≡ has text_dec q (demo_permissions allowlist)
grants-demo_permissions allowlist q n =
    grants-new_permission_set (demo_permissions allowlist) q
    ∙ any-Trimmed q (demo_permissions allowlist) (demo_permissions-Trimmed allowlist) n
        (demo_permissions-reserved allowlist wildcard (inr (inr (inr (inl refl)))))
