-- ===== src/Auth/Service/Demo.antt =====
-- What the passwordless login can give away.
use interface.Prelude.{
  ◌≡◌, ◌≢◌, ◌⊎◌, inl, inr, refl, sym, ◌∙◌, Bool, true, false, not, some, List, [], ◌∷◌, all, arith,
  ℕ_discrete, In, All-In, all→All, Bool-cases,
}
use interface.Prelude.Sets.{has, has-In}
use interface.Prelude.Result.{ok, Result-cases}
use interface.Text.{Text, is_empty, text_dec}
use interface.RateLimit.{allow}
use interface.Auth.Permissions.{
  new_permission_set, grants, list, all_permissions, read_permissions, demo_permissions,
  demo_command_permission,
}
use interface.Auth.Permissions.Perm
use interface.Auth.Permissions.Grants.{
  list-grants, grants-demo_permissions, demo_permissions-has, demo_permissions-reserved, reserved,
}
use interface.Auth.Model.{Role, User, Identity, Store, Crypto, Options, can}
use interface.Auth.Service.{
  ServiceState, Now, role_guest, role_demo, identity_for, demo_identity, login_demo, check_demo,
}
use interface.Auth.Service.Logins.{
  IsIdentityOf, IsIdentityOf-session, enter-ok, identity_for-IsIdentityOf,
}

-- An identity that may come out of the passwordless login.
pub record IsHarmless (allowlist : List Text) (i : Identity) : Type 0 where
  pub on_role : (i.role.name ≡ role_guest) ⊎ (i.role.name ≡ role_demo)
  pub held :
      (q : Text)
      → has text_dec q all_permissions ≡ true
      → can i q ≡ true
      → In q read_permissions
        ⊎ ((name : Text) × In name allowlist × (demo_command_permission name ≡ some q))
  pub withheld :
      (q : Text)
      → In q (Perm.notification ∷ Perm.audit_read ∷ Perm.users_manage ∷ [])
      → can i q ≡ false

abbrev demo_allows : List Text → Text → Bool
demo_allows allowlist = grants (new_permission_set (demo_permissions allowlist))

check_demo-ok :
    (allowlist : List Text) (i i' : Identity)
    → check_demo allowlist i ≡ ok i'
    → (i' ≡ i)
      × ((i.role.name ≡ role_guest) ⊎ (i.role.name ≡ role_demo))
      × (all (demo_allows allowlist) (list i.permissions) ≡ true)
unfolding check_demo
check_demo-ok allowlist i i' h = ground arith

known_nonempty : (q : Text) → has text_dec q all_permissions ≡ true → q ≢ []
known_nonempty q m = ground arith

-- what the guard lets pass is in the demo role's own list
held-demo_permissions :
    (allowlist : List Text) (i : Identity) (q : Text)
    → all (demo_allows allowlist) (list i.permissions) ≡ true
    → has text_dec q all_permissions ≡ true
    → can i q ≡ true
    → has text_dec q (demo_permissions allowlist) ≡ true
held-demo_permissions allowlist i q checked known holding =
    let listed : has text_dec q (list i.permissions) ≡ true =
      list-grants i.permissions q ∙ ground arith in
    sym (grants-demo_permissions allowlist q (known_nonempty q known))
    ∙ All-In (λ p. demo_allows allowlist p ≡ true) q (list i.permissions)
        (all→All (demo_allows allowlist) (list i.permissions) checked)
        (has-In text_dec q (list i.permissions) listed)

known_notification : has text_dec Perm.notification all_permissions ≡ true
unfolding text_dec ℕ_discrete
known_notification = refl

known_audit_read : has text_dec Perm.audit_read all_permissions ≡ true
unfolding text_dec ℕ_discrete
known_audit_read = refl

known_users_manage : has text_dec Perm.users_manage all_permissions ≡ true
unfolding text_dec ℕ_discrete
known_users_manage = refl

reserved_known :
    (q : Text)
    → In q (Perm.notification ∷ Perm.audit_read ∷ Perm.users_manage ∷ [])
    → (has text_dec q all_permissions ≡ true) × In q reserved
reserved_known q (inl e) = rw e (known_notification, inl refl)
reserved_known q (inr (inl e)) = rw e (known_audit_read, inr (inl refl))
reserved_known q (inr (inr (inl e))) = rw e (known_users_manage, inr (inr (inl refl)))
reserved_known q (inr (inr (inr m))) = absurd m

check_demo-IsHarmless :
    (allowlist : List Text) (i i' : Identity)
    → check_demo allowlist i ≡ ok i'
    → (i' ≡ i) × IsHarmless allowlist i
check_demo-IsHarmless allowlist i i' h =
    let (same, role, checked) = check_demo-ok allowlist i i' h in
    (
      same,
      record {
        on_role = role;
        held = λ q known holding.
            demo_permissions-has allowlist q
              (held-demo_permissions allowlist i q checked known holding);
        withheld = λ q m. elim (Bool-cases (can i q)) [
          | inr no_grant ↦ no_grant
          | inl holding ↦
              let (known, r) = reserved_known q m in
              absurd (
                cc (
                  held-demo_permissions allowlist i q checked known holding,
                  demo_permissions-reserved allowlist q r,
                ))
        ];
      },
    )

-- The name of the session gives nothing away.
IsHarmless-session :
    (allowlist : List Text) (i₀ i : Identity) (hash : Text)
    → i ≡ record i₀ { session_id = hash }
    → IsHarmless allowlist i₀
    → IsHarmless allowlist i
IsHarmless-session allowlist i₀ i hash same v =
    rw same (record { on_role = v.on_role; held = v.held; withheld = v.withheld })

nonempty : (t : Text) → is_empty t ≡ false → t ≢ []
nonempty t h = ground arith

module _ (store : Store) (crypto : Crypto) (opt : Options) where
  demo_identity-ok :
      (user : User) (rows : store.State) (i : Identity)
      → demo_identity store crypto opt user rows ≡ ok i
      → IsHarmless opt.demo_commands i
        × ((roles : List Role) × (store.list_roles rows ≡ ok roles) × IsIdentityOf user roles i)
  unfolding demo_identity
  demo_identity-ok user rows i h = elim (Result-cases (identity_for store crypto opt user rows)) [
    | inr (e, failed) ↦ absurd (ground arith)
    | inl (i₀, found) ↦
        let (same, harmless) =
          check_demo-IsHarmless opt.demo_commands i₀ i (rw (found, demo_identity) at h) in
        let resolved = identity_for-IsIdentityOf store crypto opt user rows i₀ found in
        rw same (harmless, resolved)
  ]

  -- The passwordless login succeeds only within the rate limit and for the configured account,
  -- which is active and whose identity is its own. That identity is on the guest or the demo role;
  -- of the known permissions it holds none but those for reading and for the listed commands; and
  -- it can neither notify, read the audit nor manage users, whatever the store says.
  pub login_demo-IsHarmless :
      (agent ip : Text) (now : Now) (s : ServiceState store crypto opt) (token : Text)
      (i : Identity)
      → (login_demo store crypto opt agent ip now s).1 ≡ ok (token, i)
      → (opt.demo_user ≢ [])
        × ((allow ip now.nanos s.limiter).1 ≡ true)
        × IsHarmless opt.demo_commands i
        × ((user : User) × (store.user_by_username opt.demo_user s.rows ≡ ok user)
            × (user.is_active ≡ true)
            × (roles : List Role) × (store.list_roles s.rows ≡ ok roles)
            × IsIdentityOf user roles i)
  unfolding login_demo
  login_demo-IsHarmless agent ip now s token i h = elim (Bool-cases (is_empty opt.demo_user)) [
    | inl off ↦ absurd (ground arith)
    | inr on ↦ elim (Bool-cases (allow ip now.nanos s.limiter).1) [
      | inr over ↦ absurd (ground arith)
      | inl within ↦ elim (Result-cases (store.user_by_username opt.demo_user s.rows)) [
        | inr (e, unknown) ↦ absurd (ground arith)
        | inl (user, known) ↦ elim (Bool-cases (not user.is_active)) [
          | inl inactive ↦ absurd (ground arith)
          | inr active ↦
              let limited : ServiceState store crypto opt = record s {
                limiter = (allow ip now.nanos s.limiter).0;
              } in
              let (i₀, found, same, drawn) =
                enter-ok store crypto opt (demo_identity store crypto opt user s.rows) user agent ip
                  now limited token i (rw (on, within, known, active, login_demo) at h) in
              let (harmless, resolved) = demo_identity-ok user s.rows i₀ found in
              let (roles, listed, identity) = resolved in
              (
                nonempty opt.demo_user on,
                within,
                IsHarmless-session opt.demo_commands i₀ i (crypto.hash_token token) same harmless,
                (
                  user,
                  known,
                  ground arith,
                  roles,
                  listed,
                  IsIdentityOf-session user roles i₀ i (crypto.hash_token token) same identity,
                ),
              )
        ]
      ]
    ]
  ]
