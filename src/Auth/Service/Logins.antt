-- ===== src/Auth/Service/Logins.antt =====
-- Who is let in, and what a refusal leaves behind.
use interface.Prelude.{
  ◌+◌, ◌/◌, ◌≡◌, inl, inr, refl, ap, true, not, ◌||◌, some, List, [], ◌∷◌, ◌==◌, arith, In,
  Bool-cases,
}
use interface.Prelude.Result.{Result, ok, err, Result-cases}
use interface.Text.{Text}
use interface.Text.Trim.{trim_space}
use interface.RateLimit
use interface.RateLimit.{Window, allow}
use interface.Auth.Permissions.{new_permission_set}
use interface.Auth.Model.{AuthError, Role, User, Session, Identity, Store, Crypto, Options}
use interface.Auth.Service.{
  ServiceState, Now, unix, find_role, identity_for, open_session, enter, login_user, login,
}

-- An identity that stands for a user: the role is the user's own, and the permissions are those
-- that the role stores.
pub record IsIdentityOf (user : User) (roles : List Role) (i : Identity) : Type 0 where
  pub user_same : i.user ≡ user
  pub listed : In i.role roles
  pub assigned : i.role.id ≡ user.role_id
  pub resolved : i.permissions ≡ new_permission_set i.role.permissions

find_role-IsIdentityOf :
    (user : User) (roles : List Role) (i : Identity)
    → find_role user roles ≡ ok i
    → IsIdentityOf user roles i
unfolding find_role
find_role-IsIdentityOf user [] i h = absurd (cc)
find_role-IsIdentityOf user (r ∷ roles) i h = elim (Bool-cases (r.id == user.role_id)) [
  | inl same ↦ ground arith
  | inr other ↦
      let rest = find_role-IsIdentityOf user roles i (ground arith) in
      record {
        user_same = rest.user_same;
        listed = inr rest.listed;
        assigned = rest.assigned;
        resolved = rest.resolved;
      }
]

-- The name of the session is no part of what an identity stands for.
pub IsIdentityOf-session :
    (user : User) (roles : List Role) (i₀ i : Identity) (hash : Text)
    → i ≡ record i₀ { session_id = hash }
    → IsIdentityOf user roles i₀
    → IsIdentityOf user roles i
IsIdentityOf-session user roles i₀ i hash same v = rw same (record {
  user_same = v.user_same;
  listed = v.listed;
  assigned = v.assigned;
  resolved = v.resolved;
})

module _ (store : Store) (crypto : Crypto) (opt : Options) where
  -- a session that was opened for a user whose identity was resolved
  abbrev pub Opened : Result AuthError Identity → Text → Identity → Type 0
  Opened found token i =
      (i₀ : Identity) × (found ≡ ok i₀)
      × (i ≡ record i₀ { session_id = crypto.hash_token token })
      × (crypto.new_token ≡ some token)

  open_session-ok :
      (user : User) (i₀ : Identity) (agent ip : Text) (now : Now)
      (s : ServiceState store crypto opt) (token : Text) (i : Identity)
      → (open_session store crypto opt user i₀ agent ip now s).1 ≡ ok (token, i)
      → (i ≡ record i₀ { session_id = crypto.hash_token token }) × (crypto.new_token ≡ some token)
  unfolding open_session
  open_session-ok user i₀ agent ip now s token i h = ground arith

  pub enter-ok :
      (found : Result AuthError Identity) (user : User) (agent ip : Text) (now : Now)
      (s : ServiceState store crypto opt) (token : Text) (i : Identity)
      → (enter store crypto opt found user agent ip now s).1 ≡ ok (token, i)
      → Opened found token i
  unfolding enter
  enter-ok (ok i₀) user agent ip now s token i h =
      let (same, drawn) = open_session-ok user i₀ agent ip now s token i h in
      (i₀, refl, same, drawn)
  enter-ok (err e) user agent ip now s token i h = absurd (cc)

  -- The store has taken a session under the digest of the token, for the user and from now until
  -- its time is over, and was then told of the login.
  pub record IsStored (user : User) (token agent ip : Text) (now : Now) (rows after : store.State)
      : Type 0 where
    pub created : store.State
    pub taken :
        store.create_session
          (record {
            id = crypto.hash_token token;
            user_id = user.id;
            created_at = unix now;
            expires_at = (now.wall + opt.session_ttl) / 1000000000;
          })
          agent
          ip
          rows
        ≡ (created, ok tt)
    pub left : after ≡ (store.touch_login user.id (unix now) created).0

  open_session-IsStored :
      (user : User) (i₀ : Identity) (agent ip : Text) (now : Now)
      (s : ServiceState store crypto opt) (token : Text) (i : Identity)
      → (open_session store crypto opt user i₀ agent ip now s).1 ≡ ok (token, i)
      → IsStored user token agent ip now s.rows
          (open_session store crypto opt user i₀ agent ip now s).0.rows
  unfolding open_session
  open_session-IsStored user i₀ agent ip now s token i h =
      let (same, drawn) = open_session-ok user i₀ agent ip now s token i h in
      let sess : Session = record {
        id = crypto.hash_token token;
        user_id = user.id;
        created_at = unix now;
        expires_at = (now.wall + opt.session_ttl) / 1000000000;
      } in
      let created = store.create_session sess agent ip s.rows in
      elim (Result-cases created.1) [
        | inr (e, failed) ↦ absurd (ground arith)
        | inl (u, done) ↦
            rw (drawn, open_session)
              (rw done (record {
                created = created.0;
                taken = ap (λ r. (created.0, r)) done;
                left = refl;
              }))
      ]

  enter-IsStored :
      (found : Result AuthError Identity) (user : User) (agent ip : Text) (now : Now)
      (s : ServiceState store crypto opt) (token : Text) (i : Identity)
      → (enter store crypto opt found user agent ip now s).1 ≡ ok (token, i)
      → IsStored user token agent ip now s.rows
          (enter store crypto opt found user agent ip now s).0.rows
  unfolding enter
  enter-IsStored (ok i₀) user agent ip now s token i h =
      open_session-IsStored user i₀ agent ip now s token i h
  enter-IsStored (err e) user agent ip now s token i h = absurd (cc)

  login_user-IsStored :
      (user : User) (password agent ip : Text) (now : Now) (s : ServiceState store crypto opt)
      (token : Text) (i : Identity)
      → (login_user store crypto opt user password agent ip now s).1 ≡ ok (token, i)
      → IsStored user token agent ip now s.rows
          (login_user store crypto opt user password agent ip now s).0.rows
  unfolding login_user
  login_user-IsStored user password agent ip now s token i h =
      elim (Result-cases (crypto.verify_password password user.password_hash)) [
        | inr (e, unreadable) ↦ absurd (ground arith)
        | inl (matches, read) ↦ elim (Bool-cases (not matches || not user.is_active)) [
          | inl refused ↦ absurd (ground arith)
          | inr passed ↦
              rw (read, passed, login_user)
                (enter-IsStored (identity_for store crypto opt user s.rows) user agent ip now
                  (record s { limiter = RateLimit.reset ip s.limiter }) token i
                  (rw (read, passed, login_user) at h))
        ]
      ]

  pub identity_for-IsIdentityOf :
      (user : User) (rows : store.State) (i : Identity)
      → identity_for store crypto opt user rows ≡ ok i
      → (roles : List Role) × (store.list_roles rows ≡ ok roles) × IsIdentityOf user roles i
  unfolding identity_for
  identity_for-IsIdentityOf user rows i h = elim (Result-cases (store.list_roles rows)) [
    | inl (roles, listed) ↦
        (roles, listed, find_role-IsIdentityOf user roles i (rw (listed, identity_for) at h))
    | inr (e, failed) ↦ absurd (ground arith)
  ]

  login_user-ok :
      (user : User) (password agent ip : Text) (now : Now) (s : ServiceState store crypto opt)
      (token : Text) (i : Identity)
      → (login_user store crypto opt user password agent ip now s).1 ≡ ok (token, i)
      → (crypto.verify_password password user.password_hash ≡ ok true)
        × (user.is_active ≡ true)
        × Opened (identity_for store crypto opt user s.rows) token i
  unfolding login_user
  login_user-ok user password agent ip now s token i h =
      elim (Result-cases (crypto.verify_password password user.password_hash)) [
        | inr (e, unreadable) ↦ absurd (ground arith)
        | inl (matches, read) ↦ elim (Bool-cases (not matches || not user.is_active)) [
          | inl refused ↦ absurd (ground arith)
          | inr passed ↦ (
            ground arith,
            ground arith,
            enter-ok (identity_for store crypto opt user s.rows) user agent ip now
                (record s { limiter = RateLimit.reset ip s.limiter }) token i
                (rw (read, passed, login_user) at h),
          )
        ]
      ]

  -- What a login that succeeds rests on.
  pub record IsAdmitted (username password agent ip : Text) (now : Now)
      (s : ServiceState store crypto opt) (after : store.State) (token : Text) (i : Identity)
      : Type 0 where
    pub user : User
    pub roles : List Role
    pub within_limit : (allow ip now.nanos s.limiter).1 ≡ true
    pub known : store.user_by_username (trim_space username) s.rows ≡ ok user
    pub password_right : crypto.verify_password password user.password_hash ≡ ok true
    pub active : user.is_active ≡ true
    pub roles_read : store.list_roles s.rows ≡ ok roles
    pub identity : IsIdentityOf user roles i
    pub session : i.session_id ≡ crypto.hash_token token
    pub token_drawn : crypto.new_token ≡ some token
    pub stored : IsStored user token agent ip now s.rows after

  -- A login succeeds only within the rate limit, for a known and active user whose password is
  -- right. The identity carries that user's own role with the permissions it stores; its session is
  -- named by the digest of the token that was drawn, and under that digest the store has taken it,
  -- for the user and until its time is over.
  pub login-IsAdmitted :
      (username password agent ip : Text) (now : Now) (s : ServiceState store crypto opt)
      (token : Text) (i : Identity)
      → (login store crypto opt username password agent ip now s).1 ≡ ok (token, i)
      → IsAdmitted username password agent ip now s
          (login store crypto opt username password agent ip now s).0.rows
          token
          i
  unfolding login
  login-IsAdmitted username password agent ip now s token i h =
      elim (Bool-cases (allow ip now.nanos s.limiter).1) [
        | inr over ↦ absurd (ground arith)
        | inl within ↦ elim (Result-cases (store.user_by_username (trim_space username) s.rows)) [
          | inr (e, unknown) ↦ absurd (ground arith)
          | inl (user, known) ↦
              let limited : ServiceState store crypto opt = record s {
                limiter = (allow ip now.nanos s.limiter).0;
              } in
              let (right, active, opened) =
                login_user-ok user password agent ip now limited token i
                  (rw (within, known, login) at h) in
              let (i₀, found, same, drawn) = opened in
              let (roles, listed, identity) = identity_for-IsIdentityOf user s.rows i₀ found in
              record {
                user = user;
                roles = roles;
                within_limit = within;
                known = known;
                password_right = right;
                active = active;
                roles_read = listed;
                identity =
                    IsIdentityOf-session user roles i₀ i (crypto.hash_token token) same identity;
                session = ap (λ (x : Identity). x.session_id) same;
                token_drawn = drawn;
                stored =
                    rw (within, known, login)
                      (login_user-IsStored user password agent ip now limited token i
                        (rw (within, known, login) at h));
              }
        ]
      ]
