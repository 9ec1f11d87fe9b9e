-- ===== src/Auth/Service.antt =====
-- internal/auth/service.go, and `LoginDemo` of internal/auth/bootstrap.go
pub mod Logins
pub mod Demo
pub mod Sessions
use interface.Prelude.{
  ℕ, ◌+◌, ◌/◌, Bool, true, false, not, ◌&&◌, ◌||◌, Option, none, some, List, [], ◌∷◌, all, ltb,
  ◌==◌, if◌then◌else◌,
}
use interface.Prelude.Result.{Result, ok, err}
use interface.Text.{Text, ascii, is_empty, eq}
use interface.Text.Trim.{trim_space}
use interface.RateLimit
use interface.RateLimit.{Window, allow}
use interface.Auth.Permissions.{PermissionSet, new_permission_set, grants, list, demo_permissions}
use interface.Auth.Model.{
  AuthError, not_found, invalid_credentials, rate_limited, missing_role, demo_role, demo_permission,
  no_random, Role, User, Session, Identity, Store, Crypto, Options,
}

abbrev pub role_guest : Text
role_guest = ascii "guest"

abbrev pub role_demo : Text
role_demo = ascii "demo"

-- the loop of `identityFor`
unfoldable pub find_role : User → List Role → Result AuthError Identity
find_role user [] = err missing_role
find_role user (r ∷ roles) =
    if r.id == user.role_id
    then ok (record {
      user = user;
      role = r;
      permissions = new_permission_set r.permissions;
      session_id = [];
    })
    else find_role user roles

-- the guard of `LoginDemo`: the role, and then every permission held
unfoldable pub check_demo : List Text → Identity → Result AuthError Identity
check_demo demo_commands ident =
    if not (eq ident.role.name role_guest) && not (eq ident.role.name role_demo)
    then err demo_role
    else let allowed = new_permission_set (demo_permissions demo_commands) in
      if all (λ held. grants allowed held) (list ident.permissions)
      then ok ident
      else err demo_permission

abbrev pub nanos_per_second : ℕ
nanos_per_second = 1000000000

-- The two clocks that a call reads, in nanoseconds: the monotonic one for the limiter, and the wall
-- clock since 1970.
pub record Now : Type 0 where
  pub nanos : ℕ
  pub wall : ℕ

-- `Unix`
abbrev pub unix : Now → ℕ
unix now = now.wall / nanos_per_second

module _ (store : Store) (crypto : Crypto) (opt : Options) where
  open store use {State}

  -- what the service changes: its rate limiter and the store
  pub record ServiceState : Type 0 where
    pub limiter : Window
    pub rows : State

  abbrev pub Answer : Type 0
  Answer = ServiceState × Result AuthError (Text × Identity)

  unfoldable pub identity_for : User → State → Result AuthError Identity
  identity_for user rows = elim (store.list_roles rows) [
    | err e ↦ err e
    | ok roles ↦ find_role user roles
  ]

  abbrev new_session : User → Text → Now → Session
  new_session user hash now = record {
    id = hash;
    user_id = user.id;
    created_at = (unix now);
    expires_at = (now.wall + opt.session_ttl) / nanos_per_second;
  }

  -- A failure to record the login is logged, and does not fail it.
  unfoldable pub open_session : User → Identity → Text → Text → Now → ServiceState → Answer
  open_session user ident agent ip now s = elim crypto.new_token [
    | none ↦ (s, err no_random)
    | some token ↦
        let hash = crypto.hash_token token in
        let (created, done) = store.create_session (new_session user hash now) agent ip s.rows in
        elim done [
          | err e ↦ (record s { rows = created }, err e)
          | ok _ ↦ (
            record s { rows = (store.touch_login user.id (unix now) created).0 },
            ok (token, record ident { session_id = hash }),
          )
        ]
  ]

  -- the end of both logins, once the user has been let in
  unfoldable pub enter :
      Result AuthError Identity → User → Text → Text → Now → ServiceState → Answer
  enter (err e) user agent ip now s = (s, err e)
  enter (ok ident) user agent ip now s = open_session user ident agent ip now s

  -- `Login` after the rate limit and the lookup
  unfoldable pub login_user : User → Text → Text → Text → Now → ServiceState → Answer
  login_user user password agent ip now s =
      elim (crypto.verify_password password user.password_hash) [
        | err e ↦ (s, err invalid_credentials)
        | ok matches ↦
            if not matches || not user.is_active
            then (s, err invalid_credentials)
            else enter (identity_for user s.rows) user agent ip now
                (record s { limiter = RateLimit.reset ip s.limiter })
      ]

  -- the answer to a failed lookup: an unknown user looks like a wrong password
  abbrev lookup_error : AuthError → AuthError
  lookup_error not_found = invalid_credentials
  lookup_error e = e

  -- `Login`; the password check against a dummy hash, for an unknown user, only takes time
  unfoldable pub login : Text → Text → Text → Text → Now → ServiceState → Answer
  login username password agent ip now s =
      let limited : ServiceState = record s { limiter = (allow ip now.nanos s.limiter).0 } in
      if not (allow ip now.nanos s.limiter).1
      then (limited, err rate_limited)
      else elim (store.user_by_username (trim_space username) s.rows) [
        | err e ↦ (limited, err (lookup_error e))
        | ok user ↦ login_user user password agent ip now limited
      ]

  -- `identityFor` and then the guard
  unfoldable pub demo_identity : User → State → Result AuthError Identity
  demo_identity user rows = elim (identity_for user rows) [
    | err e ↦ err e
    | ok ident ↦ check_demo opt.demo_commands ident
  ]

  unfoldable pub login_demo : Text → Text → Now → ServiceState → Answer
  login_demo agent ip now s =
      if is_empty opt.demo_user
      then (s, err invalid_credentials)
      else let limited : ServiceState = record s { limiter = (allow ip now.nanos s.limiter).0 } in
        if not (allow ip now.nanos s.limiter).1
        then (limited, err rate_limited)
        else elim (store.user_by_username opt.demo_user s.rows) [
          | err e ↦ (limited, err (lookup_error e))
          | ok user ↦
              if not user.is_active
              then (limited, err invalid_credentials)
              else enter (demo_identity user s.rows) user agent ip now limited
        ]

  -- The end of `Authenticate`: the expiry moves when the session is past its half. `Seconds` is a
  -- float, and exact enough that its integer part is the whole seconds of the duration.
  unfoldable pub slide : Session → Text → Identity → Now → State → State × Result AuthError Identity
  slide sess hash ident now rows = (
    if ltb (sess.created_at + opt.session_ttl / nanos_per_second / 2) (unix now)
        then (store.extend_session hash ((now.wall + opt.session_ttl) / nanos_per_second) rows).0
        else rows,
    ok (record ident { session_id = hash }),
  )

  -- `Authenticate` after both lookups
  unfoldable pub authenticate_user :
      Session → User → Text → Now → State → State × Result AuthError Identity
  authenticate_user sess user hash now rows =
      if not user.is_active
      then ((store.delete_session hash rows).0, err not_found)
      else elim (identity_for user rows) [
        | err e ↦ (rows, err e)
        | ok ident ↦ slide sess hash ident now rows
      ]

  unfoldable pub authenticate : Text → Now → State → State × Result AuthError Identity
  authenticate token now rows =
      if is_empty token
      then (rows, err not_found)
      else elim (store.session_by_id (crypto.hash_token token) (unix now) rows) [
        | err e ↦ (rows, err e)
        | ok sess ↦ elim (store.user_by_id sess.user_id rows) [
          | err e ↦ (rows, err e)
          | ok user ↦ authenticate_user sess user (crypto.hash_token token) now rows
        ]
      ]

  unfoldable pub logout : Text → State → State × Result AuthError (Unit {0})
  logout token rows =
      if is_empty token then (rows, ok tt) else store.delete_session (crypto.hash_token token) rows
