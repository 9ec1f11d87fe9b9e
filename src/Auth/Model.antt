-- ===== src/Auth/Model.antt =====
-- internal/auth/store.go: the rows, the errors, and the store that the service calls. The store
-- talks to MySQL, so it is an interface here: a state and the operations on it.
use interface.Prelude.{ℕ, Bool, Option, List}
use interface.Prelude.Result.{Result}
use interface.Text.{Text, eq, is_empty}
use interface.Prelude.{not, ◌&&◌}
use interface.Auth.Permissions.{PermissionSet, grants}

-- The errors that callers tell apart, and all others.
pub data AuthError : Type 0 where
  not_found duplicate invalid_credentials rate_limited : AuthError
  missing_role demo_role demo_permission unknown_permission no_random : AuthError
  database : ℕ → AuthError

pub record Role : Type 0 where
  pub id : ℕ
  pub name : Text
  pub description : Text
  pub permissions : List Text
  pub is_system : Bool

pub record User : Type 0 where
  pub id : ℕ
  pub username : Text
  pub password_hash : Text
  pub display_name : Text
  pub email : Text
  pub role_id : ℕ
  pub role_name : Text
  pub is_active : Bool
  pub created_at : ℕ
  pub last_login_at : Option ℕ

pub record Session : Type 0 where
  pub id : Text
  pub user_id : ℕ
  pub created_at : ℕ
  pub expires_at : ℕ

pub record Identity : Type 0 where
  pub user : User
  pub role : Role
  pub permissions : PermissionSet
  pub session_id : Text

abbrev pub can : Identity → Text → Bool
can i perm = grants i.permissions perm

abbrev pub is_demo : Identity → Text → Bool
is_demo i demo_user = not (is_empty demo_user) && eq i.user.username demo_user

-- The time is an argument of the calls that read the clock, in Unix seconds.
pub record Store : Type 1 where
  pub State : Type 0
  pub user_by_username : Text → State → Result AuthError User
  pub user_by_id : ℕ → State → Result AuthError User
  pub list_roles : State → Result AuthError (List Role)
  pub session_by_id : Text → ℕ → State → Result AuthError Session
  pub create_session : Session → Text → Text → State → State × Result AuthError (Unit {0})
  pub touch_login : ℕ → ℕ → State → State × Result AuthError (Unit {0})
  pub extend_session : Text → ℕ → State → State × Result AuthError (Unit {0})
  pub delete_session : Text → State → State × Result AuthError (Unit {0})

-- What else the service takes from outside: the check of a password against a stored hash, which
-- may fail to read the hash, the random token, and the digest of a token.
pub record Crypto : Type 0 where
  pub verify_password : Text → Text → Result AuthError Bool
  pub new_token : Option Text
  pub hash_token : Text → Text

-- `SessionTTL` is in nanoseconds.
pub record Options : Type 0 where
  pub session_ttl : ℕ
  pub demo_user : Text
  pub demo_commands : List Text
