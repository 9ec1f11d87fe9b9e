-- ===== src/Auth/Tests.antt =====
-- The theorems on logins, at a store with one user.
use interface.Prelude.{
  ◌≡◌, ◌≢◌, ◌↔◌, ◌&&◌, refl, true, false, none, some, List, [], ◌∷◌, ◌++◌, if◌then◌else◌,
  ℕ_discrete,
}
use interface.Prelude.Sets.{add}
use interface.Prelude.Maps.{lookup, insert, delete}
use interface.Prelude.Result.{ok, err}
use interface.Text.{Text, ascii, eq, text_dec}
use interface.Text.Trim.{trim_space}
use interface.RateLimit.{allow, allow_key, start_window, sweep, reset}
use interface.Auth.Permissions.{
  new_permission_set, grant_all, grant, grants, list, granted_among, demo_permissions,
  demo_commands, demo_command_permission,
}
use interface.Auth.Permissions.Perm
use interface.Auth.Model.{not_found, Role, User, Session, Identity, Store, Crypto, Options}
use interface.Auth.Service.{
  ServiceState, Now, find_role, identity_for, open_session, enter, login_user, login, demo_identity,
  check_demo, login_demo, role_guest,
}
use interface.Auth.Service.Logins.{IsAdmitted, IsIdentityOf, login-IsAdmitted}
use interface.Auth.Service.{authenticate, authenticate_user, slide}
use interface.Auth.Service.Sessions.{IsResumed, authenticate-IsResumed}
use interface.Auth.Service.Demo.{IsHarmless, login_demo-IsHarmless}
use interface.Auth.Bootstrap.{same_permissions}
use interface.Auth.Bootstrap.Same.{SameTimes, same_permissions-SameTimes_iff}

abbrev guest : Role
guest = record {
  id = 3;
  name = role_guest;
  description = [];
  permissions = Perm.hosts_read ∷ [];
  is_system = true;
}

abbrev visitor : User
visitor = record {
  id = 8;
  username = ascii "v";
  password_hash = ascii "h";
  display_name = [];
  email = [];
  role_id = 3;
  role_name = role_guest;
  is_active = true;
  created_at = 0;
  last_login_at = none;
}

-- a store that keeps its sessions in a list
abbrev store : Store
store = record {
  State = List Session;
  user_by_username = λ name rows. if eq name (ascii "v") then ok visitor else err not_found;
  user_by_id = λ id rows. ok visitor;
  list_roles = λ rows. ok (guest ∷ []);
  session_by_id = λ id now rows. elim rows [ [] ↦ err not_found | s ∷ ss ↦ ok s ];
  create_session = λ s agent ip rows. (s ∷ rows, ok tt);
  touch_login = λ id now rows. (rows, ok tt);
  extend_session = λ id until rows. (rows, ok tt);
  delete_session = λ id rows. ([], ok tt);
}

abbrev crypto : Crypto
crypto = record {
  verify_password = λ password hash. ok (eq password (ascii "pw") && eq hash (ascii "h"));
  new_token = some (ascii "k");
  hash_token = λ token. ascii "#" ++ token;
}

abbrev options : Options
options = record {
  session_ttl = 3600000000000;
  demo_user = ascii "v";
  demo_commands = ascii "acknowledge" ∷ [];
}

abbrev now : Now
now = record { nanos = 5; wall = 1000000000000 }

abbrev before : ServiceState store crypto options
before = record { limiter = record { limit = 2; window = 100; entries = [] }; rows = [] }

abbrev identity : Identity
identity = record {
  user = visitor;
  role = guest;
  permissions = record { all_granted = false; perms = Perm.hosts_read ∷ [] };
  session_id = ascii "#k";
}

login_ok :
    (login store crypto options (ascii "v") (ascii "pw") [] (ascii "1") now before).1
    ≡ ok (ascii "k", identity)
unfolding login login_user enter open_session identity_for find_role allow allow_key start_window
    sweep insert lookup reset delete trim_space new_permission_set grant_all grant add text_dec
    ℕ_discrete
login_ok = refl

login-IsAdmitted_example :
    IsAdmitted store crypto options
      (ascii "v")
      (ascii "pw")
      []
      (ascii "1")
      now
      before
      (login store crypto options (ascii "v") (ascii "pw") [] (ascii "1") now before).0.rows
      (ascii "k")
      identity
login-IsAdmitted_example =
    login-IsAdmitted store crypto options (ascii "v") (ascii "pw") [] (ascii "1") now before
      (ascii "k") identity login_ok

demo_ok : (login_demo store crypto options [] (ascii "1") now before).1 ≡ ok (ascii "k", identity)
unfolding login_demo demo_identity check_demo enter open_session identity_for find_role allow
    allow_key start_window sweep insert lookup trim_space new_permission_set grant_all grant grants
    list granted_among demo_permissions demo_commands demo_command_permission add text_dec
    ℕ_discrete
demo_ok = refl

login_demo-IsHarmless_example :
    (ascii "v" ≢ [])
    × ((allow (ascii "1") 5 before.limiter).1 ≡ true)
    × IsHarmless (ascii "acknowledge" ∷ []) identity
    × ((user : User) × (store.user_by_username (ascii "v") [] ≡ ok user)
        × (user.is_active ≡ true)
        × (roles : List Role) × (store.list_roles [] ≡ ok roles)
        × IsIdentityOf user roles identity)
login_demo-IsHarmless_example =
    login_demo-IsHarmless store crypto options [] (ascii "1") now before (ascii "k") identity
      demo_ok

abbrev allowlist : List Text
allowlist = ascii "toggle" ∷ ascii "notify" ∷ []

abbrev session : Session
session = record { id = ascii "#k"; user_id = 8; created_at = 0; expires_at = 4000 }

authenticate_ok : (authenticate store crypto options (ascii "k") now (session ∷ [])).1 ≡ ok identity
unfolding authenticate authenticate_user slide identity_for find_role new_permission_set grant_all
    grant trim_space add text_dec ℕ_discrete
authenticate_ok = refl

authenticate-IsResumed_example :
    IsResumed store crypto options
      (ascii "k")
      now
      (session ∷ [])
      (authenticate store crypto options (ascii "k") now (session ∷ [])).0
      identity
authenticate-IsResumed_example =
    authenticate-IsResumed store crypto options (ascii "k") now (session ∷ []) identity
      authenticate_ok

same_permissions-SameTimes_iff_example :
    (same_permissions (Perm.toggle ∷ Perm.downtime ∷ []) (Perm.downtime ∷ Perm.toggle ∷ []) ≡ true)
    ↔ SameTimes (Perm.toggle ∷ Perm.downtime ∷ []) (Perm.downtime ∷ Perm.toggle ∷ [])
same_permissions-SameTimes_iff_example =
    same_permissions-SameTimes_iff (Perm.toggle ∷ Perm.downtime ∷ [])
      (Perm.downtime ∷ Perm.toggle ∷ [])
