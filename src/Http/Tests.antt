-- ===== src/Http/Tests.antt =====
-- The theorems on handlers, at small requests.
use interface.Prelude.{
  ℕ, ◌≡◌, ◌⊎◌, ◌↔◌, not, ◌||◌, refl, inl, inr, true, false, none, some, List, [], ◌∷◌, ◌++◌,
  ℕ_discrete,
}
use interface.Prelude.Result.{Result, ok, err}
use interface.Text.{Text, ascii, is_empty, text_dec}
use interface.Text.Affixes.{has_prefix, first_bytes}
use interface.Prelude.Sets.{has}
use interface.Auth.Permissions.{command_permissions, grants}
use interface.Domain.{kind_host, kind_service}
use interface.Auth.Permissions.Perm
use interface.Auth.Model.{not_found, Role, User, Identity, Store, Crypto, Options, Session, can}
use interface.Auth.Service.{Now}
use interface.Commands.{Target, Envelope, envelope, nil, line, CommandError}
use interface.Commands.Bulk.{bulk}
use interface.Http.{unauthorized}
use interface.Http.Targets.{TargetRequest, target, resolve, resolve_from, decode_targets}
use interface.Http.Submission.{Request, Verdict, took, build_all, submit}
use interface.Http.Submission.Recorded.{
  AreBuilt, IsWrapped, IsAuditOf, submit-IsAuditOf, submit-handed_iff, submit-status_iff,
}
use interface.Http.Limits.{CommandLimiter, pass, command_rate_limit}
use interface.Http.Limits.Budgets.{
  has_room, held_to, budgets_after, command_rate_limit-pass_iff, command_rate_limit-separate,
}
use interface.Http.Guards.{guarded, handler, answer, require_permission}
use interface.Http.Routes.{Route, commanding, behind}
use interface.Http.Routes.Reached.{is_command, routes-permitted}
use interface.Http.Guards.Admission.{found, guarded-handler_iff, guarded-unauthorized_iff}
use interface.Prelude.Int.{pos}
use interface.Text.Runes.{runes}
use interface.Text.Trim.{trim_space, is_control}
use interface.Commands.{validate, validate_kind, check_field, check_runes, raw, bool_field}
use interface.Commands.Builders.{acknowledge, check_comment, object_fields}
use interface.Commands.Acceptance.{acknowledge_name}
use interface.Commands.Bulk.{flatten, wrap}
use interface.Commands.Flattening.{carried}
use interface.Http.Submission.{Done, conclude, author}
use interface.Http.Handlers.{
  Caller, CommandBody, acknowledge_body, build_for, check_body, request_of, handle,
}
use interface.Http.Handlers.Authored.{IsCarriedOut, handle_acknowledge-IsCarriedOut}

abbrev asked_host : TargetRequest
asked_host = record { kind = kind_host; host = ascii "db"; service = [] }

abbrev asked_service : TargetRequest
asked_service = record { kind = kind_service; host = ascii "db"; service = ascii "cpu" }

-- the host twice
abbrev asked : List TargetRequest
asked = asked_host ∷ asked_service ∷ asked_host ∷ []

abbrev host_target : Target
host_target = record { kind = kind_host; hostname = ascii "db"; description = [] }

abbrev service_target : Target
service_target = record { kind = kind_service; hostname = ascii "db"; description = ascii "cpu" }

abbrev resolved : List Target
resolved = host_target ∷ service_target ∷ []

abbrev demo_max : ℕ
demo_max = 2

decode_ok : decode_targets true demo_max asked ≡ ok resolved
unfolding decode_targets resolve resolve_from target text_dec ℕ_discrete
decode_ok = refl

abbrev role : Role
role = record {
  id = 3;
  name = ascii "guest";
  description = [];
  permissions = Perm.toggle ∷ [];
  is_system = true;
}

abbrev user : User
user = record {
  id = 8;
  username = ascii "v";
  password_hash = [];
  display_name = [];
  email = [];
  role_id = 3;
  role_name = ascii "guest";
  is_active = true;
  created_at = 0;
  last_login_at = none;
}

abbrev ident : Identity
ident = record {
  user = user;
  role = role;
  permissions = record { all_granted = false; perms = Perm.toggle ∷ [] };
  session_id = ascii "k";
}

abbrev request : Request
request = record { ident = ident; action = ascii "toggle"; remote_ip = ascii "1" }

abbrev build : Target → Result CommandError Envelope
build t = ok (envelope (ascii "raw") (line t.hostname) nil)

abbrev worker : Envelope → Verdict
worker e = took 2

submit-IsAuditOf_example :
    IsAuditOf request resolved
      (submit request resolved build worker).status
      (submit request resolved build worker).audit
submit-IsAuditOf_example = submit-IsAuditOf request resolved build worker

abbrev single : Envelope
single = envelope (ascii "raw") (line (ascii "db")) nil

submit-handed_iff_example : ((submit request resolved build worker).handed ≡ some single) ↔ (
    (envelopes : List Envelope) × AreBuilt build resolved envelopes
    × IsWrapped (carried envelopes) single)
submit-handed_iff_example = submit-handed_iff request resolved build worker single

submit-status_iff_example : ((submit request resolved build worker).status ≡ 202) ↔ (
    (e : Envelope) × (n : ℕ) × ((submit request resolved build worker).handed ≡ some e)
    × (worker e ≡ took n))
submit-status_iff_example = submit-status_iff request resolved build worker

abbrev limiter : CommandLimiter
limiter = record {
  per_client = none;
  per_demo_client = some (record { limit = 1; window = 100; entries = [] });
  demo_total = some (record { limit = 6; window = 100; entries = [] });
}

command_rate_limit-pass_iff_example :
    (((command_rate_limit true (ascii "v") (ascii "1") 5 limiter).1 ≡ pass) ↔ (
      (has_room (held_to true limiter.per_client limiter.per_demo_client) (ascii "v|1") 5 ≡ true)
      × ((not true || has_room limiter.demo_total (ascii "demo") 5) ≡ true)))
    × ((command_rate_limit true (ascii "v") (ascii "1") 5 limiter).0.per_client
        ≡ (budgets_after true limiter.per_client limiter.per_demo_client (ascii "v|1") 5).0)
    × ((command_rate_limit true (ascii "v") (ascii "1") 5 limiter).0.per_demo_client
        ≡ (budgets_after true limiter.per_client limiter.per_demo_client (ascii "v|1") 5).1)
command_rate_limit-pass_iff_example =
    command_rate_limit-pass_iff true (ascii "v") (ascii "1") 5 limiter

command_rate_limit-separate_example :
    (command_rate_limit false (ascii "v") (ascii "1") 5 limiter).0.demo_total ≡ limiter.demo_total
command_rate_limit-separate_example =
    command_rate_limit-separate false (ascii "v") (ascii "1") 5 limiter refl

abbrev session : Session
session = record { id = ascii "k"; user_id = 8; created_at = 0; expires_at = 4000 }

-- a store that never changes, with one session
abbrev store : Store
store = record {
  State = Unit;
  user_by_username = λ name rows. ok user;
  user_by_id = λ id rows. ok user;
  list_roles = λ rows. ok (role ∷ []);
  session_by_id = λ id now rows. ok session;
  create_session = λ s agent ip rows. (rows, ok tt);
  touch_login = λ id now rows. (rows, ok tt);
  extend_session = λ id until rows. (rows, ok tt);
  delete_session = λ id rows. (rows, ok tt);
}

abbrev crypto : Crypto
crypto = record {
  verify_password = λ password hash. ok true;
  new_token = none;
  hash_token = λ token. token;
}

abbrev options : Options
options = record { session_ttl = 3600000000000; demo_user = []; demo_commands = [] }

abbrev now : Now
now = record { nanos = 5; wall = 1000000000000 }

guarded-handler_iff_example :
    (guarded store crypto options Perm.toggle (ascii "k") now tt ≡ handler ident) ↔ (
      (is_empty (ascii "k") ≡ false)
      × (found store crypto options (ascii "k") now tt ≡ ok ident)
      × (can ident Perm.toggle ≡ true))
guarded-handler_iff_example =
    guarded-handler_iff store crypto options Perm.toggle (ascii "k") now tt ident

guarded-unauthorized_iff_example :
    (guarded store crypto options Perm.toggle (ascii "k") now tt ≡ answer 401 unauthorized) ↔ (
      (is_empty (ascii "k") ≡ true)
      ⊎ (found store crypto options (ascii "k") now tt ≡ err not_found))
guarded-unauthorized_iff_example =
    guarded-unauthorized_iff store crypto options Perm.toggle (ascii "k") now tt

abbrev caller : Caller
caller = record {
  ident = ident;
  is_demo_account = true;
  demo_max_targets = 2;
  remote_ip = ascii "1";
  now = pos 100;
  perf_first = true;
}

abbrev acknowledged : CommandBody
acknowledged = acknowledge_body (ascii "on it") true false true

-- the two lines of the objects named, signed by the user
abbrev acknowledged_done : Done
acknowledged_done =
    submit (request_of caller acknowledged) resolved (build_for caller acknowledged) worker

acknowledged_ok : handle caller acknowledged asked worker ≡ ok acknowledged_done
unfolding handle check_body decode_targets resolve resolve_from target text_dec ℕ_discrete
acknowledged_ok = refl

acknowledged_taken : acknowledged_done.status ≡ 202
unfolding submit build_all build_for acknowledge check_comment validate validate_kind check_field
    check_runes runes is_control bulk flatten wrap conclude trim_space author raw text_dec
    ℕ_discrete
acknowledged_taken = refl

handle_acknowledge-IsCarriedOut_example :
    IsCarriedOut caller asked
      (λ t.
        acknowledge_name t
        ∷ (object_fields t
            ++ bool_field true
              ∷ bool_field false
              ∷ bool_field true
              ∷ author ident
              ∷ ascii "on it"
              ∷ []))
      acknowledged_done
handle_acknowledge-IsCarriedOut_example =
    handle_acknowledge-IsCarriedOut caller (ascii "on it") true false true asked worker
      acknowledged_done acknowledged_ok acknowledged_taken

abbrev toggle_route : Route
toggle_route = record {
  pattern = ascii "POST /api/v1/commands/toggle";
  access = commanding Perm.toggle;
}

toggle_route-is_command : is_command toggle_route ≡ true
unfolding has_prefix first_bytes text_dec ℕ_discrete
toggle_route-is_command = refl

toggle_route-behind : behind toggle_route.access (handler ident) ≡ some (handler ident)
unfolding behind require_permission grants text_dec ℕ_discrete
toggle_route-behind = refl

routes-permitted_example :
    (perm : Text) × (has text_dec perm command_permissions ≡ true) × (can ident perm ≡ true)
routes-permitted_example =
    routes-permitted toggle_route (handler ident) ident
      (inr (
        inr (
          inr (
            inr (
              inr (
                inr (
                  inr (
                    inr (
                      inr (
                        inr (
                          inr (
                            inr (
                              inr (
                                inr (
                                  inr (
                                    inr (
                                      inr (
                                        inr (
                                          inr (
                                            inr (
                                              inr (
                                                inr (
                                                  inr (
                                                    inr (
                                                      inr (
                                                        inr (
                                                          inr (
                                                            inr (
                                                            inr (
                                                            inr (
                                                            inr (
                                                            inl refl))))))))))))))))))))))))))))))))
      toggle_route-is_command toggle_route-behind
