-- ===== src/Http/Submission.antt =====
-- internal/httpapi/handlers_commands.go: `submit`, `recordCommands` and `author`; and
-- internal/commands/client.go: `Submit`.
pub mod Recorded
use interface.Prelude.{
  ℕ, Bool, true, false, not, ◌&&◌, ◌||◌, Option, none, some, List, [], ◌∷◌, ◌++◌, map, length, ltb,
  leb, ◌==◌, if◌then◌else◌,
}
use interface.Prelude.Result.{Result, ok, err}
use interface.Text.{Text, ascii, is_empty}
use interface.Auth.Model.{Identity, User}
use interface.Commands.{Target, target_string, Envelope, CommandError}
use interface.Commands.Bulk.{bulk, command_count}
use interface.Http.{ApiCode, bad_request, unavailable, internal_error}

-- What `Transport.Submit` returns: the number accepted, or one of its errors.
pub data Verdict : Type 0 where
  took : ℕ → Verdict
  disabled : Verdict
  refused : ℕ → Text → Verdict
  broken : Text → Verdict

-- What the HTTP exchange with the worker comes to, for one envelope.
pub data Exchange : Type 0 where
  unencodable unreachable : Text → Exchange
  reply : (status accepted : ℕ) (error : Text) → Exchange

-- `Client.Submit`; `fallback` is the message for a reply that has none
unfoldable pub client_submit : Text → Text → (ℕ → Text) → (Envelope → Exchange) → Envelope → Verdict
client_submit url key fallback exchange e =
    if is_empty url || is_empty key then disabled else elim (exchange e) [
      | unencodable message ↦ broken message
      | unreachable message ↦ refused 0 message
      | reply status accepted error ↦
          if status == 202
          then took accepted
          else refused status (if is_empty error then fallback status else error)
    ]

-- the text that goes into the audit with an entry
pub data Outcome : Type 0 where
  accepted worker_disabled : Outcome
  not_built : Option Text → CommandError → Outcome
  not_bulked : CommandError → Outcome
  worker_said failed_with : Text → Outcome

-- `commands.Entry`, less the payload
pub record AuditEntry : Type 0 where
  pub user_id : Option ℕ
  pub username : Text
  pub action : Text
  pub target : Text
  pub http_status : ℕ
  pub response : Outcome
  pub remote_ip : Text

-- `author`
unfoldable pub author : Identity → Text
author ident =
    if is_empty ident.user.display_name then ident.user.username else ident.user.display_name

-- the loop of `submit`, up to the first target that cannot be built
unfoldable pub build_all :
    (Target → Result CommandError Envelope)
    → List Target
    → Result (Target × CommandError) (List Envelope)
build_all build [] = ok []
build_all build (t ∷ ts) = elim (build t) [
  | err e ↦ err (t, e)
  | ok built ↦ elim (build_all build ts) [ err e ↦ err e | ok envelopes ↦ ok (built ∷ envelopes) ]
]

-- who asks for what, and from where
pub record Request : Type 0 where
  pub ident : Identity
  pub action : Text
  pub remote_ip : Text

abbrev pub entry : Request → ℕ → Outcome → Target → AuditEntry
entry q status response t = record {
  user_id = if q.ident.user.id == 0 then none else some q.ident.user.id;
  username = q.ident.user.username;
  action = q.action;
  target = target_string t;
  http_status = status;
  response = response;
  remote_ip = q.remote_ip;
}

-- the rows that `recordCommands` hands to the audit
unfoldable pub record_commands : Request → List Target → ℕ → Outcome → List AuditEntry
record_commands q [] status response = []
record_commands q (t ∷ ts) status response =
    entry q status response t ∷ record_commands q ts status response

abbrev pub max_verify_targets : ℕ
max_verify_targets = 5

-- `commandResponse`, less its texts
pub record CommandResponse : Type 0 where
  pub submitted : ℕ
  pub commands : ℕ
  pub taken : ℕ
  pub targets : List Text
  pub verify : List Target

-- What a call of `submit` does: the rows recorded, what `Client.Submit` was called with, if it was
-- called (it posts nothing when it is disabled), and the answer.
pub record Done : Type 0 where
  pub audit : List AuditEntry
  pub handed : Option Envelope
  pub status : ℕ
  pub body : Result ApiCode CommandResponse

unfoldable pub refuse : Request → List Target → Option Envelope → ℕ → Outcome → ApiCode → Done
refuse q targets handed status response code = record {
  audit = record_commands q targets status response;
  handed = handed;
  status = status;
  body = err code;
}

-- the status that a refusal by the worker becomes
unfoldable pub refusal_status : ℕ → ℕ
refusal_status status = if status == 0 || ltb status 400 then 502 else status

unfoldable pub refusal_code : ℕ → ApiCode
refusal_code status = if status == 400 || status == 403 then bad_request else unavailable

abbrev command_response : List Target → Envelope → ℕ → CommandResponse
command_response targets e n = record {
  submitted = length targets;
  commands = command_count e;
  taken = n;
  targets = map target_string targets;
  verify = if leb (length targets) max_verify_targets then targets else [];
}

-- `submit` from the answer of the worker on
unfoldable pub conclude : Request → List Target → Envelope → Verdict → Done
unfolding refuse
conclude q targets e (took n) = record {
  audit = record_commands q targets 202 accepted;
  handed = some e;
  status = 202;
  body = ok (command_response targets e n);
}
conclude q targets e disabled = refuse q targets (some e) 503 worker_disabled unavailable
conclude q targets e (refused s message) =
    refuse q targets (some e) (refusal_status s) (worker_said message)
      (refusal_code (refusal_status s))
conclude q targets e (broken message) =
    refuse q targets (some e) 500 (failed_with message) internal_error

-- the name of a target is put before a message when there are several
abbrev named_target : List Target → Target → Option Text
named_target targets t = if ltb 1 (length targets) then some (target_string t) else none

unfoldable pub submit :
    Request → List Target → (Target → Result CommandError Envelope) → (Envelope → Verdict) → Done
unfolding refuse
submit q targets build worker = elim (build_all build targets) [
  | err (t, e) ↦ refuse q targets none 400 (not_built (named_target targets t) e) bad_request
  | ok envelopes ↦ elim (bulk envelopes) [
    | err e ↦ refuse q targets none 400 (not_bulked e) bad_request
    | ok e ↦ conclude q targets e (worker e)
  ]
]
