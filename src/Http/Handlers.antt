-- ===== src/Http/Handlers.antt =====
-- internal/httpapi/handlers_commands.go: the eight command handlers, after the body has been decoded.
pub mod Authored
use interface.Prelude.{
  ℕ, Bool, true, false, ◌&&◌, ◌==◌, not, Option, none, some, List, [], ◌∷◌, any, length,
  if◌then◌else◌,
}
use interface.Prelude.Int.{ℤ}
use interface.Prelude.Result.{Result, ok, err, ◌>>=◌, ◌>>◌}
use interface.Text.{Text, ascii, eq}
use interface.Domain.{kind_host}
use interface.Auth.Model.{Identity}
use interface.Commands.{Target, Envelope, CommandError}
use interface.Commands.Builders.{
  AcknowledgeRequest, acknowledge, remove_acknowledgement, DowntimeRequest, schedule_downtime,
  delete_downtime, RescheduleRequest, reschedule,
}
use interface.Commands.Results.{
  SubmitResultRequest, submit_result, NotifyRequest, notify, ToggleRequest, toggle, switches,
}
use interface.Http.{ApiError, bad_request}
use interface.Http.Targets.{TargetRequest, decode_targets}
use interface.Http.Submission.{Request, Verdict, Done, submit, author}

-- the bodies of the eight routes, less the targets that they all have
pub data CommandBody : Type 0 where
  acknowledge_body : (comment : Text) (sticky notify persistent : Bool) → CommandBody
  remove_body : CommandBody
  downtime_body :
      (start finish : ℤ) (comment : Text) (fixed : Bool) (duration : ℤ) (all_services : Bool)
      → CommandBody
  delete_body : (internal_id : ℕ) → CommandBody
  reschedule_body : (at_time : ℤ) (forced : Bool) → CommandBody
  result_body : (return_code : ℤ) (output long_output perf_data : Text) → CommandBody
  notify_body : (comment : Text) (forced broadcast : Bool) → CommandBody
  toggle_body : (switch : Text) (enable : Bool) → CommandBody

-- `Action`, by the body that goes with it
unfoldable pub action_of : CommandBody → Text
action_of (acknowledge_body comment sticky notify persistent) = ascii "acknowledge"
action_of remove_body = ascii "remove_acknowledgement"
action_of (downtime_body start finish comment fixed duration all_services) =
    ascii "schedule_downtime"
action_of (delete_body internal_id) = ascii "delete_downtime"
action_of (reschedule_body at_time forced) = ascii "reschedule"
action_of (result_body return_code output long_output perf_data) = ascii "submit_result"
action_of (notify_body comment forced broadcast) = ascii "custom_notification"
action_of (toggle_body switch enable) = ascii "toggle"

-- Who calls, from where and when; `perf_first` is the order in which Go walks a map.
pub record Caller : Type 0 where
  pub ident : Identity
  pub is_demo_account : Bool
  pub demo_max_targets : ℕ
  pub remote_ip : Text
  pub now : ℤ
  pub perf_first : Bool

-- the closure that a handler hands to `submit`
unfoldable pub build_for : Caller → CommandBody → Target → Result CommandError Envelope
build_for c (acknowledge_body comment sticky notify persistent) t =
    acknowledge
      (record {
        target = t;
        comment = comment;
        sticky = sticky;
        notify = notify;
        persistent = persistent;
      })
      (author c.ident)
build_for c remove_body t = remove_acknowledgement t
build_for c (downtime_body start finish comment fixed duration all_services) t =
    schedule_downtime
      (record {
        target = t;
        start = start;
        finish = finish;
        comment = comment;
        fixed = fixed;
        duration = duration;
        all_services = all_services && eq t.kind kind_host;
      })
      (author c.ident)
build_for c (delete_body internal_id) t = delete_downtime t.kind internal_id
build_for c (reschedule_body at_time forced) t =
    reschedule (record { target = t; at_time = at_time; forced = forced }) c.now
build_for c (result_body return_code output long_output perf_data) t =
    submit_result c.perf_first
      (record {
        target = t;
        return_code = return_code;
        output = output;
        long_output = long_output;
        perf_data = perf_data;
      })
      c.now
build_for c (notify_body comment forced broadcast) t =
    notify (record { target = t; comment = comment; forced = forced; broadcast = broadcast })
      (author c.ident)
build_for c (toggle_body switch enable) t =
    toggle (record { target = t; switch = switch; enable = enable })

abbrev pub refuse_field : Text → Result ApiError (Unit {0})
refuse_field name = err (record { code = bad_request; field = name })

-- what a handler checks once the targets are known
unfoldable pub check_body : CommandBody → List Target → Result ApiError (Unit {0})
check_body (delete_body internal_id) targets =
    if not (length targets == 1) then refuse_field (ascii "targets") else ok tt
check_body (toggle_body switch enable) targets =
    if any (λ s. eq s switch) switches then ok tt else refuse_field (ascii "switch")
check_body (acknowledge_body comment sticky notify persistent) targets = ok tt
check_body remove_body targets = ok tt
check_body (downtime_body start finish comment fixed duration all_services) targets = ok tt
check_body (reschedule_body at_time forced) targets = ok tt
check_body (result_body return_code output long_output perf_data) targets = ok tt
check_body (notify_body comment forced broadcast) targets = ok tt

abbrev pub request_of : Caller → CommandBody → Request
request_of c body = record { ident = c.ident; action = action_of body; remote_ip = c.remote_ip }

-- `handleAcknowledge` to `handleToggle`: a refusal, or what `submit` does
unfoldable pub handle :
    Caller → CommandBody → List TargetRequest → (Envelope → Verdict) → Result ApiError Done
handle c body raws worker = do
  targets ← decode_targets c.is_demo_account c.demo_max_targets raws
  check_body body targets
  ok (submit (request_of c body) targets (build_for c body) worker)
