-- ===== src/Commands/Results.antt =====
-- internal/commands/naemon.go: passive results, custom notifications and switches.
use interface.Prelude.{
  ℕ, ◌+◌, Bool, ◌||◌, Option, none, some, List, [], ◌∷◌, ◌++◌, any, ◌==◌, if◌then◌else◌,
}
use interface.Prelude.Int.{ℤ, pos, ltb_ℤ}
use interface.Prelude.Result.{Result, ok, err, ◌>>◌}
use interface.Text.{Text, ascii, is_empty, eq}
use interface.Text.Trim.{trim_space}
use interface.Text.Decimal.{format_nat}
use interface.Commands.{
  CommandError, multi_line, output_required, unknown_switch, code_out_of_range, Target, is_service,
  validate, check_result, Envelope, envelope, nil, raw,
}
use interface.Commands.Builders.{refuse_if, object_fields, check_comment}

pub record SubmitResultRequest : Type 0 where
  pub target : Target
  pub return_code : ℤ
  pub output : Text
  pub long_output : Text
  pub perf_data : Text

abbrev pub max_code : Target → ℕ
max_code t = if is_service t then 3 else 2

-- `strings.ContainsAny(value, "\n\r")`
abbrev pub has_line_break : Text → Bool
has_line_break value = any (λ b. b == 10 || b == 13) value

abbrev check_line : Text → Text → Result CommandError (Unit {0})
check_line name value = refuse_if (has_line_break value) (multi_line name)

-- The loop over a map of two entries, which Go walks in either order: `perf_first` says which.
unfoldable pub check_lines : Bool → SubmitResultRequest → Result CommandError (Unit {0})
check_lines perf_first r =
    if perf_first
    then (check_line (ascii "perf_data") r.perf_data >> check_line (ascii "output") r.output)
    else (check_line (ascii "output") r.output >> check_line (ascii "perf_data") r.perf_data)

-- the envelope of a result that passed every check
abbrev pub result_envelope : SubmitResultRequest → ℤ → Envelope
result_envelope r now =
    envelope (ascii "check_result")
      (check_result (record {
        host_name = r.target.hostname;
        description = if is_service r.target then r.target.description else [];
        output = r.output;
        long_output = r.long_output;
        perf_data = r.perf_data;
        return_code = r.return_code;
        check_type = 1;
        start_time = now;
        end_time = now;
        exited_ok = 1;
      }))
      nil

unfoldable pub submit_result : Bool → SubmitResultRequest → ℤ → Result CommandError Envelope
submit_result perf_first r now = do
  validate r.target
  refuse_if (ltb_ℤ r.return_code (pos 0) || ltb_ℤ (pos (max_code r.target)) r.return_code)
      (code_out_of_range (max_code r.target))
  refuse_if (is_empty (trim_space r.output)) output_required
  check_lines perf_first r
  ok (result_envelope r now)

pub record NotifyRequest : Type 0 where
  pub target : Target
  pub comment : Text
  pub forced : Bool
  pub broadcast : Bool

-- the option bits: broadcast is 1 and forced is 2, each set once
abbrev pub notify_options : NotifyRequest → ℕ
notify_options r = (if r.broadcast then 1 else 0) + (if r.forced then 2 else 0)

unfoldable pub notify : NotifyRequest → Text → Result CommandError Envelope
notify r author = do
  validate r.target
  check_comment r.comment author
  let name : Text =
      if is_service r.target
      then ascii "SEND_CUSTOM_SVC_NOTIFICATION"
      else ascii "SEND_CUSTOM_HOST_NOTIFICATION"
  ok (raw name (object_fields r.target ++ format_nat (notify_options r) ∷ author ∷ r.comment ∷ []))

-- `Switches`
abbrev pub switches : List Text
switches =
    ascii "active_checks"
    ∷ ascii "passive_checks"
    ∷ ascii "notifications"
    ∷ ascii "flap_detection"
    ∷ ascii "event_handler"
    ∷ []

-- The map `switchCommands`: the names for a host and for a service.
unfoldable pub switch_commands : Text → Option (Text × Text)
switch_commands s =
    if eq s (ascii "active_checks")
    then some (ascii "HOST_CHECK", ascii "SVC_CHECK")
    else if eq s (ascii "passive_checks")
    then some (ascii "PASSIVE_HOST_CHECKS", ascii "PASSIVE_SVC_CHECKS")
    else if eq s (ascii "notifications")
    then some (ascii "HOST_NOTIFICATIONS", ascii "SVC_NOTIFICATIONS")
    else if eq s (ascii "flap_detection")
    then some (ascii "HOST_FLAP_DETECTION", ascii "SVC_FLAP_DETECTION")
    else if eq s (ascii "event_handler")
    then some (ascii "HOST_EVENT_HANDLER", ascii "SVC_EVENT_HANDLER")
    else none

pub record ToggleRequest : Type 0 where
  pub target : Target
  pub switch : Text
  pub enable : Bool

abbrev pub switch_verb : Bool → Text
switch_verb enable = if enable then ascii "ENABLE" else ascii "DISABLE"

unfoldable pub toggle : ToggleRequest → Result CommandError Envelope
toggle r = do
  validate r.target
  elim (switch_commands r.switch) [
    | none ↦ err unknown_switch
    | some (host, service) ↦ ok (
        if is_service r.target
        then raw (switch_verb r.enable ++ (ascii "_" ++ service))
            (r.target.hostname ∷ r.target.description ∷ [])
        else raw (switch_verb r.enable ++ (ascii "_" ++ host)) (r.target.hostname ∷ []))
  ]
