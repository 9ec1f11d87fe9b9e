-- ===== src/Commands/Builders.antt =====
-- internal/commands/naemon.go: the functions that build an envelope from an operator's request.
use interface.Prelude.{ℕ, Bool, false, ◌&&◌, not, List, [], ◌∷◌, ◌++◌, ◌==◌, if◌then◌else◌}
use interface.Prelude.Int.{ℤ, pos, negsuc, ◌-ℤ◌, leb_ℤ, wrap64}
use interface.Prelude.Result.{Result, ok, err, ◌>>◌}
use interface.Text.{Text, ascii, is_empty, eq}
use interface.Text.Trim.{trim_space}
use interface.Text.Decimal.{format_nat, format_int}
use interface.Domain.{Kind, kind_service}
use interface.Commands.{
  CommandError, comment_required, ends_before_start, duration_required, all_services_of_service,
  id_required, Target, is_service, check_field, validate, schedule_check, Envelope, envelope, nil,
  of_list, raw, bool_field, nothing,
}

-- `if cond { return Envelope{}, err }`
abbrev pub refuse_if : Bool → CommandError → Result CommandError (Unit {0})
refuse_if b e = if b then err e else ok tt

-- the fields that name the object: the host, and the service of a service target
abbrev pub object_fields : Target → List Text
object_fields t = if is_service t then t.hostname ∷ t.description ∷ [] else t.hostname ∷ []

pub record AcknowledgeRequest : Type 0 where
  pub target : Target
  pub comment : Text
  pub sticky : Bool
  pub notify : Bool
  pub persistent : Bool

-- the checks that a command with a comment and an author shares
unfoldable pub check_comment : Text → Text → Result CommandError (Unit {0})
check_comment comment author = do
  refuse_if (is_empty (trim_space comment)) comment_required
  check_field (ascii "comment") comment
  check_field (ascii "author") author

unfoldable pub acknowledge : AcknowledgeRequest → Text → Result CommandError Envelope
acknowledge r author = do
  validate r.target
  check_comment r.comment author
  let name : Text =
      if is_service r.target
      then ascii "ACKNOWLEDGE_SVC_PROBLEM"
      else ascii "ACKNOWLEDGE_HOST_PROBLEM"
  ok (
      raw name (
        object_fields r.target
        ++ bool_field r.sticky
          ∷ bool_field r.notify
          ∷ bool_field r.persistent
          ∷ author
          ∷ r.comment
          ∷ []))

unfoldable pub remove_acknowledgement : Target → Result CommandError Envelope
remove_acknowledgement t = do
  validate t
  ok (
      if is_service t
      then raw (ascii "REMOVE_SVC_ACKNOWLEDGEMENT") (t.hostname ∷ t.description ∷ [])
      else raw (ascii "REMOVE_HOST_ACKNOWLEDGEMENT") (t.hostname ∷ []))

pub record DowntimeRequest : Type 0 where
  pub target : Target
  pub start : ℤ
  pub finish : ℤ
  pub comment : Text
  pub fixed : Bool
  pub duration : ℤ
  pub all_services : Bool

abbrev pub downtime_duration : DowntimeRequest → ℤ
downtime_duration r = if r.fixed then wrap64 (r.finish -ℤ r.start) else r.duration

-- the closure `build`
abbrev pub downtime_fields : DowntimeRequest → Text → List Text
downtime_fields r author =
    format_int r.start
    ∷ format_int r.finish
    ∷ bool_field r.fixed
    ∷ ascii "0"
    ∷ format_int (downtime_duration r)
    ∷ author
    ∷ r.comment
    ∷ []

-- the envelope of a downtime that passed every check
unfoldable pub downtime_envelope : DowntimeRequest → Text → Envelope
downtime_envelope r author =
    let fields = downtime_fields r author in
    let host = raw (ascii "SCHEDULE_HOST_DOWNTIME") (r.target.hostname ∷ fields) in
    if is_service r.target
    then raw (ascii "SCHEDULE_SVC_DOWNTIME") (r.target.hostname ∷ r.target.description ∷ fields)
    else if not r.all_services
    then host
    else envelope [] nothing (
        of_list (host ∷ raw (ascii "SCHEDULE_HOST_SVC_DOWNTIME") (r.target.hostname ∷ fields) ∷ []))

unfoldable pub schedule_downtime : DowntimeRequest → Text → Result CommandError Envelope
schedule_downtime r author = do
  validate r.target
  check_comment r.comment author
  refuse_if (leb_ℤ r.finish r.start) ends_before_start
  refuse_if (not r.fixed && leb_ℤ r.duration (pos 0)) duration_required
  refuse_if (r.all_services && is_service r.target) all_services_of_service
  ok (downtime_envelope r author)

-- The id is a `uint32`.
unfoldable pub delete_downtime : Kind → ℕ → Result CommandError Envelope
delete_downtime kind internal_id = do
  refuse_if (internal_id == 0) id_required
  let name : Text =
      if eq kind kind_service then ascii "DEL_SVC_DOWNTIME" else ascii "DEL_HOST_DOWNTIME"
  ok (raw name (format_nat internal_id ∷ []))

pub record RescheduleRequest : Type 0 where
  pub target : Target
  pub at_time : ℤ
  pub forced : Bool

abbrev pub is_zero : ℤ → Bool
is_zero (pos n) = n == 0
is_zero (negsuc n) = false

abbrev pub check_time : RescheduleRequest → ℤ → ℤ
check_time r now = if is_zero r.at_time then now else r.at_time

unfoldable pub reschedule : RescheduleRequest → ℤ → Result CommandError Envelope
reschedule r now = do
  validate r.target
  let forced_name : Text =
      if is_service r.target
      then ascii "SCHEDULE_FORCED_SVC_CHECK"
      else ascii "SCHEDULE_FORCED_HOST_CHECK"
  ok (
      if not r.forced
      then envelope (ascii "schedule_check")
          (schedule_check (record {
            host_name = r.target.hostname;
            description = if is_service r.target then r.target.description else [];
            schedule_time = check_time r now;
          }))
          nil
      else raw forced_name (object_fields r.target ++ format_int (check_time r now) ∷ []))
