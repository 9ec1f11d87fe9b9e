-- ===== src/Commands.antt =====
-- internal/commands/naemon.go: targets, the check of one command field, and envelopes.
pub mod Builders
mod Carried
pub mod Arguments
pub mod Acceptance
pub mod Downtimes
pub mod Flattening
pub mod Settings
pub mod Reports
pub mod Results
pub mod Bulk
pub mod Audit
mod Tests
use interface.Prelude.{
  ℕ, ◌≡◌, refl, Bool, true, false, ◌||◌, List, [], ◌∷◌, ◌++◌, length, any, ltb, ◌==◌, if◌then◌else◌,
}
use interface.Prelude.Int.{ℤ}
use interface.Prelude.Result.{Result, ok, err, ◌>>=◌, ◌>>◌}
use interface.Text.{Text, ascii, is_empty, eq, join}
use interface.Text.Runes.{runes}
use interface.Text.Trim.{is_control}
use interface.Domain.{Kind, kind_host, kind_service}

-- One constructor for each `fmt.Errorf` of the file; the texts are left out.
pub data CommandError : Type 0 where
  field_too_long : Text → ℕ → CommandError
  has_semicolon not_single_line has_control multi_line : Text → CommandError
  host_required host_with_service service_required bad_kind : CommandError
  comment_required ends_before_start duration_required all_services_of_service : CommandError
  id_required output_required unknown_switch nothing_to_submit : CommandError
  code_out_of_range too_many_commands : ℕ → CommandError

pub record Target : Type 0 where
  pub kind : Kind
  pub hostname : Text
  pub description : Text

abbrev pub is_service : Target → Bool
is_service t = eq t.kind kind_service

-- `Target.String`, the name in an audit entry
unfoldable pub target_string : Target → Text
target_string t = if is_service t then t.hostname ++ (ascii "/" ++ t.description) else t.hostname

abbrev pub max_field_length : ℕ
max_field_length = 255

-- `strings.ContainsRune(value, c)` for an ASCII character `c`
abbrev pub contains : ℕ → Text → Bool
contains c value = any (λ b. b == c) value

-- the loop over the runes of a field
unfoldable pub check_runes : Text → List ℕ → Result CommandError (Unit {0})
check_runes name [] = ok tt
check_runes name (r ∷ rs) =
    let rest = check_runes name rs in
    if r == 10 || r == 13
    then err (not_single_line name)
    else if is_control r
    then err (has_control name)
    else rest

unfoldable pub check_field : Text → Text → Result CommandError (Unit {0})
check_field name value =
    if ltb max_field_length (length value)
    then err (field_too_long name (length value))
    else if contains b';' value
    then err (has_semicolon name)
    else check_runes name (runes value)

-- the `switch t.Kind` of `Validate`
unfoldable pub validate_kind : Target → Result CommandError (Unit {0})
validate_kind t =
    if eq t.kind kind_host
    then if is_empty t.description then ok tt else err host_with_service
    else if eq t.kind kind_service
    then if is_empty t.description
      then err service_required
      else check_field (ascii "service") t.description
    else err bad_kind

-- `Target.Validate`
unfoldable pub validate : Target → Result CommandError (Unit {0})
validate t = do
  check_field (ascii "host") t.hostname
  if is_empty t.hostname then err host_required else validate_kind t

pub record ScheduleCheckData : Type 0 where
  pub host_name : Text
  pub description : Text
  pub schedule_time : ℤ

pub record CheckResultData : Type 0 where
  pub host_name : Text
  pub description : Text
  pub output : Text
  pub long_output : Text
  pub perf_data : Text
  pub return_code : ℤ
  pub check_type : ℕ
  pub start_time : ℤ
  pub end_time : ℤ
  pub exited_ok : ℕ

-- the values that the field `Data any` takes
pub data Payload : Type 0 where
  nothing : Payload
  line : Text → Payload
  schedule_check : ScheduleCheckData → Payload
  check_result : CheckResultData → Payload

mutual
  pub data Envelope : Type 0 where
    envelope : (command : Text) (payload : Payload) (messages : Envelopes) → Envelope

  pub data Envelopes : Type 0 where
    nil : Envelopes
    cons : Envelope → Envelopes → Envelopes

abbrev pub to_list : Envelopes → List Envelope
to_list nil = []
to_list (cons e es) = e ∷ to_list es

abbrev pub of_list : List Envelope → Envelopes
of_list [] = nil
of_list (e ∷ es) = cons e (of_list es)

abbrev pub messages : Envelope → List Envelope
messages (envelope command payload es) = to_list es

-- `raw`: one line of an external command
unfoldable pub raw : Text → List Text → Envelope
raw name [] = envelope (ascii "raw") (line name) nil
raw name (f ∷ fields) =
    envelope (ascii "raw") (line (name ++ (ascii ";" ++ join (ascii ";") (f ∷ fields)))) nil

unfoldable pub bool_field : Bool → Text
bool_field v = if v then ascii "1" else ascii "0"
