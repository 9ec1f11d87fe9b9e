-- ===== src/Commands/Tests.antt =====
-- The theorems on commands, at requests that a handler could make.
use interface.Prelude.{
  ℕ, ◌*◌, ◌≡◌, ◌≤◌, ◌↔◌, refl, true, false, some, List, [], ◌∷◌, ◌++◌, map, length, All, In,
  ℕ_discrete,
}
use interface.Prelude.Int.{pos}
use interface.Prelude.Result.{ok}
use interface.Text.{Text, ascii, join, text_dec}
use interface.Text.Runes.{runes, runes_from, decode_rune}
use interface.Text.Trim.{trim_space, is_control}
use interface.Domain.{kind_host, kind_service}
use interface.Commands.{
  Target, Envelope, envelope, raw, validate, validate_kind, nothing, of_list, check_field,
  check_runes,
}
use interface.Commands.Builders.{
  AcknowledgeRequest, acknowledge, DowntimeRequest, schedule_downtime, object_fields,
  downtime_envelope, check_comment,
}
use interface.Commands.Results.{SubmitResultRequest, NotifyRequest, ToggleRequest, toggle, switches}
use interface.Commands.Bulk.{max_bulk_commands, bulk, flatten, command_count}
use interface.Commands.Carried.{IsAddressable}
use interface.Commands.Arguments.{arguments, IsSigned}
use interface.Commands.Acceptance.{
  Accepted, acknowledge_name, acknowledge_flags, acknowledge_line, acknowledge-Accepted_iff,
  acknowledge-arguments,
}
use interface.Commands.Downtimes.{downtime_lines, commands_of, schedule_downtime-arguments}
use interface.Commands.Settings.{SettingCommands, settings, setting_line, toggle-arguments}
use interface.Commands.Flattening.{carried, IsShallow, IsSingle, bulk-commands}
use interface.Query.Bound.{marks}
use interface.Commands.Audit.{Entry, Insert, insert_text, row_texts, all_cells, record_batch}
use interface.Commands.Audit.Placed.{record_batch-placed}

abbrev service_target : Target
service_target = record { kind = kind_service; hostname = ascii "db"; description = ascii "cpu" }

abbrev host_target : Target
host_target = record { kind = kind_host; hostname = ascii "db"; description = [] }

abbrev author : Text
author = ascii "op"

abbrev comment : Text
comment = ascii "on it"

abbrev request : AcknowledgeRequest
request = record {
  target = service_target;
  comment = comment;
  sticky = true;
  notify = false;
  persistent = true;
}

acknowledge_ok : acknowledge request author ≡ ok (acknowledge_line request author)
unfolding acknowledge validate validate_kind check_comment check_field check_runes runes runes_from
    decode_rune is_control trim_space text_dec ℕ_discrete
acknowledge_ok = refl

acknowledge-Accepted_iff_example :
    Accepted (acknowledge request author) ↔ (IsAddressable service_target × IsSigned comment author)
acknowledge-Accepted_iff_example = acknowledge-Accepted_iff request author

acknowledge-arguments_example :
    arguments (acknowledge_line request author)
    ≡ some (
        acknowledge_name service_target
        ∷ (object_fields service_target ++ acknowledge_flags request author))
acknowledge-arguments_example =
    acknowledge-arguments request author (acknowledge_line request author) acknowledge_ok

-- a host and its services, for an hour
abbrev window : DowntimeRequest
window = record {
  target = host_target;
  start = pos 1000;
  finish = pos 4600;
  comment = comment;
  fixed = true;
  duration = pos 0;
  all_services = true;
}

schedule_downtime_ok : schedule_downtime window author ≡ ok (downtime_envelope window author)
unfolding schedule_downtime validate validate_kind check_comment check_field check_runes runes
    runes_from decode_rune is_control trim_space text_dec ℕ_discrete
schedule_downtime_ok = refl

schedule_downtime-arguments_example :
    map arguments (commands_of (downtime_envelope window author)) ≡ downtime_lines window author
schedule_downtime-arguments_example =
    schedule_downtime-arguments window author (downtime_envelope window author) schedule_downtime_ok

abbrev internal_id : ℕ
internal_id = 7

abbrev notification : NotifyRequest
notification = record { target = host_target; comment = comment; forced = true; broadcast = false }

abbrev setting : ToggleRequest
setting = record { target = service_target; switch = ascii "notifications"; enable = false }

toggle-arguments_example :
    (Accepted (toggle setting)
      ↔ (IsAddressable service_target × In (ascii "notifications") switches))
    × ((e : Envelope)
        → toggle setting ≡ ok e
        → (x : SettingCommands) × In x settings
          × (x.name ≡ ascii "notifications")
          × (arguments e ≡ some (setting_line setting x)))
toggle-arguments_example = toggle-arguments setting

abbrev report : SubmitResultRequest
report = record {
  target = service_target;
  return_code = pos 3;
  output = ascii "no data";
  long_output = [];
  perf_data = ascii "load=1";
}

abbrev two_commands : List Envelope
two_commands = acknowledge_line request author ∷ downtime_envelope window author ∷ []

abbrev three_commands : Envelope
three_commands = envelope [] nothing (of_list (flatten two_commands))

bulk_ok : bulk two_commands ≡ ok three_commands
unfolding bulk flatten downtime_envelope raw text_dec ℕ_discrete
bulk_ok = refl

shallow : All IsShallow two_commands
unfolding downtime_envelope raw text_dec ℕ_discrete
shallow = (tt, ((refl, (refl, tt)), tt))

bulk-commands_example :
    (commands_of three_commands ≡ carried two_commands)
    × All IsSingle (commands_of three_commands)
    × (command_count three_commands ≡ length (carried two_commands))
bulk-commands_example = bulk-commands two_commands three_commands shallow bulk_ok

abbrev audited : Entry
audited = record {
  user_id = some (pos 3);
  username = ascii "v";
  action = ascii "toggle";
  target = ascii "db/cpu";
  payload = ascii "{}";
  http_status = pos 202;
  response = ascii "accepted";
  remote_ip = ascii "10.0.0.1";
}

abbrev inserted : Insert
inserted = record {
  text = insert_text ++ join (ascii ", ") (row_texts (audited ∷ audited ∷ []));
  args = all_cells (pos 1000) (audited ∷ audited ∷ []);
}

inserted_ok : record_batch (pos 1000) (audited ∷ audited ∷ []) ≡ some inserted
unfolding record_batch
inserted_ok = refl

record_batch-placed_example :
    (marks inserted.text ≡ length inserted.args)
    × (length inserted.args ≡ 9 * 2)
    × (2 ≤ max_bulk_commands → length inserted.args ≤ 65535)
record_batch-placed_example =
    record_batch-placed (pos 1000) (audited ∷ audited ∷ []) inserted inserted_ok
