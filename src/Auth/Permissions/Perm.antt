-- ===== src/Auth/Permissions/Perm.antt =====
-- The constants of internal/auth/permissions.go.
use interface.Text.{Text, ascii}

abbrev pub hosts_read : Text
hosts_read = ascii "hosts:read"

abbrev pub services_read : Text
services_read = ascii "services:read"

abbrev pub problems_read : Text
problems_read = ascii "problems:read"

abbrev pub downtimes_read : Text
downtimes_read = ascii "downtimes:read"

abbrev pub acks_read : Text
acks_read = ascii "acknowledgements:read"

abbrev pub log_entries_read : Text
log_entries_read = ascii "logentries:read"

abbrev pub history_read : Text
history_read = ascii "history:read"

abbrev pub metrics_read : Text
metrics_read = ascii "metrics:read"

abbrev pub audit_read : Text
audit_read = ascii "audit:read"

abbrev pub reschedule : Text
reschedule = ascii "commands:reschedule"

abbrev pub acknowledge : Text
acknowledge = ascii "commands:acknowledge"

abbrev pub downtime : Text
downtime = ascii "commands:downtime"

abbrev pub notification : Text
notification = ascii "commands:notification"

abbrev pub passive_result : Text
passive_result = ascii "commands:passiveresult"

abbrev pub toggle : Text
toggle = ascii "commands:toggle"

abbrev pub users_manage : Text
users_manage = ascii "users:manage"
