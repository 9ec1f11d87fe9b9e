-- ===== src/Commands/Audit.antt =====
-- internal/commands/audit.go: the statements of the audit.
pub mod Placed
use interface.Prelude.{
  ℕ, zero, suc, ◌/◌, Bool, true, false, Option, none, some, List, [], ◌∷◌, ◌++◌, leb, length,
  if◌then◌else◌,
}
use interface.Prelude.Int.{ℤ, pos, negsuc, ◌-ℤ◌, leb_ℤ, ltb_ℤ, wrap64}
use interface.Text.{Text, ascii, is_empty, join}
use interface.Query.{Value, text_value, int_value, escape, direction}
use interface.Query.Statement.{Statement}

-- A cell of a row: a value, the user's id that may be missing, or a payload that is encoded elsewhere.
pub data Cell : Type 0 where
  value_cell : Value → Cell
  null_cell : Cell
  payload_cell : Text → Cell

-- `Entry`, with its payload as it is encoded
pub record Entry : Type 0 where
  pub user_id : Option ℤ
  pub username : Text
  pub action : Text
  pub target : Text
  pub payload : Text
  pub http_status : ℤ
  pub response : Text
  pub remote_ip : Text

-- `s[:n]`
unfoldable pub take : ℕ → Text → Text
take zero bs = []
take (suc n) [] = []
take (suc n) (b ∷ bs) = b ∷ take n bs

-- `truncate`
unfoldable pub truncate : Text → ℕ → Text
truncate s n = if leb (length s) n then s else take n s

abbrev pub text_cell : Text → Cell
text_cell s = value_cell (text_value s)

abbrev pub id_cell : Option ℤ → Cell
id_cell none = null_cell
id_cell (some id) = value_cell (int_value id)

-- what one entry binds
unfoldable pub cells : ℤ → Entry → List Cell
cells now e =
    id_cell e.user_id
    ∷ text_cell e.username
    ∷ text_cell e.action
    ∷ text_cell (truncate e.target 512)
    ∷ payload_cell e.payload
    ∷ value_cell (int_value e.http_status)
    ∷ text_cell (truncate e.response 1024)
    ∷ text_cell (truncate e.remote_ip 45)
    ∷ value_cell (int_value now)
    ∷ []

abbrev pub row_text : Text
row_text = ascii "(?, ?, ?, ?, ?, ?, ?, ?, ?)"

abbrev pub insert_text : Text
insert_text =
    ascii "INSERT INTO sei_command_audit (user_id, username, action, target, payload,"
    ++ ascii " http_status, response, remote_ip, created_at) VALUES "

-- the loop of `RecordBatch`
abbrev pub row_texts : List Entry → List Text
row_texts [] = []
row_texts (e ∷ es) = row_text ∷ row_texts es

unfoldable pub all_cells : ℤ → List Entry → List Cell
all_cells now [] = []
all_cells now (e ∷ es) = cells now e ++ all_cells now es

-- a statement that binds cells
pub record Insert : Type 0 where
  pub text : Text
  pub args : List Cell

-- `RecordBatch`: nothing is executed for no entries
unfoldable pub record_batch : ℤ → List Entry → Option Insert
record_batch now [] = none
record_batch now (e ∷ es) = some (record {
  text = insert_text ++ join (ascii ", ") (row_texts (e ∷ es));
  args = all_cells now (e ∷ es);
})

-- `Time.Unix` of a time in nanoseconds: whole seconds, rounded down
unfoldable pub unix_seconds : ℤ → ℤ
unix_seconds (pos n) = pos (n / 1000000000)
unix_seconds (negsuc n) = negsuc (n / 1000000000)

-- `Prune`, at a time in nanoseconds: what is executed, if anything is
unfoldable pub prune : (now keep : ℤ) → Option Statement
prune now keep =
    if leb_ℤ keep (pos 0)
    then none
    else some (record {
      text = ascii "DELETE FROM sei_command_audit WHERE created_at < ?";
      args = int_value (unix_seconds (now -ℤ keep)) ∷ [];
    })

pub record AuditFilter : Type 0 where
  pub username : Text
  pub action : Text
  pub search : Text
  pub from : ℤ
  pub to : ℤ
  pub failed_only : Bool

abbrev pub no_statement : Statement
no_statement = record { text = ascii " WHERE 1=1"; args = [] }

-- `if test { where += expr; args = append(args, values...) }`
pub record Extension : Type 0 where
  pub test : Bool
  pub expr : Text
  pub values : List Value

abbrev pub extend : Extension → Statement → Statement
extend x s = if x.test then record { text = s.text ++ x.expr; args = s.args ++ x.values } else s

abbrev pub extend_all : List Extension → Statement → Statement
extend_all [] s = s
extend_all (x ∷ xs) s = extend_all xs (extend x s)

abbrev pub audit_pattern : Text → Text
audit_pattern search = ascii "%" ++ (escape search ++ ascii "%")

abbrev pub equal_to : Text → Text → Extension
equal_to expr value = record {
  test = if is_empty value then false else true;
  expr = expr;
  values = text_value value ∷ [];
}

abbrev pub bounded_by : Text → ℤ → Extension
bounded_by expr value = record {
  test = ltb_ℤ (pos 0) value;
  expr = expr;
  values = int_value value ∷ [];
}

-- the conditions of `Audit.List`, in order
abbrev pub audit_extensions : AuditFilter → List Extension
audit_extensions f =
    let pattern = text_value (audit_pattern f.search) in
    equal_to (ascii " AND username = ?") f.username
    ∷ equal_to (ascii " AND action = ?") f.action
    ∷ bounded_by (ascii " AND created_at >= ?") f.from
    ∷ bounded_by (ascii " AND created_at <= ?") f.to
    ∷ record { test = f.failed_only; expr = ascii " AND http_status <> 202"; values = [] }
    ∷ record {
      test = if is_empty f.search then false else true;
      expr = ascii " AND (target LIKE ? OR response LIKE ? OR username LIKE ?)";
      values = pattern ∷ pattern ∷ pattern ∷ [];
    }
    ∷ []

unfoldable pub audit_where : AuditFilter → Statement
audit_where f = extend_all (audit_extensions f) no_statement

-- the two statements of `Audit.List`
unfoldable pub audit_count : AuditFilter → Statement
audit_count f = record {
  text = ascii "SELECT COUNT(*) FROM sei_command_audit" ++ (audit_where f).text;
  args = (audit_where f).args;
}

abbrev pub audit_order : Bool → Text
audit_order desc =
    ascii " ORDER BY created_at "
    ++ (direction desc ++ (ascii ", id " ++ (direction desc ++ ascii " LIMIT ? OFFSET ?")))

abbrev pub audit_select : Text
audit_select =
    ascii "SELECT id, username, action, target, payload, http_status, response,\n\t\t"
    ++ ascii "remote_ip, created_at FROM sei_command_audit"

unfoldable pub audit_page : AuditFilter → (limit offset : ℤ) → Bool → Statement
audit_page f limit offset desc = record {
  text = audit_select ++ ((audit_where f).text ++ audit_order desc);
  args = (audit_where f).args ++ int_value limit ∷ int_value offset ∷ [];
}
