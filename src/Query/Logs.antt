-- ===== src/Query/Logs.antt =====
-- internal/repository/mysql/logentries.go: the statements of the log list.
pub mod Columns
pub mod Bound
use interface.Prelude.{List, [], ◌∷◌, ◌++◌, if◌then◌else◌}
use interface.Prelude.Int.{ℤ}
use interface.Text.{Text, ascii, is_empty}
use interface.Query.{
  text_value, int_value, Conditions, no_conditions, add, add_in, like_escape, clause, order_by,
  Page, limit_clause, limit_args,
}
use interface.Query.Search.{add_text, like_column}
use interface.Query.Statement.{Statement}
use Columns

pub record LogFilter : Type 0 where
  pub search : Text
  pub from : ℤ
  pub to : ℤ
  pub types : List ℤ
  pub node : Text

unfoldable pub add_log_search : Text → Conditions → Conditions
add_log_search search c =
    if is_empty search
    then c
    else add (like_column (ascii "logentry_data")) (text_value (like_escape search) ∷ []) c

-- the conditions of `LogEntries.List`
unfoldable pub log_conditions : LogFilter → Conditions
log_conditions f = add_log_search f.search (
    add_text (ascii "node_name = ?") f.node (
      add_in (ascii "logentry_type") f.types (
        add (ascii "entry_time <= ?") (int_value f.to ∷ [])
          (add (ascii "entry_time >= ?") (int_value f.from ∷ []) no_conditions))))

-- its two statements
unfoldable pub log_count : LogFilter → Statement
log_count f = record {
  text = ascii "SELECT COUNT(*) FROM statusengine_logentries" ++ clause (log_conditions f);
  args = (log_conditions f).args;
}

unfoldable pub log_page : LogFilter → Page → Statement
log_page f p = record {
  text =
      Columns.log_select
      ++ (clause (log_conditions f)
          ++ (order_by p.sort p.desc Columns.log_sort_columns (ascii "entry_time")
              ++ limit_clause));
  args = (log_conditions f).args ++ limit_args p;
}
