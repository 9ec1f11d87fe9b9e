-- ===== src/Query/Logs/Columns.antt =====
-- The constants of internal/repository/mysql/logentries.go.
use interface.Prelude.{List, [], ◌∷◌, ◌++◌}
use interface.Text.{Text, ascii}

abbrev pub log_select : Text
log_select =
    ascii "SELECT id, entry_time, COALESCE(logentry_type, 0),"
    ++ (ascii "\n\t\tCOALESCE(logentry_data, ''), COALESCE(node_name,"
        ++ (ascii " '')\n\t\tFROM statusengine_logentries"))

abbrev pub log_sort_columns : List (Text × Text)
log_sort_columns =
    (ascii "entry_time", ascii "entry_time")
    ∷ (ascii "logentry_type", ascii "logentry_type")
    ∷ (ascii "id", ascii "id")
    ∷ []
