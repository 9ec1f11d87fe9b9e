-- ===== src/Query/Downtimes/Columns.antt =====
-- The constants of internal/repository/mysql/downtimes.go.
use interface.Prelude.{List, [], ◌∷◌, ◌++◌}
use interface.Text.{Text, ascii}

abbrev pub downtime_common_columns : Text
downtime_common_columns =
    ascii "internal_downtime_id, node_name, entry_time,\n\tCOALESCE(author_name,"
    ++ (ascii " '') AS author_name, COALESCE(comment_data, '') AS comment_data,"
        ++ (ascii "\n\tCOALESCE(triggered_by_id, 0) AS triggered_by_id,"
            ++ (ascii " COALESCE(is_fixed, 0) AS is_fixed,\n\tCOALESCE(duration,"
                ++ (ascii " 0) AS duration,\n\tscheduled_start_time, scheduled_end_time,"
                    ++ (ascii "\n\tCOALESCE(was_started, 0) AS was_started, actual_start_time")))))

abbrev pub empty_downtime_select : Text
empty_downtime_select =
    ascii "SELECT 'host' AS kind, '' AS hostname, '' AS service_description,"
    ++ (ascii " 0 AS internal_downtime_id, '' AS node_name, 0 AS entry_time,"
        ++ (ascii " '' AS author_name, '' AS comment_data, 0 AS triggered_by_id,"
            ++ (ascii " 0 AS is_fixed, 0 AS duration, 0 AS scheduled_start_time,"
                ++ (ascii " 0 AS scheduled_end_time, 0 AS was_started, 0 AS actual_start_time,"
                    ++ (ascii " 0 AS actual_end_time, 0 AS was_cancelled FROM DUAL WHERE FALSE")))))

abbrev pub downtime_sort_columns : List (Text × Text)
downtime_sort_columns =
    (ascii "scheduled_start_time", ascii "scheduled_start_time")
    ∷ (ascii "scheduled_end_time", ascii "scheduled_end_time")
    ∷ (ascii "entry_time", ascii "entry_time")
    ∷ (ascii "hostname", ascii "hostname")
    ∷ (ascii "service_description", ascii "service_description")
    ∷ (ascii "author", ascii "author_name")
    ∷ (ascii "kind", ascii "kind")
    ∷ []
