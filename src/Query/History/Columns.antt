-- ===== src/Query/History/Columns.antt =====
-- The constants of internal/repository/mysql/history.go.
use interface.Prelude.{List, [], ◌∷◌, ◌++◌}
use interface.Text.{Text, ascii}

abbrev pub host_check_columns : Text
host_check_columns =
    ascii "'host' AS kind, hostname, '' AS service_description,\n\tstart_time,"
    ++ (ascii " end_time, COALESCE(state, 0) AS state, COALESCE(is_hardstate,"
        ++ (ascii " 0) AS is_hard,\n\tCOALESCE(output, '') AS output,"
            ++ (ascii " COALESCE(long_output, '') AS long_output,\n\tCOALESCE(perfdata,"
                ++ (ascii " '') AS perfdata, COALESCE(command, '') AS command,"
                    ++ (ascii "\n\tCOALESCE(current_check_attempt, 0) AS current_check_attempt,"
                        ++ (ascii "\n\tCOALESCE(max_check_attempts, 0) AS max_check_attempts,"
                            ++ (ascii
                                  "\n\tCOALESCE(latency, 0) AS latency, COALESCE(execution_time,"
                                ++ (ascii
                                      " 0) AS execution_time,\n\tCOALESCE(timeout, 0) AS timeout,"
                                    ++ (ascii
                                        " COALESCE(early_timeout, 0) AS early_timeout")))))))))

abbrev pub service_check_columns : Text
service_check_columns =
    ascii "'service' AS kind, hostname, service_description,\n\tstart_time,"
    ++ (ascii " end_time, COALESCE(state, 0) AS state, COALESCE(is_hardstate,"
        ++ (ascii " 0) AS is_hard,\n\tCOALESCE(output, '') AS output,"
            ++ (ascii " COALESCE(long_output, '') AS long_output,\n\tCOALESCE(perfdata,"
                ++ (ascii " '') AS perfdata, COALESCE(command, '') AS command,"
                    ++ (ascii "\n\tCOALESCE(current_check_attempt, 0) AS current_check_attempt,"
                        ++ (ascii "\n\tCOALESCE(max_check_attempts, 0) AS max_check_attempts,"
                            ++ (ascii
                                  "\n\tCOALESCE(latency, 0) AS latency, COALESCE(execution_time,"
                                ++ (ascii
                                      " 0) AS execution_time,\n\tCOALESCE(timeout, 0) AS timeout,"
                                    ++ (ascii
                                        " COALESCE(early_timeout, 0) AS early_timeout")))))))))

abbrev pub empty_check_select : Text
empty_check_select =
    ascii "SELECT 'host' AS kind, '' AS hostname, '' AS service_description,"
    ++ (ascii "\n\t0 AS start_time, 0 AS end_time, 0 AS state, 0 AS is_hard,"
        ++ (ascii " '' AS output,\n\t'' AS long_output, '' AS perfdata, '' AS command,"
            ++ (ascii " 0 AS current_check_attempt,\n\t0 AS max_check_attempts, 0 AS latency,"
                ++ (ascii " 0 AS execution_time, 0 AS timeout,"
                    ++ (ascii "\n\t0 AS early_timeout FROM DUAL WHERE FALSE")))))

abbrev pub host_state_columns : Text
host_state_columns =
    ascii "'host' AS kind, hostname, '' AS service_description,\n\tstate_time,"
    ++ (ascii " COALESCE(state, 0) AS state, COALESCE(last_state, 0) AS last_state,"
        ++ (ascii "\n\tCOALESCE(last_hard_state, 0) AS last_hard_state,"
            ++ (ascii " COALESCE(is_hardstate, 0) AS is_hard,\n\tCOALESCE(state_change,"
                ++ (ascii " 0) AS is_transition,\n\tCOALESCE(current_check_attempt,"
                    ++ (ascii " 0) AS current_check_attempt,\n\tCOALESCE(max_check_attempts,"
                        ++ (ascii " 0) AS max_check_attempts,\n\tCOALESCE(output, '') AS output,"
                            ++ (ascii " COALESCE(long_output, '') AS long_output")))))))

abbrev pub service_state_columns : Text
service_state_columns =
    ascii "'service' AS kind, hostname, service_description,\n\tstate_time,"
    ++ (ascii " COALESCE(state, 0) AS state, COALESCE(last_state, 0) AS last_state,"
        ++ (ascii "\n\tCOALESCE(last_hard_state, 0) AS last_hard_state,"
            ++ (ascii " COALESCE(is_hardstate, 0) AS is_hard,\n\tCOALESCE(state_change,"
                ++ (ascii " 0) AS is_transition,\n\tCOALESCE(current_check_attempt,"
                    ++ (ascii " 0) AS current_check_attempt,\n\tCOALESCE(max_check_attempts,"
                        ++ (ascii " 0) AS max_check_attempts,\n\tCOALESCE(output, '') AS output,"
                            ++ (ascii " COALESCE(long_output, '') AS long_output")))))))

abbrev pub empty_state_select : Text
empty_state_select =
    ascii "SELECT 'host' AS kind, '' AS hostname, '' AS service_description,"
    ++ (ascii "\n\t0 AS state_time, 0 AS state, 0 AS last_state,"
        ++ (ascii " 0 AS last_hard_state, 0 AS is_hard,\n\t0 AS is_transition,"
            ++ (ascii " 0 AS current_check_attempt, 0 AS max_check_attempts,\n\t'' AS output,"
                ++ (ascii " '' AS long_output FROM DUAL WHERE FALSE"))))

abbrev pub host_notification_columns : Text
host_notification_columns =
    ascii "'host' AS kind, hostname, '' AS service_description,\n\tstart_time,"
    ++ (ascii " end_time, COALESCE(contact_name, '') AS contact_name,"
        ++ (ascii "\n\tCOALESCE(command_name, '') AS command_name, COALESCE(command_args,"
            ++ (ascii " '') AS command_args,\n\tCOALESCE(state, 0) AS state,"
                ++ (ascii " COALESCE(reason_type, 0) AS reason_type,\n\tCOALESCE(output,"
                    ++ (ascii " '') AS output, COALESCE(ack_author, '') AS ack_author,"
                        ++ (ascii "\n\tCOALESCE(ack_data, '') AS ack_data"))))))

abbrev pub service_notification_columns : Text
service_notification_columns =
    ascii "'service' AS kind, hostname, service_description,\n\tstart_time,"
    ++ (ascii " end_time, COALESCE(contact_name, '') AS contact_name,"
        ++ (ascii "\n\tCOALESCE(command_name, '') AS command_name, COALESCE(command_args,"
            ++ (ascii " '') AS command_args,\n\tCOALESCE(state, 0) AS state,"
                ++ (ascii " COALESCE(reason_type, 0) AS reason_type,\n\tCOALESCE(output,"
                    ++ (ascii " '') AS output, COALESCE(ack_author, '') AS ack_author,"
                        ++ (ascii "\n\tCOALESCE(ack_data, '') AS ack_data"))))))

abbrev pub empty_notification_select : Text
empty_notification_select =
    ascii "SELECT 'host' AS kind, '' AS hostname, '' AS service_description,"
    ++ (ascii "\n\t0 AS start_time, 0 AS end_time, '' AS contact_name,"
        ++ (ascii " '' AS command_name,\n\t'' AS command_args, 0 AS state,"
            ++ (ascii " 0 AS reason_type, '' AS output, '' AS ack_author,"
                ++ (ascii "\n\t'' AS ack_data FROM DUAL WHERE FALSE"))))

abbrev pub check_sort_columns : List (Text × Text)
check_sort_columns =
    (ascii "start_time", ascii "start_time")
    ∷ (ascii "hostname", ascii "hostname")
    ∷ (ascii "service_description", ascii "service_description")
    ∷ (ascii "state", ascii "state")
    ∷ (ascii "execution_time", ascii "execution_time")
    ∷ (ascii "latency", ascii "latency")
    ∷ []

abbrev pub state_change_sort_columns : List (Text × Text)
state_change_sort_columns =
    (ascii "state_time", ascii "state_time")
    ∷ (ascii "hostname", ascii "hostname")
    ∷ (ascii "service_description", ascii "service_description")
    ∷ (ascii "state", ascii "state")
    ∷ []

abbrev pub notification_sort_columns : List (Text × Text)
notification_sort_columns =
    (ascii "start_time", ascii "start_time")
    ∷ (ascii "hostname", ascii "hostname")
    ∷ (ascii "service_description", ascii "service_description")
    ∷ (ascii "contact_name", ascii "contact_name")
    ∷ (ascii "state", ascii "state")
    ∷ []
