-- ===== src/Query/Status/Columns.antt =====
-- The constants of internal/repository/mysql/hosts.go and services.go that lists use.
use interface.Prelude.{List, [], ◌∷◌, ◌++◌}
use interface.Text.{Text, ascii}

abbrev pub host_list_columns : Text
host_list_columns =
    ascii "hostname,\n\tCOALESCE(current_state, 0), COALESCE(is_hardstate, 0),"
    ++ (ascii "\n\tCOALESCE(output, ''), COALESCE(perfdata, ''),"
        ++ (ascii "\n\tCOALESCE(current_check_attempt, 0), COALESCE(max_check_attempts,"
            ++ (ascii " 0),\n\tlast_check, next_check, last_state_change,"
                ++ (ascii " last_hard_state_change, status_update_time,"
                    ++ (ascii "\n\tCOALESCE(problem_has_been_acknowledged, 0),"
                        ++ (ascii " COALESCE(acknowledgement_type, 0),"
                            ++ (ascii
                                  "\n\tCOALESCE(scheduled_downtime_depth, 0),\n\tCOALESCE(is_flapping,"
                                ++ (ascii " 0), COALESCE(notifications_enabled, 0),"
                                    ++ (ascii "\n\tCOALESCE(active_checks_enabled, 0),"
                                        ++ (ascii
                                              " COALESCE(passive_checks_enabled, 0),\n\tCOALESCE(is_passive_check,"
                                            ++ (ascii " 0), COALESCE(event_handler_enabled, 0),"
                                                ++ (ascii
                                                      "\n\tCOALESCE(flap_detection_enabled, 0),\n\tCOALESCE(latency, 0),"
                                                    ++ (ascii
                                                        " COALESCE(execution_time, 0)")))))))))))))

abbrev pub service_list_columns : Text
service_list_columns =
    ascii "hostname, service_description,\n\tCOALESCE(current_state, 0),"
    ++ (ascii " COALESCE(is_hardstate, 0),\n\tCOALESCE(output, ''),"
        ++ (ascii " COALESCE(perfdata, ''),\n\tCOALESCE(current_check_attempt, 0),"
            ++ (ascii " COALESCE(max_check_attempts, 0),\n\tlast_check, next_check,"
                ++ (ascii " last_state_change, last_hard_state_change, status_update_time,"
                    ++ (ascii "\n\tCOALESCE(problem_has_been_acknowledged, 0),"
                        ++ (ascii " COALESCE(acknowledgement_type, 0),"
                            ++ (ascii
                                  "\n\tCOALESCE(scheduled_downtime_depth, 0),\n\tCOALESCE(is_flapping,"
                                ++ (ascii " 0), COALESCE(notifications_enabled, 0),"
                                    ++ (ascii "\n\tCOALESCE(active_checks_enabled, 0),"
                                        ++ (ascii
                                              " COALESCE(passive_checks_enabled, 0),\n\tCOALESCE(is_passive_check,"
                                            ++ (ascii " 0), COALESCE(event_handler_enabled, 0),"
                                                ++ (ascii
                                                      "\n\tCOALESCE(flap_detection_enabled, 0),\n\tCOALESCE(latency, 0),"
                                                    ++ (ascii
                                                        " COALESCE(execution_time, 0)")))))))))))))

abbrev pub host_sort_columns : List (Text × Text)
host_sort_columns =
    (ascii "hostname", ascii "hostname")
    ∷ (ascii "severity", ascii "CASE current_state WHEN 1 THEN 2 WHEN 2 THEN 1 ELSE 0 END")
    ∷ (ascii "state", ascii "current_state")
    ∷ (ascii "last_check", ascii "last_check")
    ∷ (ascii "next_check", ascii "next_check")
    ∷ (ascii "last_state_change", ascii "last_state_change")
    ∷ (ascii "current_check_attempt", ascii "current_check_attempt")
    ∷ (ascii "latency", ascii "latency")
    ∷ (ascii "execution_time", ascii "execution_time")
    ∷ (ascii "output", ascii "output")
    ∷ []

abbrev pub service_sort_columns : List (Text × Text)
service_sort_columns =
    (ascii "hostname", ascii "hostname")
    ∷ (ascii "service_description", ascii "service_description")
    ∷ (
      ascii "severity",
      ascii "CASE current_state WHEN 2 THEN 3 WHEN 1 THEN 2 WHEN 3 THEN 1 ELSE 0 END",
    )
    ∷ (ascii "state", ascii "current_state")
    ∷ (ascii "last_check", ascii "last_check")
    ∷ (ascii "next_check", ascii "next_check")
    ∷ (ascii "last_state_change", ascii "last_state_change")
    ∷ (ascii "current_check_attempt", ascii "current_check_attempt")
    ∷ (ascii "latency", ascii "latency")
    ∷ (ascii "execution_time", ascii "execution_time")
    ∷ (ascii "output", ascii "output")
    ∷ []
