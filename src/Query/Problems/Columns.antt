-- ===== src/Query/Problems/Columns.antt =====
-- The constants of internal/repository/mysql/problems.go, and the two selections of its union.
use interface.Prelude.{List, [], ◌∷◌, ◌++◌}
use interface.Text.{Text, ascii}

abbrev pub host_problem_select : Text
host_problem_select =
    ascii "SELECT 'host' AS kind, hostname, '' AS service_description,"
    ++ (ascii "\n\t\t\tCOALESCE(current_state, 0) AS state, COALESCE(is_hardstate,"
        ++ (ascii " 0) AS is_hard,\n\t\t\tCOALESCE(output, '') AS output,"
            ++ (ascii "\n\t\t\tCOALESCE(current_check_attempt, 0) AS current_check_attempt,"
                ++ (ascii "\n\t\t\tCOALESCE(max_check_attempts, 0) AS max_check_attempts,"
                    ++ (ascii "\n\t\t\tlast_check, last_state_change,"
                        ++ (ascii
                              "\n\t\t\tCOALESCE(problem_has_been_acknowledged, 0) AS acknowledged,"
                            ++ (ascii
                                  "\n\t\t\tCOALESCE(scheduled_downtime_depth, 0) AS downtime_depth,"
                                ++ (ascii "\n\t\t\tCOALESCE(is_flapping, 0) AS is_flapping,"
                                    ++ (ascii
                                          "\n\t\t\tCOALESCE(notifications_enabled, 0) AS notifications_enabled,"
                                        ++ (ascii "\n\t\t\t0 AS host_is_down,"
                                            ++ (ascii
                                                "\n\t\t\tCASE current_state WHEN 1 THEN 5 WHEN 2 THEN 3 ELSE 0 END AS severity\n\t\t\tFROM statusengine_hoststatus")))))))))))

abbrev pub service_problem_select : Text
service_problem_select =
    ascii "SELECT 'service' AS kind, s.hostname, s.service_description,"
    ++ (ascii "\n\t\t\tCOALESCE(s.current_state, 0) AS state,"
        ++ (ascii " COALESCE(s.is_hardstate, 0) AS is_hard,\n\t\t\tCOALESCE(s.output,"
            ++ (ascii " '') AS output,\n\t\t\tCOALESCE(s.current_check_attempt,"
                ++ (ascii " 0) AS current_check_attempt,\n\t\t\tCOALESCE(s.max_check_attempts,"
                    ++ (ascii " 0) AS max_check_attempts,\n\t\t\ts.last_check, s.last_state_change,"
                        ++ (ascii
                              "\n\t\t\tCOALESCE(s.problem_has_been_acknowledged, 0) AS acknowledged,"
                            ++ (ascii
                                  "\n\t\t\tCOALESCE(s.scheduled_downtime_depth, 0) AS downtime_depth,"
                                ++ (ascii "\n\t\t\tCOALESCE(s.is_flapping, 0) AS is_flapping,"
                                    ++ (ascii
                                          "\n\t\t\tCOALESCE(s.notifications_enabled, 0) AS notifications_enabled,"
                                        ++ (ascii "\n\t\t\tCASE WHEN COALESCE(h.current_state,"
                                            ++ (ascii " 0) <> 0 THEN 1 ELSE 0 END AS host_is_down,"
                                                ++ (ascii
                                                    "\n\t\t\tCASE s.current_state WHEN 2 THEN 4 WHEN 1 THEN 2 WHEN 3 THEN 1 ELSE 0 END AS severity\n\t\t\tFROM statusengine_servicestatus s\n\t\t\tLEFT JOIN statusengine_hoststatus h ON h.hostname = s.hostname"))))))))))))

abbrev pub empty_problem_select : Text
empty_problem_select =
    ascii "SELECT 'host' AS kind, '' AS hostname, '' AS service_description,"
    ++ (ascii " 0 AS state, 0 AS is_hard, '' AS output, 0 AS current_check_attempt,"
        ++ (ascii " 0 AS max_check_attempts, 0 AS last_check, 0 AS last_state_change,"
            ++ (ascii " 0 AS acknowledged, 0 AS downtime_depth, 0 AS is_flapping,"
                ++ (ascii " 0 AS notifications_enabled, 0 AS host_is_down,"
                    ++ (ascii " 0 AS severity FROM DUAL WHERE FALSE")))))

abbrev pub problem_sort_columns : List (Text × Text)
problem_sort_columns =
    (ascii "severity", ascii "severity")
    ∷ (ascii "hostname", ascii "hostname")
    ∷ (ascii "service_description", ascii "service_description")
    ∷ (ascii "state", ascii "state")
    ∷ (ascii "last_check", ascii "last_check")
    ∷ (ascii "last_state_change", ascii "last_state_change")
    ∷ (ascii "kind", ascii "kind")
    ∷ []
