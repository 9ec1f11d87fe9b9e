-- ===== src/Query/Acknowledgements/Columns.antt =====
-- The constants of internal/repository/mysql/acknowledgements.go.
use interface.Prelude.{List, [], ◌∷◌, ◌++◌}
use interface.Text.{Text, ascii}

abbrev pub ack_common_columns : Text
ack_common_columns =
    ascii "entry_time, COALESCE(state, 0) AS state,\n\tCOALESCE(author_name,"
    ++ (ascii " '') AS author_name, COALESCE(comment_data, '') AS comment_data,"
        ++ (ascii "\n\tCOALESCE(acknowledgement_type, 0) AS acknowledgement_type,"
            ++ (ascii "\n\tCOALESCE(is_sticky, 0) AS is_sticky,"
                ++ (ascii "\n\tCOALESCE(persistent_comment, 0) AS persistent_comment,"
                    ++ (ascii "\n\tCOALESCE(notify_contacts, 0) AS notify_contacts")))))

abbrev pub empty_ack_select : Text
empty_ack_select =
    ascii "SELECT 'host' AS kind, '' AS hostname, '' AS service_description,"
    ++ (ascii " 0 AS entry_time, 0 AS state, '' AS author_name, '' AS comment_data,"
        ++ (ascii " 0 AS acknowledgement_type, 0 AS is_sticky, 0 AS persistent_comment,"
            ++ (ascii " 0 AS notify_contacts FROM DUAL WHERE FALSE")))

abbrev pub ack_sort_columns : List (Text × Text)
ack_sort_columns =
    (ascii "entry_time", ascii "entry_time")
    ∷ (ascii "hostname", ascii "hostname")
    ∷ (ascii "service_description", ascii "service_description")
    ∷ (ascii "author", ascii "author_name")
    ∷ (ascii "state", ascii "state")
    ∷ (ascii "kind", ascii "kind")
    ∷ []
