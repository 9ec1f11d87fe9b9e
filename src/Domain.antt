-- ===== src/Domain.antt =====
-- internal/domain: the states of the core as numbers, and the kinds of object.
use interface.Text.{Text, ascii}

-- `Kind` is a string in the source, and a request may bring any.
abbrev pub Kind : Type 0
Kind = Text

abbrev pub kind_host : Kind
kind_host = ascii "host"

abbrev pub kind_service : Kind
kind_service = ascii "service"
