-- ===== src/Query/Acknowledgements.antt =====
-- internal/repository/mysql/acknowledgements.go: the statements of the acknowledgement list.
pub mod Columns
pub mod Bound
use interface.Prelude.{Bool, true, false, not, ◌&&◌, List, [], ◌∷◌, ◌++◌, if◌then◌else◌}
use interface.Prelude.Int.{ℤ, pos, ltb_ℤ}
use interface.Text.{Text, ascii, is_empty, eq}
use interface.Domain.{Kind, kind_host, kind_service}
use interface.Query.{int_value, Conditions, no_conditions, add, Page}
use interface.Query.Search.{add_search, add_text}
use interface.Query.Statement.{Statement, Part, part_if, union, count_of, page_of}
use Columns

pub record AckFilter : Type 0 where
  pub search : Text
  pub host : Text
  pub service : Text
  pub author : Text
  pub kind : Kind
  pub from : ℤ
  pub to : ℤ

-- a bound of `entry_time`, if there is one
unfoldable pub add_bound : Text → ℤ → Conditions → Conditions
add_bound expr value c = if ltb_ℤ (pos 0) value then add expr (int_value value ∷ []) c else c

-- the columns searched besides those of the table
abbrev pub comment_columns : List Text
comment_columns = ascii "comment_data" ∷ ascii "author_name" ∷ []

-- `AckFilter.applyCommon`
unfoldable pub apply_ack : AckFilter → List Text → Conditions → Conditions
apply_ack f columns c = add_search f.search (columns ++ comment_columns) (
    add_bound (ascii "entry_time <= ?") f.to (
      add_bound (ascii "entry_time >= ?") f.from (
        add_text (ascii "author_name = ?") f.author (
          add_text (ascii "service_description = ?") f.service
            (add_text (ascii "hostname = ?") f.host c)))))

abbrev pub host_acknowledgements : AckFilter → Part
host_acknowledgements f = record {
  select =
      ascii "SELECT 'host' AS kind, hostname, '' AS service_description, "
      ++ (Columns.ack_common_columns ++ ascii " FROM statusengine_host_acknowledgements");
  conditions = apply_ack f (ascii "hostname" ∷ []) no_conditions;
}

abbrev pub service_acknowledgements : AckFilter → Part
service_acknowledgements f = record {
  select =
      ascii "SELECT 'service' AS kind, COALESCE(hostname, '') AS hostname, "
      ++ (ascii "service_description, "
          ++ (Columns.ack_common_columns ++ ascii " FROM statusengine_service_acknowledgements"));
  conditions = apply_ack f (ascii "hostname" ∷ ascii "service_description" ∷ []) no_conditions;
}

-- `AckFilter.union`
unfoldable pub ack_union : AckFilter → Statement
ack_union f = union Columns.empty_ack_select (
    part_if (not (eq f.kind kind_service) && is_empty f.service) (host_acknowledgements f)
    ++ part_if (not (eq f.kind kind_host)) (service_acknowledgements f))

-- the two statements of `Acknowledgements.List`
unfoldable pub ack_count : AckFilter → Statement
ack_count f = count_of (ascii "a") (ack_union f)

unfoldable pub ack_page : AckFilter → Page → Statement
ack_page f p = page_of (ascii "a") Columns.ack_sort_columns (ascii "entry_time") p (ack_union f)

-- the filter and the page of `LatestFor`
unfoldable pub latest_for : Kind → Text → Text → Statement
latest_for kind host service =
    ack_page
      (record {
        search = [];
        host = host;
        service = if eq kind kind_service then service else [];
        author = [];
        kind = kind;
        from = pos 0;
        to = pos 0;
      })
      (record { limit = pos 1; offset = pos 0; sort = ascii "entry_time"; desc = true })
