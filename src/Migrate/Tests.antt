-- ===== src/Migrate/Tests.antt =====
-- The migrations on two small files and a database that takes every statement.
use interface.Prelude.{
  ◌≡◌, refl, ap, true, false, List, [], ◌∷◌, ◌++◌, In, if◌then◌else◌, ℕ_discrete, sym,
}
use interface.Prelude.Result.{Result, ok}
use interface.Text.{Text, ascii, eq, text_dec, split}
use interface.Text.Trim.{trim_space, trim_left, trim_right, is_space}
use interface.Text.Runes.{decode_rune, runes_from}
use interface.Text.Affixes.{skip_bytes, first_bytes, has_prefix, has_suffix, trim_suffix}
use interface.Migrate.{
  Database, DirEntry, put_statement, collect, statements, text_leb, place, sort_strings,
  is_migration, sql_names, migration_names, version_of, exec_all, record_version, apply,
  apply_pending, migrate, locked, run,
}
use interface.Migrate.Once.{IsDatabase, IsRecorded, run-IsComplete}

-- Comments and blank lines go, a statement may take several lines, and the last needs no semicolon.
statements_example :
    statements (ascii "-- users\nCREATE TABLE a\n  (b);\n\n;\nDROP c")
    ≡ ascii "CREATE TABLE a\n  (b)" ∷ ascii "DROP c" ∷ []
unfolding statements collect put_statement trim_suffix has_suffix has_prefix skip_bytes first_bytes
    split trim_space trim_left trim_right is_space runes_from decode_rune text_dec ℕ_discrete
statements_example = refl

pub record Rows : Type 0 where
  pub versions : List Text
  pub executed : List Text

abbrev entries : List DirEntry
entries =
    record { name = ascii "b.sql"; is_dir = false }
    ∷ record { name = ascii "old.sql"; is_dir = true }
    ∷ record { name = ascii "a.sql"; is_dir = false }
    ∷ []

abbrev file : Text → Result Text Text
file name = if eq name (ascii "a.sql") then ok (ascii "A;\nB;") else ok (ascii "C")

abbrev database : Database
database = record {
  State = Rows;
  connect = λ s. (s, ok tt);
  get_lock = λ s. (s, ok true);
  release_lock = λ s. s;
  create_table = λ s. (s, ok tt);
  applied_versions = λ s. (s, ok s.versions);
  begin = λ s. (s, ok tt);
  exec = λ q s. (record s { executed = s.executed ++ q ∷ [] }, ok tt);
  insert_version = λ v now s. (record s { versions = v ∷ s.versions }, ok tt);
  commit = λ s. (s, ok tt);
  rollback = λ s. s;
  read_dir = ok entries;
  read_file = file;
}

abbrev fresh : Rows
fresh = record { versions = []; executed = [] }

abbrev after_run : Rows
after_run = record {
  versions = ascii "b" ∷ ascii "a" ∷ [];
  executed = ascii "A" ∷ ascii "B" ∷ ascii "C" ∷ [];
}

-- the files in the order of their names, and the directory left out
run_example : run database 7 fresh ≡ (after_run, ok tt)
unfolding run locked migrate apply_pending apply record_version exec_all migration_names sql_names
    is_migration sort_strings place text_leb statements collect put_statement trim_suffix has_suffix
    has_prefix skip_bytes first_bytes split trim_space trim_left trim_right is_space runes_from
    decode_rune text_dec ℕ_discrete
run_example = refl

database-IsDatabase : IsDatabase database (λ s. s.versions)
database-IsDatabase = record {
  connect_kept = λ s s' a h. ap (λ p. p.0.versions) (sym h);
  lock_kept = λ s s' a h. ap (λ p. p.0.versions) (sym h);
  release_kept = λ s. refl;
  table_kept = λ s s' a h. ap (λ p. p.0.versions) (sym h);
  versions_kept = λ s s' a h. ap (λ p. p.0.versions) (sym h);
  versions_read = λ s s' vs h. cc;
  begin_kept = λ s s' a h. ap (λ p. p.0.versions) (sym h);
  exec_kept = λ name body q f m s s' a h. ap (λ p. p.0.versions) (sym h);
  inserted = λ v now s s' h. ap (λ p. p.0.versions) (sym h);
  commit_kept = λ s s' a h. ap (λ p. p.0.versions) (sym h);
  rollback_committed = λ s s' h. refl;
}

run-IsComplete_example :
    ((v : Text)
      → IsRecorded database (λ s. s.versions) v fresh
      → IsRecorded database (λ s. s.versions) v after_run)
    × (es : List DirEntry) × (database.read_dir ≡ ok es)
    × ((e : DirEntry)
        → In e es
        → is_migration e ≡ true
        → IsRecorded database (λ s. s.versions) (version_of e.name) after_run)
    × (apply_pending database 7 after_run.versions (migration_names es) after_run
        ≡ (after_run, ok tt))
run-IsComplete_example =
    run-IsComplete database (λ s. s.versions) 7 database-IsDatabase fresh after_run run_example
