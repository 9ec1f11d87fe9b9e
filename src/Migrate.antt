-- ===== src/Migrate.antt =====
-- internal/migrate/migrate.go: the migrations that a database still lacks, applied in order.
-- `State` is the database as one connection sees it; a call returns the state it leaves. The closing
-- of the connection at the end, whose error is not read, is left out.

mod Once
mod Tests
use interface.Prelude.{
  ℕ, zero, suc, ◌+◌, ◌-◌, Bool, true, false, not, ◌&&◌, ◌||◌, List, [], ◌∷◌, ◌++◌, length, leb,
  if◌then◌else◌,
}
use interface.Prelude.Result.{Result, ok, err}
use interface.Prelude.Sets.{has}
use interface.Text.{Text, ascii, is_empty, eq, text_dec, split}
use interface.Text.Trim.{trim_space}
use interface.Text.Affixes.{has_prefix, has_suffix, trim_suffix}

-- one statement without its last semicolon, when anything is left of it
unfoldable pub put_statement : Text → List Text → List Text
put_statement s out = if is_empty s then out else out ++ s ∷ []

-- the loop of `Statements`, and what follows it
unfoldable pub collect : List Text → Text → List Text → List Text
collect [] cur out = put_statement (trim_space cur) out
collect (line ∷ lines) cur out =
    let trimmed = trim_space line in
    let more = cur ++ (line ++ b'\n' ∷ []) in
    elim (is_empty trimmed || has_prefix trimmed (ascii "--")) [
      | true ↦ collect lines cur out
      | false ↦ elim (has_suffix trimmed (ascii ";")) [
        | true ↦
            collect lines []
              (put_statement (trim_space (trim_suffix (trim_space more) (ascii ";"))) out)
        | false ↦ collect lines more out
      ]
    ]

-- `Statements`
unfoldable pub statements : Text → List Text
statements body = collect (split b'\n' body) [] []

-- the order of `sort.Strings`
unfoldable pub text_leb : Text → Text → Bool
text_leb [] ys = true
text_leb (x ∷ xs) [] = false
text_leb (x ∷ xs) (y ∷ ys) =
    let rest = text_leb xs ys in if leb x y then (if leb y x then rest else true) else false

unfoldable pub place : Text → List Text → List Text
place x [] = x ∷ []
place x (y ∷ ys) = let rest = place x ys in if text_leb x y then x ∷ y ∷ ys else y ∷ rest

unfoldable pub sort_strings : List Text → List Text
sort_strings [] = []
sort_strings (x ∷ xs) = place x (sort_strings xs)

pub record DirEntry : Type 0 where
  pub name : Text
  pub is_dir : Bool

unfoldable pub is_migration : DirEntry → Bool
is_migration e = not e.is_dir && has_suffix e.name (ascii ".sql")

unfoldable pub sql_names : List DirEntry → List Text
sql_names [] = []
sql_names (e ∷ es) = let rest = sql_names es in if is_migration e then e.name ∷ rest else rest

-- `migrationNames`, of a directory that could be read
unfoldable pub migration_names : List DirEntry → List Text
migration_names es = sort_strings (sql_names es)

abbrev pub version_of : Text → Text
version_of name = trim_suffix name (ascii ".sql")

-- The messages that `Run` returns; the last text is the error that is wrapped, or returned as it is
-- by `Commit`.
pub data MigrateError : Type 0 where
  acquiring_connection : Text → MigrateError
  acquiring_lock : Text → MigrateError
  lock_held : MigrateError
  creating_table : Text → MigrateError
  reading_versions : Text → MigrateError
  listing : Text → MigrateError
  reading_file : Text → Text → MigrateError
  begin_failed : Text → Text → MigrateError
  statement_failed : Text → ℕ → Text → MigrateError
  recording_failed : Text → Text → MigrateError
  commit_failed : Text → MigrateError

-- `if err := call; err != nil { return wrap(err) }`, then the rest
abbrev pub then_run :
    {S A B : Type 0}
    → S × Result Text A
    → (Text → MigrateError)
    → (A → S → S × Result MigrateError B)
    → S × Result MigrateError B
then_run (s, ok a) wrap rest = rest a s
then_run (s, err e) wrap rest = (s, err (wrap e))

-- The database as `Run` calls it, and the embedded files.
pub record Database : Type 1 where
  pub State : Type 0
  pub connect : State → State × Result Text (Unit {0})
  pub get_lock : State → State × Result Text Bool
  pub release_lock : State → State
  pub create_table : State → State × Result Text (Unit {0})
  pub applied_versions : State → State × Result Text (List Text)
  pub begin : State → State × Result Text (Unit {0})
  pub exec : Text → State → State × Result Text (Unit {0})
  pub insert_version : Text → ℕ → State → State × Result Text (Unit {0})
  pub commit : State → State × Result Text (Unit {0})
  pub rollback : State → State
  pub read_dir : Result Text (List DirEntry)
  pub read_file : Text → Result Text Text

module _ (db : Database) (now : ℕ) where
  abbrev pub Outcome : Type 0
  Outcome = db.State × Result MigrateError (Unit {0})

  -- the statements of a migration, of which `i` have been run
  unfoldable pub exec_all : Text → ℕ → List Text → db.State → Outcome
  exec_all version i [] s = (s, ok tt)
  exec_all version i (q ∷ qs) s =
      then_run (db.exec q s) (statement_failed version (i + 1)) (λ _. exec_all version (i + 1) qs)

  -- what `apply` does inside the transaction: it returns `tx.Commit()`
  unfoldable pub record_version : Text → Outcome → Outcome
  record_version version (s, ok u) =
      then_run (db.insert_version version now s) (recording_failed version)
        (λ _ s1. then_run (db.commit s1) commit_failed (λ _ s2. (s2, ok tt)))
  record_version version (s, err e) = (s, err e)

  -- `apply`, with the deferred `tx.Rollback()` last
  unfoldable pub apply : Text → Text → db.State → Outcome
  apply version body s = then_run (db.begin s) (begin_failed version) (λ _ s1.
      let (s2, done) = record_version version (exec_all version 0 (statements body) s1) in
      (db.rollback s2, done))

  -- the loop of `Run`, over the versions read before it
  unfoldable pub apply_pending : List Text → List Text → db.State → Outcome
  apply_pending applied [] s = (s, ok tt)
  apply_pending applied (name ∷ names) s = elim (has text_dec (version_of name) applied) [
    | true ↦ apply_pending applied names s
    | false ↦
        then_run (s, db.read_file name) (reading_file name)
          (λ body s1.
            let (s2, done) = apply (version_of name) body s1 in
            elim done [ ok u ↦ apply_pending applied names s2 | err e ↦ (s2, err e) ])
  ]

  -- `Run` once the lock is held
  unfoldable pub migrate : db.State → Outcome
  migrate s = then_run (db.create_table s) creating_table (λ _ s1.
      then_run (db.applied_versions s1) reading_versions (λ applied s2.
        then_run (s2, db.read_dir) listing (λ es. apply_pending applied (migration_names es))))

  -- the end of `Run`, where the lock is released whatever came of it
  unfoldable pub locked : Bool → db.State → Outcome
  locked false s = (s, err lock_held)
  locked true s = let (s1, done) = migrate s in (db.release_lock s1, done)

  -- `Run`
  unfoldable pub run : db.State → Outcome
  run s =
      then_run (db.connect s) acquiring_connection
        (λ _ s1. then_run (db.get_lock s1) acquiring_lock locked)
