-- ===== src/Migrate/Once.antt =====
-- `Run` of internal/migrate/migrate.go leaves every migration recorded, so none runs again.
use interface.Prelude.{
  ℕ, ◌+◌, ◌≡◌, ◌⊎◌, refl, sym, ap, subst, ◌∙◌, Bool, true, false, List, [], ◌∷◌, In, Bool-cases,
  arith, inl, inr,
}
use interface.Prelude.Result.{Result, ok, err, Result-cases}
use interface.Prelude.Sets.{has}
use interface.Text.{Text, text_dec}
use interface.Migrate.{
  Database, DirEntry, MigrateError, reading_file, lock_held, then_run, statements, text_leb, place,
  sort_strings, is_migration, sql_names, migration_names, version_of, exec_all, record_version,
  apply, apply_pending, migrate, locked, run,
}

then_run_inv :
    {S A B : Type 0} (m : S × Result Text A) (wrap : Text → MigrateError)
    (rest : A → S → S × Result MigrateError B) (s' : S) (b : B)
    → then_run m wrap rest ≡ (s', ok b)
    → (s : S) × (a : A) × (m ≡ (s, ok a)) × (rest a s ≡ (s', ok b))
then_run_inv (s, ok a) wrap rest s' b h = (s, a, refl, h)
then_run_inv (s, err e) wrap rest s' b h = absurd (cc)

In-place : (x y : Text) (ys : List Text) → (x ≡ y) ⊎ In x ys → In x (place y ys)
unfolding place
In-place x y [] h = h
In-place x y (z ∷ ys) h = elim (Bool-cases (text_leb y z)) [
  | inl before ↦ rw before h
  | inr after ↦ rw after (elim h [
    | inl p ↦ inr (In-place x y ys (inl p))
    | inr (inl q) ↦ inl q
    | inr (inr m) ↦ inr (In-place x y ys (inr m))
  ])
]

In-sort_strings : (x : Text) (xs : List Text) → In x xs → In x (sort_strings xs)
unfolding sort_strings
In-sort_strings x [] h = h
In-sort_strings x (y ∷ ys) (inl e) = In-place x y (sort_strings ys) (inl e)
In-sort_strings x (y ∷ ys) (inr m) = In-place x y (sort_strings ys) (inr (In-sort_strings x ys m))

In-sql_names :
    (e : DirEntry) (es : List DirEntry) → In e es → is_migration e ≡ true → In e.name (sql_names es)
unfolding sql_names
In-sql_names e [] m h = absurd m
In-sql_names e (d ∷ es) (inl q) h = rw (ap is_migration (sym q) ∙ h) (inl (ap (λ f. f.name) q))
In-sql_names e (d ∷ es) (inr m) h = elim (Bool-cases (is_migration d)) [
  | inl sql ↦ rw sql (inr (In-sql_names e es m h))
  | inr other ↦ rw other (In-sql_names e es m h)
]

module _ (db : Database) (recorded : db.State → List Text) where
  -- the rows of `sei_schema_migrations` that the connection sees
  abbrev pub IsRecorded : Text → db.State → Type 0
  IsRecorded version s = has text_dec version (recorded s) ≡ true

  -- A call that succeeds leaves those rows alone.
  abbrev pub Keeps : {A : Type 0} → (db.State → db.State × Result Text A) → Type 0
  Keeps {A} call = (s s' : db.State) (a : A) → call s ≡ (s', ok a) → recorded s' ≡ recorded s

  -- What the database documents, and what the files are written to do: their statements leave the
  -- table of the versions alone.
  pub record IsDatabase : Type 0 where
    pub connect_kept : Keeps db.connect
    pub lock_kept : Keeps db.get_lock
    pub release_kept : (s : db.State) → recorded (db.release_lock s) ≡ recorded s
    pub table_kept : Keeps db.create_table
    pub versions_kept : Keeps db.applied_versions
    pub versions_read :
        (s s' : db.State) (vs : List Text) → db.applied_versions s ≡ (s', ok vs) → vs ≡ recorded s
    pub begin_kept : Keeps db.begin
    pub exec_kept :
        (name body q : Text)
        → db.read_file name ≡ ok body
        → In q (statements body)
        → Keeps (db.exec q)
    pub inserted :
        (version : Text) (now : ℕ) (s s' : db.State)
        → db.insert_version version now s ≡ (s', ok tt)
        → recorded s' ≡ version ∷ recorded s
    pub commit_kept : Keeps db.commit
    pub rollback_committed : (s s' : db.State) → db.commit s ≡ (s', ok tt) → db.rollback s' ≡ s'

  module _ (now : ℕ) (d : IsDatabase) where
    exec_all-kept :
        (version : Text) (i : ℕ) (qs : List Text) (s s' : db.State)
        → ((q : Text) → In q qs → Keeps (db.exec q))
        → exec_all db now version i qs s ≡ (s', ok tt)
        → recorded s' ≡ recorded s
    unfolding exec_all
    exec_all-kept version i [] s s' k h = ap recorded (sym (ap (λ p. p.0) h))
    exec_all-kept version i (q ∷ qs) s s' k h =
        let (s1, u, run, rest) = then_run_inv (db.exec q s) _ _ s' tt h in
        exec_all-kept version (i + 1) qs s1 s' (λ r m. k r (inr m)) rest
        ∙ k q (inl refl) s s1 tt run

    record_version-recorded :
        (version : Text) (m : db.State × Result MigrateError (Unit {0})) (s' : db.State)
        → record_version db now version m ≡ (s', ok tt)
        → (s : db.State) × (m ≡ (s, ok tt))
          × (recorded s' ≡ version ∷ recorded s)
          × (db.rollback s' ≡ s')
    unfolding record_version
    record_version-recorded version (s, ok u) s' h =
        let (s1, _, put, rest) = then_run_inv (db.insert_version version now s) _ _ s' tt h in
        let (s2, _, done, last) = then_run_inv (db.commit s1) _ _ s' tt rest in
        let same : s2 ≡ s' = ap (λ p. p.0) last in
        (
          s,
          refl,
          ap recorded (sym same) ∙ (d.commit_kept s1 s2 tt done ∙ d.inserted version now s s1 put),
          subst (λ z. db.rollback z ≡ z) same (d.rollback_committed s1 s2 done),
        )
    record_version-recorded version (s, err e) s' h = absurd (cc)

    apply-recorded :
        (name body version : Text) (s s' : db.State)
        → db.read_file name ≡ ok body
        → apply db now version body s ≡ (s', ok tt)
        → recorded s' ≡ version ∷ recorded s
    unfolding apply
    apply-recorded name body version s s' f h =
        let (s1, _, begun, rest) = then_run_inv (db.begin s) _ _ s' tt h in
        let ran = exec_all db now version 0 (statements body) s1 in
        let (s2, all_run, put, same) =
          record_version-recorded version ran (record_version db now version ran).0
            (ap (λ p. ((record_version db now version ran).0, p.1)) rest) in
        let kept =
          exec_all-kept version 0 (statements body) s1 s2 (λ q. d.exec_kept name body q f)
            all_run in
        ap recorded (sym (ap (λ p. p.0) rest) ∙ same)
        ∙ (put ∙ ap (◌∷◌ version) (kept ∙ d.begin_kept s s1 tt begun))

    pair_err :
        (s s' : db.State) (e : MigrateError)
        → ◌≡◌ {A = db.State × Result MigrateError (Unit {0})} (s, err e) (s', ok tt)
        → ⊥
    pair_err s s' e h = cc

    -- what a migration that has been applied adds, seen from any version
    IsRecorded-more :
        (version v : Text) (s s' : db.State)
        → recorded s' ≡ version ∷ recorded s
        → IsRecorded v s
        → IsRecorded v s'
    IsRecorded-more version v s s' e h = ground (arith, e, h)

    IsRecorded-now :
        (version : Text) (s s' : db.State)
        → recorded s' ≡ version ∷ recorded s
        → IsRecorded version s'
    IsRecorded-now version s s' e = ground (arith, e)

    -- what the loop has done
    IsDone : List Text → db.State → db.State → Type 0
    IsDone names s s' =
        ((v : Text) → IsRecorded v s → IsRecorded v s')
        × ((name : Text) → In name names → IsRecorded (version_of name) s')

    apply_pending-IsDone :
        (applied names : List Text) (s s' : db.State)
        → ((v : Text) → has text_dec v applied ≡ true → IsRecorded v s)
        → apply_pending db now applied names s ≡ (s', ok tt)
        → IsDone names s s'
    unfolding apply_pending IsDone
    apply_pending-IsDone applied [] s s' k h =
        (λ v r. subst (IsRecorded v) (ap (λ p. p.0) h) r, λ n m. absurd m)
    apply_pending-IsDone applied (name ∷ names) s s' k h =
        elim (Bool-cases (has text_dec (version_of name) applied)) [
          | inl old ↦
              let (kept, all_names) =
                apply_pending-IsDone applied names s s' k (rw (old, apply_pending) at h) in
              (
                kept,
                λ n m. elim m [
                  | inl e ↦ rw e (kept (version_of name) (k (version_of name) old))
                  | inr m ↦ all_names n m
                ],
              )
          | inr new ↦ elim (Result-cases (db.read_file name)) [
            | inr (e, f) ↦
                absurd
                  (pair_err s s' (reading_file name e) (rw f at (rw (new, apply_pending) at h)))
            | inl (body, f) ↦
                let version = version_of name in
                let ran = apply db now version body s in
                let rest = rw f at (rw (new, apply_pending) at h) in
                elim (Result-cases ran.1) [
                  | inr (e, g) ↦ absurd (pair_err ran.0 s' e (rw g at rest))
                  | inl (u, g) ↦
                      let put =
                        apply-recorded name body version s ran.0 f (ap (λ r. (ran.0, r)) g) in
                      let more : (v : Text) → IsRecorded v s → IsRecorded v ran.0 =
                        λ v. IsRecorded-more version v s ran.0 put in
                      let (kept, all_names) =
                        apply_pending-IsDone applied names ran.0 s' (λ v o. more v (k v o))
                          (rw g at rest) in
                      (
                        λ v r. kept v (more v r),
                        λ n m. elim m [
                          | inl e ↦ rw e (kept version (IsRecorded-now version s ran.0 put))
                          | inr m ↦ all_names n m
                        ],
                      )
                ]
          ]
        ]

    none_pending :
        (applied names : List Text) (s : db.State)
        → ((name : Text) → In name names → has text_dec (version_of name) applied ≡ true)
        → apply_pending db now applied names s ≡ (s, ok tt)
    unfolding apply_pending
    none_pending applied [] s h = refl
    none_pending applied (name ∷ names) s h =
        rw (h name (inl refl), apply_pending) (none_pending applied names s (λ n m. h n (inr m)))

    -- The versions only grow, and those of all the migrations are among them.
    AllRecorded : List Text → List Text → Type 0
    AllRecorded before after =
        ((v : Text) → has text_dec v before ≡ true → has text_dec v after ≡ true)
        × (es : List DirEntry) × (db.read_dir ≡ ok es)
        × ((name : Text)
            → In name (migration_names es)
            → has text_dec (version_of name) after ≡ true)

    migrate-AllRecorded :
        (s s' : db.State) → migrate db now s ≡ (s', ok tt) → AllRecorded (recorded s) (recorded s')
    unfolding migrate AllRecorded IsDone
    migrate-AllRecorded s s' h =
        let (s1, _, made, rest1) = then_run_inv (db.create_table s) _ _ s' tt h in
        let (s2, applied, read, rest2) = then_run_inv (db.applied_versions s1) _ _ s' tt rest1 in
        let (s3, es, listed, rest) = then_run_inv (s2, db.read_dir) _ _ s' tt rest2 in
        let at_s1 : recorded s1 ≡ recorded s = d.table_kept s s1 tt made in
        let at_s3 : recorded s3 ≡ recorded s =
          ap recorded (sym (ap (λ p. p.0) listed)) ∙ (d.versions_kept s1 s2 applied read ∙ at_s1) in
        let same : applied ≡ recorded s3 =
          d.versions_read s1 s2 applied read ∙ (at_s1 ∙ sym at_s3) in
        let (kept, all_names) =
          apply_pending-IsDone applied (migration_names es) s3 s'
            (λ v. subst (λ l. has text_dec v l ≡ true) same) rest in
        (
          λ v r. kept v (subst (λ l. has text_dec v l ≡ true) (sym at_s3) r),
          es,
          ap (λ p. p.1) listed,
          all_names,
        )

    locked-AllRecorded :
        (got : Bool) (s s' : db.State)
        → locked db now got s ≡ (s', ok tt)
        → AllRecorded (recorded s) (recorded s')
    unfolding locked
    locked-AllRecorded false s s' h = absurd (pair_err s s' lock_held h)
    locked-AllRecorded true s s' h =
        let ran = migrate db now s in
        subst (AllRecorded (recorded s)) (sym (d.release_kept ran.0) ∙ ap (λ p. recorded p.0) h)
          (migrate-AllRecorded s ran.0 (ap (λ p. (ran.0, p.1)) h))

    run-AllRecorded :
        (s s' : db.State) → run db now s ≡ (s', ok tt) → AllRecorded (recorded s) (recorded s')
    unfolding run
    run-AllRecorded s s' h =
        let (s1, _, connected, rest1) = then_run_inv (db.connect s) _ _ s' tt h in
        let (s2, got, asked, rest) = then_run_inv (db.get_lock s1) _ _ s' tt rest1 in
        subst (λ l. AllRecorded l (recorded s'))
          (d.lock_kept s1 s2 got asked ∙ d.connect_kept s s1 tt connected)
          (locked-AllRecorded got s2 s' rest)

    -- A run that succeeds has kept every version that was recorded and has recorded each SQL file of
    -- the directory, so that from the state it leaves no migration is applied again; it does so on
    -- a database whose calls keep what they document and files whose statements leave the versions
    -- alone.
    pub run-IsComplete :
        (s s' : db.State)
        → run db now s ≡ (s', ok tt)
        → ((v : Text) → IsRecorded v s → IsRecorded v s')
          × (es : List DirEntry) × (db.read_dir ≡ ok es)
          × ((e : DirEntry) → In e es → is_migration e ≡ true → IsRecorded (version_of e.name) s')
          × (apply_pending db now (recorded s') (migration_names es) s' ≡ (s', ok tt))
    unfolding AllRecorded migration_names
    run-IsComplete s s' h =
        let (kept, es, listed, all_names) = run-AllRecorded s s' h in
        (
          kept,
          es,
          listed,
          λ e m q. all_names e.name (In-sort_strings e.name (sql_names es) (In-sql_names e es m q)),
          none_pending (recorded s') (migration_names es) s' all_names,
        )
