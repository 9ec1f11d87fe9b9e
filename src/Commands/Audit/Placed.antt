-- ===== src/Commands/Audit/Placed.antt =====
-- What the audit hands the database.
use interface.Prelude.{
  ℕ, zero, suc, ◌*◌, ◌≤◌, ◌≡◌, refl, Bool, true, false, some, List, [], ◌∷◌, ◌++◌, length,
  length-append, All, arith, Bool-cases, inl, inr,
}
use interface.Prelude.Int.{ℤ}
use interface.Text.{Text, ascii, join}
use interface.Query.{int_value}
use interface.Query.Bound.{marks, marks-append}
use interface.Query.Statement.{Statement, IsPlaced}
use interface.Commands.Bulk.{max_bulk_commands}
use interface.Commands.Audit.{
  Entry, take, truncate, cells, row_text, insert_text, row_texts, all_cells, Insert, record_batch,
  AuditFilter, no_statement, Extension, extend, extend_all, audit_extensions, audit_where,
  audit_count, audit_select, audit_order, audit_page,
}

length-take : (n : ℕ) (s : Text) → length (take n s) ≤ n
unfolding take
length-take zero s = omega arith
length-take (suc n) [] = omega arith
length-take (suc n) (b ∷ bs) = omega (arith, length-take n bs)

pub length-truncate : (s : Text) (n : ℕ) → length (truncate s n) ≤ n
unfolding truncate
length-truncate s n = ground (arith, length-take n s)

marks-rows :
    (e : Entry) (es : List Entry)
    → marks (join (ascii ", ") (row_texts (e ∷ es))) ≡ 9 * suc (length es)
unfolding join
marks-rows e [] = refl
marks-rows e (f ∷ es) = omega (
  arith,
  marks-append row_text (ascii ", " ++ join (ascii ", ") (row_texts (f ∷ es))),
  marks-append (ascii ", ") (join (ascii ", ") (row_texts (f ∷ es))),
  marks-rows f es,
)

length-all_cells : (now : ℤ) (es : List Entry) → length (all_cells now es) ≡ 9 * length es
unfolding all_cells cells
length-all_cells now [] = refl
length-all_cells now (e ∷ es) =
    omega (arith, length-append (cells now e) (all_cells now es), length-all_cells now es)

-- One statement records a whole submission: it binds nine values for each entry, one to each
-- placeholder, and for as many entries as a submission may have they are fewer than the 65535 that
-- the database takes.
pub record_batch-placed :
    (now : ℤ) (entries : List Entry) (i : Insert)
    → record_batch now entries ≡ some i
    → (marks i.text ≡ length i.args)
      × (length i.args ≡ 9 * length entries)
      × (length entries ≤ max_bulk_commands → length i.args ≤ 65535)
unfolding record_batch
record_batch-placed now [] i h = absurd (cc)
record_batch-placed now (e ∷ es) i h =
    let rows = join (ascii ", ") (row_texts (e ∷ es)) in
    let built : i ≡ record { text = insert_text ++ rows; args = all_cells now (e ∷ es) } =
      ground arith in
    let counted = length-all_cells now (e ∷ es) in
    rw built (
      omega (arith, counted, marks-append insert_text rows, marks-rows e es),
      counted,
      λ few. omega (arith, counted, few),
    )

extend-IsPlaced :
    (x : Extension) (s : Statement)
    → marks x.expr ≡ length x.values
    → IsPlaced s
    → IsPlaced (extend x s)
extend-IsPlaced x s h p = elim (Bool-cases x.test) [
  | inl on ↦ rw on (omega (arith, h, p, marks-append s.text x.expr, length-append s.args x.values))
  | inr off ↦ rw off p
]

extend_all-IsPlaced :
    (xs : List Extension) (s : Statement)
    → All (λ (x : Extension). marks x.expr ≡ length x.values) xs
    → IsPlaced s
    → IsPlaced (extend_all xs s)
extend_all-IsPlaced [] s h p = p
extend_all-IsPlaced (x ∷ xs) s (e, h) p =
    extend_all-IsPlaced xs (extend x s) h (extend-IsPlaced x s e p)

audit_where-IsPlaced : (f : AuditFilter) → IsPlaced (audit_where f)
unfolding audit_where
audit_where-IsPlaced f =
    extend_all-IsPlaced (audit_extensions f) no_statement
      (refl, (refl, (refl, (refl, (refl, (refl, tt)))))) refl

marks-audit_order : (desc : Bool) → marks (audit_order desc) ≡ 2
marks-audit_order true = refl
marks-audit_order false = refl

-- Whatever a request asks for, the count and the page of the audit hand the database as many values
-- as their text has placeholders.
pub audit-IsPlaced :
    (f : AuditFilter) (limit offset : ℤ) (desc : Bool)
    → IsPlaced (audit_count f) × IsPlaced (audit_page f limit offset desc)
unfolding audit_count audit_page
audit-IsPlaced f limit offset desc =
    let s = audit_where f in
    let placed : marks s.text ≡ length s.args = audit_where-IsPlaced f in
    (
      omega (arith, placed),
      omega (
        arith,
        placed,
        marks-audit_order desc,
        marks-append audit_select (s.text ++ audit_order desc),
        marks-append s.text (audit_order desc),
        length-append s.args (int_value limit ∷ int_value offset ∷ []),
      ),
    )
