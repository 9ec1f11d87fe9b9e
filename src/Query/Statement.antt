-- ===== src/Query/Statement.antt =====
-- internal/repository/mysql: a statement as the repository hands it to the database, and the union
-- of the host and the service table that most lists read.
use interface.Prelude.{
  ◌≡◌, ◌≤◌, refl, Bool, true, false, some, List, [], ◌∷◌, ◌++◌, length, length-append, All,
  All-append, All-In, if◌then◌else◌, arith, Bool-cases, inl, inr,
}
use interface.Prelude.Maps.{lookup}
use interface.Text.{Text, ascii, eq, text_dec}
use interface.Query.{Value, Conditions, clause, direction, order_by, Page, limit_clause, limit_args}
use interface.Query.Bound.{marks, marks-append, IsBound}
use interface.Query.Search.{Unmarked}
use interface.Query.Ordering.{names, tiebreaker, order_by-whitelisted}

pub record Statement : Type 0 where
  pub text : Text
  pub args : List Value

-- one table's side of a union
pub record Part : Type 0 where
  pub select : Text
  pub conditions : Conditions

abbrev pub part_text : Part → Text
part_text p = p.select ++ clause p.conditions

-- a side that is read only if the test holds
abbrev pub part_if : Bool → Part → List Part
part_if test p = if test then p ∷ [] else []

abbrev pub args_of : List Part → List Value
args_of [] = []
args_of (p ∷ ps) = p.conditions.args ++ args_of ps

-- the `switch len(parts)`: what stands for no side at all has no values
unfoldable pub union : Text → List Part → Statement
union empty [] = record { text = empty; args = [] }
union empty (p ∷ []) = record { text = part_text p; args = p.conditions.args }
union empty (p ∷ q ∷ ps) = record {
  text = part_text p ++ (ascii " UNION ALL " ++ part_text q);
  args = p.conditions.args ++ (q.conditions.args ++ args_of ps);
}

-- `SELECT COUNT(*)` of a list
unfoldable pub count_of : Text → Statement → Statement
count_of name body = record {
  text = ascii "SELECT COUNT(*) FROM (" ++ (body.text ++ (ascii ") AS " ++ name));
  args = body.args;
}

-- one page of a list
unfoldable pub page_of : Text → List (Text × Text) → Text → Page → Statement → Statement
page_of name columns fallback p body = record {
  text =
      ascii "SELECT * FROM ("
      ++ (body.text
          ++ (ascii ") AS "
              ++ (name ++ (order_by p.sort p.desc columns fallback ++ limit_clause))));
  args = body.args ++ limit_args p;
}

-- A statement with a placeholder for each of its values.
abbrev pub IsPlaced : Statement → Type 0
IsPlaced s = marks s.text ≡ length s.args

abbrev pub IsPlacedPart : Part → Type 0
IsPlacedPart p = (marks p.select ≡ 0) × IsBound p.conditions

part_text-marks : (p : Part) → IsPlacedPart p → marks (part_text p) ≡ length p.conditions.args
unfolding IsBound
part_text-marks p (h, b) = omega (arith, h, b, marks-append p.select (clause p.conditions))

pub union-IsPlaced :
    (empty : Text) (ps : List Part)
    → marks empty ≡ 0
    → length ps ≤ 2
    → All IsPlacedPart ps
    → IsPlaced (union empty ps)
unfolding union
union-IsPlaced empty [] h n a = h
union-IsPlaced empty (p ∷ []) h n (a, _) = part_text-marks p a
union-IsPlaced empty (p ∷ q ∷ []) h n (a, (b, _)) =
    let nothing : List Value = [] in
    omega (
      arith,
      part_text-marks p a,
      part_text-marks q b,
      marks-append (part_text p) (ascii " UNION ALL " ++ part_text q),
      marks-append (ascii " UNION ALL ") (part_text q),
      length-append p.conditions.args (q.conditions.args ++ []),
      length-append q.conditions.args nothing,
    )
union-IsPlaced empty (p ∷ q ∷ r ∷ ps) h n a = absurd (omega arith)

pub part_if-All : (test : Bool) (p : Part) → IsPlacedPart p → All IsPlacedPart (part_if test p)
part_if-All true p h = (h, tt)
part_if-All false p h = tt

pub length-part_if : (test : Bool) (p : Part) → length (part_if test p) ≤ 1
length-part_if true p = omega arith
length-part_if false p = omega arith

-- the union of two optional sides
pub sides-IsPlaced :
    (empty : Text) (a b : Bool) (p q : Part)
    → marks empty ≡ 0
    → IsPlacedPart p
    → IsPlacedPart q
    → IsPlaced (union empty (part_if a p ++ part_if b q))
sides-IsPlaced empty a b p q h i j =
    union-IsPlaced empty (part_if a p ++ part_if b q) h
      (omega
        (arith, length-append (part_if a p) (part_if b q), length-part_if a p, length-part_if b q))
      (All-append IsPlacedPart (part_if a p) (part_if b q) (part_if-All a p i) (part_if-All b q j))

pub count_of-IsPlaced :
    (name : Text) (s : Statement) → marks name ≡ 0 → IsPlaced s → IsPlaced (count_of name s)
unfolding count_of
count_of-IsPlaced name s h p = omega (arith, h, p, marks-append s.text (ascii ") AS " ++ name))

marks-direction : (desc : Bool) → marks (direction desc) ≡ 0
marks-direction true = refl
marks-direction false = refl

marks-tiebreaker : (expr tie : Text) → marks tie ≡ 0 → marks (tiebreaker expr tie) ≡ 0
marks-tiebreaker expr tie h = elim (Bool-cases (eq expr tie)) [
  | inl same ↦ rw same refl
  | inr other ↦ rw other (omega (arith, h, marks-append tie (ascii " ASC")))
]

-- A whitelist without placeholders, which has the fallback.
abbrev pub IsWhitelist : List (Text × Text) → Text → Text → Type 0
IsWhitelist columns fallback tie =
    (lookup text_dec fallback columns ≡ some tie) × Unmarked (names columns) × (marks tie ≡ 0)

pub marks-order_by :
    (name fallback tie : Text) (desc : Bool) (columns : List (Text × Text))
    → IsWhitelist columns fallback tie
    → marks (order_by name desc columns fallback) ≡ 0
marks-order_by name fallback tie desc columns (h, u, t) =
    let (expr, listed, same) = order_by-whitelisted name fallback tie desc columns h in
    let unmarked : marks expr ≡ 0 = All-In (λ c. marks c ≡ 0) expr (names columns) u listed in
    rw same (
      omega (
        arith,
        unmarked,
        marks-append expr (ascii " " ++ (direction desc ++ tiebreaker expr tie)),
        marks-append (direction desc) (tiebreaker expr tie),
        marks-direction desc,
        marks-tiebreaker expr tie t,
      ))

pub page_of-IsPlaced :
    (name : Text) (columns : List (Text × Text)) (fallback tie : Text) (p : Page) (s : Statement)
    → marks name ≡ 0
    → IsWhitelist columns fallback tie
    → IsPlaced s
    → IsPlaced (page_of name columns fallback p s)
unfolding page_of limit_clause limit_args
page_of-IsPlaced name columns fallback tie p s h w i =
    let ordering = order_by p.sort p.desc columns fallback in
    omega (
      arith,
      h,
      i,
      marks-order_by p.sort fallback tie p.desc columns w,
      marks-append s.text (ascii ") AS " ++ (name ++ (ordering ++ limit_clause))),
      marks-append (ascii ") AS ") (name ++ (ordering ++ limit_clause)),
      marks-append name (ordering ++ limit_clause),
      marks-append ordering limit_clause,
      length-append s.args (limit_args p),
    )
