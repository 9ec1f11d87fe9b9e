-- ===== src/Query/Bound.antt =====
-- Each value that is bound has its placeholder.
use interface.Prelude.{
  ℕ, zero, suc, ◌+◌, ◌≡◌, refl, Bool, true, false, Option, none, some, List, [], ◌∷◌, ◌++◌, length,
  length-append, ◌==◌, if◌then◌else◌, arith,
}
use interface.Prelude.Int.{ℤ}
use interface.Text.{Text, ascii, join}
use interface.Query.{
  Value, Conditions, add, add_bool, add_in, placeholders, ints_to_any, clause, where_text,
}

-- the placeholders of a text
abbrev pub marks : Text → ℕ
marks [] = 0
marks (b ∷ bs) = let rest = marks bs in if b == b'?' then suc rest else rest

pub marks-append : (a b : Text) → marks (a ++ b) ≡ marks a + marks b
marks-append [] b = omega arith
marks-append (x ∷ a) b = ground (arith, marks-append a b)

abbrev all_marks : List Text → ℕ
all_marks [] = 0
all_marks (e ∷ es) = marks e + all_marks es

all_marks-append : (a b : List Text) → all_marks (a ++ b) ≡ all_marks a + all_marks b
all_marks-append [] b = omega arith
all_marks-append (x ∷ a) b = omega (arith, all_marks-append a b)

marks-join : (es : List Text) → marks (join (ascii " AND ") es) ≡ all_marks es
unfolding join
marks-join [] = refl
marks-join (e ∷ []) = omega arith
marks-join (e ∷ f ∷ es) = omega (
  arith,
  marks-append e (ascii " AND " ++ join (ascii " AND ") (f ∷ es)),
  marks-append (ascii " AND ") (join (ascii " AND ") (f ∷ es)),
  marks-join (f ∷ es),
)

-- Conditions whose clause has a placeholder for each bound value.
unfoldable pub IsBound : Conditions → Type 0
IsBound c = marks (clause c) ≡ length c.args

marks-where_text : (es : List Text) → marks (where_text es) ≡ all_marks es
marks-where_text [] = refl
marks-where_text (e ∷ es) =
    omega
      (arith, marks-append (ascii " WHERE ") (join (ascii " AND ") (e ∷ es)), marks-join (e ∷ es))

marks-clause : (c : Conditions) → marks (clause c) ≡ all_marks c.exprs
unfolding clause
marks-clause c = marks-where_text c.exprs

-- An expression with a placeholder for each of its values may be added.
pub add-IsBound :
    (expr : Text) (values : List Value) (c : Conditions)
    → marks expr ≡ length values
    → IsBound c
    → IsBound (add expr values c)
unfolding IsBound add
add-IsBound expr values c h b = omega (
  arith,
  marks-clause c,
  marks-clause (add expr values c),
  all_marks-append c.exprs (expr ∷ []),
  length-append c.args values,
)

marks-placeholders : (n : ℕ) → marks (placeholders n) ≡ n
unfolding placeholders
marks-placeholders zero = refl
marks-placeholders (suc zero) = refl
marks-placeholders (suc (suc n)) =
    omega (arith, marks-append (ascii "?,") (placeholders (suc n)), marks-placeholders (suc n))

length-ints_to_any : (vs : List ℤ) → length (ints_to_any vs) ≡ length vs
length-ints_to_any [] = refl
length-ints_to_any (v ∷ vs) = omega (arith, length-ints_to_any vs)

pub add_bool-IsBound :
    (column : Text) (want : Option Bool) (c : Conditions)
    → marks column ≡ 0
    → IsBound c
    → IsBound (add_bool column want c)
unfolding add_bool
add_bool-IsBound column none c h b = b
add_bool-IsBound column (some true) c h b =
    add-IsBound (column ++ ascii " = 1") [] c (omega (arith, h, marks-append column (ascii " = 1")))
      b
add_bool-IsBound column (some false) c h b =
    add-IsBound (column ++ ascii " = 0") [] c (omega (arith, h, marks-append column (ascii " = 0")))
      b

pub add_in-IsBound :
    (column : Text) (vs : List ℤ) (c : Conditions)
    → marks column ≡ 0
    → IsBound c
    → IsBound (add_in column vs c)
unfolding add_in
add_in-IsBound column [] c h b = b
add_in-IsBound column (v ∷ vs) c h b =
    let marked = placeholders (length (v ∷ vs)) in
    add-IsBound (column ++ (ascii " IN (" ++ (marked ++ ascii ")"))) (ints_to_any (v ∷ vs)) c
      (omega (
        arith,
        h,
        marks-append column (ascii " IN (" ++ (marked ++ ascii ")")),
        marks-append (ascii " IN (") (marked ++ ascii ")"),
        marks-append marked (ascii ")"),
        marks-placeholders (length (v ∷ vs)),
        length-ints_to_any (v ∷ vs),
      ))
      b

-- A tri-state filter and then a list filter, on columns whose names have no placeholder, keep the
-- text and the bound values in step, whether or not the caller asked for them.
pub filters-IsBound :
    (flag column : Text) (want : Option Bool) (vs : List ℤ) (c : Conditions)
    → marks flag ≡ 0
    → marks column ≡ 0
    → IsBound c
    → IsBound (add_in column vs (add_bool flag want c))
filters-IsBound flag column want vs c h k b =
    add_in-IsBound column vs (add_bool flag want c) k (add_bool-IsBound flag want c h b)
