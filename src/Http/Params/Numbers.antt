-- ===== src/Http/Params/Numbers.antt =====
-- What a list of numbers in a request is read as.
use mathlib.Core.List.{append_assoc, append-nil}
use mathlib.Core.Path.{fun_ext}
use interface.Prelude.{
  ◌≡◌, refl, sym, ap, ◌∙◌, Option, none, some, List, [], ◌∷◌, ◌++◌, arith, Bool-cases, inl, inr,
  if◌then◌else◌,
}
use interface.Prelude.Int.{ℤ}
use interface.Prelude.Result.{Result, ok, err, ◌>>=◌}
use interface.Text.{Text, is_empty, split}
use interface.Text.Trim.{trim_space}
use interface.Http.{ApiError}
use interface.Http.Params.{
  Readers, Values, bad_filter, outside, read_number, read_part, read_parts, read_groups,
  parse_int_list,
}

-- the pieces of one value that are more than white space, trimmed
abbrev pub pieces : List Text → List Text
pieces [] = []
pieces (p ∷ ps) =
    let rest = pieces ps in if is_empty (trim_space p) then rest else trim_space p ∷ rest

-- the pieces of all the values
abbrev pub all_pieces : List Text → List Text
all_pieces [] = []
all_pieces (g ∷ gs) = pieces (split b',' g) ++ all_pieces gs

abbrev pub cons_read : Option ℤ → Option (List ℤ) → Option (List ℤ)
cons_read none ns = none
cons_read (some n) none = none
cons_read (some n) (some ns) = some (n ∷ ns)

module _ (s : Readers) (name : Text) (low high : ℤ) where
  -- a number between the bounds
  abbrev pub bounded : Text → Option ℤ
  bounded p = elim (s.atoi p) [ none ↦ none | some n ↦ if outside low high n then none else some n ]

  -- the numbers that the pieces stand for, if each of them stands for one between the bounds
  abbrev pub numbers : List Text → Option (List ℤ)
  numbers [] = some []
  numbers (p ∷ ps) = cons_read (bounded p) (numbers ps)

  abbrev pub answer : List ℤ → Option (List ℤ) → Result ApiError (List ℤ)
  answer out none = err (bad_filter name)
  answer out (some ns) = ok (out ++ ns)

  abbrev put : List ℤ → Option ℤ → Result ApiError (List ℤ)
  put out none = err (bad_filter name)
  put out (some n) = ok (out ++ n ∷ [])

  answer-cons :
      (out : List ℤ) (n : ℤ) (o : Option (List ℤ))
      → answer (out ++ n ∷ []) o ≡ answer out (cons_read (some n) o)
  answer-cons out n none = refl
  answer-cons out n (some ns) = ap ok (append_assoc out (n ∷ []) ns)

  put-answer :
      (out : List ℤ) (o : Option ℤ) (ns : Option (List ℤ))
      → (put out o >>= λ more. answer more ns) ≡ answer out (cons_read o ns)
  put-answer out none ns = refl
  put-answer out (some n) ns = answer-cons out n ns

  read_number_lem :
      (p : Text) (out : List ℤ) → read_number s name low high p out ≡ put out (bounded p)
  unfolding read_number
  read_number_lem p out = ground arith

  read_parts_lem :
      (ps : List Text) (out : List ℤ)
      → read_parts s name low high ps out ≡ answer out (numbers (pieces ps))
  unfolding read_parts read_part
  read_parts_lem [] out = ap ok (sym (append-nil out))
  read_parts_lem (p ∷ ps) out = elim (Bool-cases (is_empty (trim_space p))) [
    | inl blank ↦ rw blank (read_parts_lem ps out)
    | inr piece ↦
        let rest = fun_ext (read_parts_lem ps) in
        rw (piece, read_number_lem (trim_space p) out)
          (ap (λ k. put out (bounded (trim_space p)) >>= k) rest
            ∙ put-answer out (bounded (trim_space p)) (numbers (pieces ps)))
  ]

  answer-after :
      (o : Option ℤ) (ms ns : Option (List ℤ)) (k : List ℤ → Result ApiError (List ℤ))
      (out : List ℤ)
      → ((more : List ℤ) → (answer more ms >>= k) ≡ answer more ns)
      → (answer out (cons_read o ms) >>= k) ≡ answer out (cons_read o ns)
  answer-after none ms ns k out h = refl
  answer-after (some n) ms ns k out h =
      ap (λ r. r >>= k) (sym (answer-cons out n ms)) ∙ h (out ++ n ∷ []) ∙ answer-cons out n ns

  answer-append :
      (ps qs : List Text) (out : List ℤ)
      → (answer out (numbers ps) >>= λ more. answer more (numbers qs))
        ≡ answer out (numbers (ps ++ qs))
  answer-append [] qs out = ap (λ more. answer more (numbers qs)) (append-nil out)
  answer-append (p ∷ ps) qs out =
      answer-after (bounded p) (numbers ps) (numbers (ps ++ qs)) (λ more. answer more (numbers qs))
        out (answer-append ps qs)

  read_groups_lem :
      (gs : List Text) (out : List ℤ)
      → read_groups s name low high gs out ≡ answer out (numbers (all_pieces gs))
  unfolding read_groups
  read_groups_lem [] out = ap ok (sym (append-nil out))
  read_groups_lem (g ∷ gs) out =
      let parts = pieces (split b',' g) in
      rw (read_parts_lem (split b',' g) out) (
        ap (λ k. answer out (numbers parts) >>= k) (fun_ext (read_groups_lem gs))
        ∙ answer-append parts (all_pieces gs) out)

-- A list of numbers is read as all the numbers that stand in its values, in their order, and it is
-- refused if one of them cannot be read or is outside the bounds.
pub parse_int_list-numbers :
    (s : Readers) (q : Values) (name : Text) (low high : ℤ)
    → parse_int_list s q name low high
      ≡ answer s name low high [] (numbers s name low high (all_pieces (q name)))
unfolding parse_int_list
parse_int_list-numbers s q name low high = read_groups_lem s name low high (q name) []
