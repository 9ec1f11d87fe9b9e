-- ===== src/Text/Decimal.antt =====
-- `strconv.FormatInt(i, 10)`
use interface.Prelude.{
  ℕ, zero, suc, ◌+◌, ◌-◌, ◌*◌, ◌/◌, ◌%◌, ◌<◌, ◌≡◌, refl, [], ◌∷◌, ◌++◌, arith, ltb, if◌then◌else◌,
  Bool-cases, inl, inr,
}
use interface.Prelude.Int.{ℤ, pos, negsuc}
use interface.Text.{Text, ascii}
use interface.Text.Fields.{Lacks, Lacks-append}

-- the digits of `n`, with fuel for at least one round more than there are digits
digits : ℕ → ℕ → Text
digits zero n = []
digits (suc f) n =
    let front = digits f (n / 10) in if ltb n 10 then (48 + n) ∷ [] else front ++ (48 + n % 10) ∷ []

unfoldable pub format_nat : ℕ → Text
unfolding digits
format_nat n = digits (suc n) n

unfoldable pub format_int : ℤ → Text
unfolding format_nat
format_int (pos n) = format_nat n
format_int (negsuc n) = 45 ∷ format_nat (suc n)

format_int_tests :
    (format_int (pos 1732567890) ≡ ascii "1732567890")
    × (format_int (negsuc 9) ≡ ascii "-10")
    × (format_int (pos 0) ≡ ascii "0")
unfolding format_int
format_int_tests = (refl, refl, refl)

digits-Lacks : (f n c : ℕ) → 57 < c → Lacks c (digits f n)
unfolding digits
digits-Lacks zero n c h = tt
digits-Lacks (suc f) n c h = elim (Bool-cases (ltb n 10)) [
  | inl e ↦ rw e (ground arith, tt)
  | inr e ↦
      rw e (Lacks-append c (digits f (n / 10)) _ (digits-Lacks f (n / 10) c h) (omega arith, tt))
]

-- No byte past '9' stands in a number.
pub format_int-Lacks : (i : ℤ) (c : ℕ) → 57 < c → Lacks c (format_int i)
unfolding format_int
format_int-Lacks (pos n) c h = digits-Lacks (suc n) n c h
format_int-Lacks (negsuc n) c h = (omega arith, digits-Lacks (suc (suc n)) (suc n) c h)

pub format_nat-Lacks : (n c : ℕ) → 57 < c → Lacks c (format_nat n)
unfolding format_nat
format_nat-Lacks n c h = digits-Lacks (suc n) n c h

-- The number that a text of digits stands for, read from the left.
unfoldable pub value_from : ℕ → Text → ℕ
value_from acc [] = acc
value_from acc (d ∷ ds) = value_from (acc * 10 + (d - 48)) ds

value_from-append :
    (acc d : ℕ) (ds : Text) → value_from acc (ds ++ d ∷ []) ≡ value_from acc ds * 10 + (d - 48)
unfolding value_from
value_from-append acc d [] = refl
value_from-append acc d (e ∷ ds) = value_from-append (acc * 10 + (e - 48)) d ds

value_from-digits : (f n : ℕ) → n < f → value_from 0 (digits f n) ≡ n
unfolding digits
value_from-digits zero n h = absurd (omega arith)
value_from-digits (suc f) n h = elim (Bool-cases (ltb n 10)) [
  | inl e ↦ rw e (unfold value_from in omega arith)
  | inr e ↦ rw (e, value_from-append, value_from-digits f (n / 10) (ground arith)) (omega arith)
]

-- A formatted number reads back as itself.
pub value_from-format_nat : (n : ℕ) → value_from 0 (format_nat n) ≡ n
unfolding format_nat
value_from-format_nat n = value_from-digits (suc n) n (omega arith)
