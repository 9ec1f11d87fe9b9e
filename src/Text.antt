-- ===== src/Text.antt =====
-- Go strings, as the list of their bytes; and what the repository uses of the packages `strings`,
-- `unicode`, `unicode/utf8` and `strconv`.
pub mod Runes
pub mod Trim
pub mod Affixes
pub mod Fields
pub mod Decimal
use Prim.Native.Char.{code}
use Prim.Native.String
use Prim.Native.String.{String}
use interface.Prelude.{
  ℕ, zero, suc, ◌≡◌, refl, Bool, true, false, List, [], ◌∷◌, ◌++◌, holds, ◌==◌, if◌then◌else◌,
  ℕ_discrete,
}

abbrev pub Text : Type 0
Text = List ℕ

-- An ASCII literal.
abbrev pub ascii : String → Text
ascii String.[] = []
ascii (String.◌∷◌ c s) = code c ∷ ascii s

abbrev pub is_empty : Text → Bool
is_empty [] = true
is_empty (_ ∷ _) = false

unfoldable pub text_dec : Discrete Text
text_dec = hlevel ℕ_discrete

-- `a == b` on strings.
abbrev pub eq : Text → Text → Bool
eq a b = holds (text_dec a b)

-- `strings.Join`
unfoldable pub join : Text → List Text → Text
join sep [] = []
join sep (x ∷ []) = x
join sep (x ∷ y ∷ ys) = x ++ (sep ++ join sep (y ∷ ys))

-- the pieces of a text between separators of one byte; the first piece is under way in `acc`
abbrev cons_first : ℕ → List Text → List Text
cons_first b [] = (b ∷ []) ∷ []
cons_first b (x ∷ xs) = (b ∷ x) ∷ xs

-- `strings.Split(s, sep)` for a separator of one byte
unfoldable pub split : ℕ → Text → List Text
split sep [] = [] ∷ []
split sep (b ∷ bs) = let rest = split sep bs in if b == sep then [] ∷ rest else cons_first b rest
