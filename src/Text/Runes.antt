-- ===== src/Text/Runes.antt =====
-- `unicode/utf8`: how a loop `for _, r := range s` reads the bytes of a string.
use interface.Prelude.{
  ℕ, zero, suc, ◌+◌, ◌-◌, ◌*◌, ◌≤◌, ◌<◌, ◌≡◌, refl, inl, inr, Bool, ◌&&◌, ◌||◌, List, [], ◌∷◌,
  arith, ltb, leb, if◌then◌else◌, In, Bool-cases, lt→ltb,
}

pub rune_error : ℕ
rune_error = 65533

abbrev is_cont : ℕ → Bool
is_cont b = leb 128 b && leb b 191

abbrev failed : ℕ × ℕ
failed = (65533, 1)

-- a lead byte of two, from 194 to 223
unfoldable pub decode_two : ℕ → List ℕ → ℕ × ℕ
decode_two b0 (b1 ∷ _) = if is_cont b1 then ((b0 - 192) * 64 + (b1 - 128), 2) else failed
decode_two b0 _ = failed

-- from 224 to 239: no overlong form, no surrogate
unfoldable pub decode_three : ℕ → List ℕ → ℕ × ℕ
decode_three b0 (b1 ∷ b2 ∷ _) =
    if is_cont b1
      && is_cont b2
      && (leb 160 b1 || ltb 224 b0)
      && (leb b1 159 || (ltb b0 237 || ltb 237 b0))
    then ((b0 - 224) * 4096 + (b1 - 128) * 64 + (b2 - 128), 3)
    else failed
decode_three b0 _ = failed

-- from 240 to 244: no overlong form, nothing past U+10FFFF
unfoldable pub decode_four : ℕ → List ℕ → ℕ × ℕ
decode_four b0 (b1 ∷ b2 ∷ b3 ∷ _) =
    if is_cont b1
      && is_cont b2
      && is_cont b3
      && (leb 144 b1 || ltb 240 b0)
      && (leb b1 143 || ltb b0 244)
    then ((b0 - 240) * 262144 + (b1 - 128) * 4096 + (b2 - 128) * 64 + (b3 - 128), 4)
    else failed
decode_four b0 _ = failed

-- `utf8.DecodeRuneInString` of a string that begins with `b0`: the rune and its width.
unfoldable pub decode_rune : ℕ → List ℕ → ℕ × ℕ
decode_rune b0 rest =
    if ltb b0 128
    then (b0, 1)
    else if leb 194 b0 && leb b0 223
    then decode_two b0 rest
    else if leb 224 b0 && leb b0 239
    then decode_three b0 rest
    else if leb 240 b0 && leb b0 244
    then decode_four b0 rest
    else failed

-- The runes of a string of which `skip` bytes still belong to the rune before.
unfoldable pub runes_from : ℕ → List ℕ → List ℕ
runes_from skip [] = []
runes_from (suc skip) (b ∷ bs) = runes_from skip bs
runes_from zero (b ∷ bs) = (decode_rune b bs).0 ∷ runes_from ((decode_rune b bs).1 - 1) bs

unfoldable pub runes : List ℕ → List ℕ
unfolding runes_from decode_rune decode_two decode_three decode_four
runes s = runes_from 0 s

runes_tests :
    (runes (97 ∷ 195 ∷ 169 ∷ 226 ∷ 130 ∷ 172 ∷ 240 ∷ 159 ∷ 152 ∷ 128 ∷ 98 ∷ [])
      ≡ 97 ∷ 233 ∷ 8364 ∷ 128512 ∷ 98 ∷ [])
    × (runes (194 ∷ 133 ∷ 255 ∷ 237 ∷ 160 ∷ 128 ∷ []) ≡ 133 ∷ 65533 ∷ 65533 ∷ 65533 ∷ 65533 ∷ [])
unfolding runes
runes_tests = (refl, refl)

-- The first `n` bytes, as far as there are any, are no ASCII characters.
abbrev Covered : ℕ → List ℕ → Type 0
Covered zero bs = Unit
Covered (suc n) [] = ⊥
Covered (suc n) (b ∷ bs) = (128 ≤ b) × Covered n bs

decode_two-Covered : (b : ℕ) (bs : List ℕ) → Covered ((decode_two b bs).1 - 1) bs
unfolding decode_two
decode_two-Covered b [] = tt
decode_two-Covered b (c ∷ bs) = ground arith

decode_three-Covered : (b : ℕ) (bs : List ℕ) → Covered ((decode_three b bs).1 - 1) bs
unfolding decode_three
decode_three-Covered b [] = tt
decode_three-Covered b (c ∷ []) = tt
decode_three-Covered b (c ∷ d ∷ bs) = ground arith

decode_four-Covered : (b : ℕ) (bs : List ℕ) → Covered ((decode_four b bs).1 - 1) bs
unfolding decode_four
decode_four-Covered b [] = tt
decode_four-Covered b (c ∷ []) = tt
decode_four-Covered b (c ∷ d ∷ []) = tt
decode_four-Covered b (c ∷ d ∷ e ∷ bs) = ground arith

decode_rune-Covered : (b : ℕ) (bs : List ℕ) → Covered ((decode_rune b bs).1 - 1) bs
unfolding decode_rune
decode_rune-Covered b bs = elim (Bool-cases (ltb b 128)) [
  | inl e ↦ rw e tt
  | inr e ↦ elim (Bool-cases (leb 194 b && leb b 223)) [
    | inl f ↦ rw (e, f) (decode_two-Covered b bs)
    | inr f ↦ elim (Bool-cases (leb 224 b && leb b 239)) [
      | inl g ↦ rw (e, f, g) (decode_three-Covered b bs)
      | inr g ↦ elim (Bool-cases (leb 240 b && leb b 244)) [
        | inl h ↦ rw (e, f, g, h) (decode_four-Covered b bs)
        | inr h ↦ rw (e, f, g, h) tt
      ]
    ]
  ]
]

-- An ASCII byte is its own rune.
pub decode_rune_ascii : (b : ℕ) (bs : List ℕ) → b < 128 → decode_rune b bs ≡ (b, 1)
unfolding decode_rune
decode_rune_ascii b bs h = rw (lt→ltb b 128 h)

runes_from-In :
    (c skip : ℕ) (bs : List ℕ) → c < 128 → Covered skip bs → In c bs → In c (runes_from skip bs)
unfolding runes_from
runes_from-In c skip [] small cov m = absurd m
runes_from-In c (suc skip) (b ∷ bs) small (high, cov) (inl e) = absurd (omega arith)
runes_from-In c (suc skip) (b ∷ bs) small (high, cov) (inr m) = runes_from-In c skip bs small cov m
runes_from-In c zero (b ∷ bs) small cov (inl e) = inl (rw (decode_rune_ascii b bs (omega arith)) e)
runes_from-In c zero (b ∷ bs) small cov (inr m) =
    inr (runes_from-In c _ bs small (decode_rune-Covered b bs) m)

-- Every ASCII byte of a string is one of its runes.
pub runes-In : (c : ℕ) (s : List ℕ) → c < 128 → In c s → In c (runes s)
unfolding runes
runes-In c s small m = runes_from-In c 0 s small tt m
