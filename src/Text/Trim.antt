-- ===== src/Text/Trim.antt =====
-- `strings.TrimSpace`: spaces are cut rune by rune, at both ends.
use interface.Prelude.{
  ℕ, zero, suc, ◌-◌, Bool, ◌&&◌, ◌||◌, List, [], ◌∷◌, leb, ◌==◌, if◌then◌else◌, all,
}
use interface.Text.Runes.{decode_rune, runes_from}

-- `unicode.IsSpace`
unfoldable pub is_space : ℕ → Bool
is_space r =
    (leb 9 r && leb r 13)
    || r == 32
    || r == 133
    || r == 160
    || r == 5760
    || (leb 8192 r && leb r 8202)
    || r == 8232
    || r == 8233
    || r == 8239
    || r == 8287
    || r == 12288

-- `unicode.IsControl`
unfoldable pub is_control : ℕ → Bool
is_control r = leb r 31 || (leb 127 r && leb r 159)

-- `strings.TrimLeftFunc(s, unicode.IsSpace)`, where `skip` bytes of a space are still to be cut
unfoldable pub trim_left : ℕ → List ℕ → List ℕ
trim_left skip [] = []
trim_left (suc skip) (b ∷ bs) = trim_left skip bs
trim_left zero (b ∷ bs) =
    let rest = trim_left ((decode_rune b bs).1 - 1) bs in
    if is_space (decode_rune b bs).0 then rest else b ∷ bs

-- `strings.TrimRightFunc(s, unicode.IsSpace)`: the string up to the first rune from which on all
-- runes are spaces
unfoldable pub trim_right : ℕ → List ℕ → List ℕ
trim_right skip [] = []
trim_right (suc skip) (b ∷ bs) = b ∷ trim_right skip bs
trim_right zero (b ∷ bs) =
    let rest = b ∷ trim_right ((decode_rune b bs).1 - 1) bs in
    if all is_space (runes_from 0 (b ∷ bs)) then [] else rest

unfoldable pub trim_space : List ℕ → List ℕ
unfolding trim_left trim_right is_space runes_from decode_rune
trim_space s = trim_right 0 (trim_left 0 s)
