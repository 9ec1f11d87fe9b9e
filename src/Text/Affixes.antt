-- ===== src/Text/Affixes.antt =====
-- `strings.HasPrefix`, `strings.HasSuffix` and `strings.TrimSuffix`.
use interface.Prelude.{ℕ, zero, suc, ◌-◌, Bool, ◌&&◌, [], ◌∷◌, length, leb, if◌then◌else◌}
use interface.Text.{Text, eq}

unfoldable pub skip_bytes : ℕ → Text → Text
skip_bytes n [] = []
skip_bytes zero (b ∷ bs) = b ∷ bs
skip_bytes (suc n) (b ∷ bs) = skip_bytes n bs

unfoldable pub first_bytes : ℕ → Text → Text
first_bytes n [] = []
first_bytes zero (b ∷ bs) = []
first_bytes (suc n) (b ∷ bs) = b ∷ first_bytes n bs

-- `strings.HasPrefix(s, prefix)`
unfoldable pub has_prefix : Text → Text → Bool
has_prefix s prefix = leb (length prefix) (length s) && eq (first_bytes (length prefix) s) prefix

-- `strings.HasSuffix(s, suffix)`
unfoldable pub has_suffix : Text → Text → Bool
has_suffix s suffix =
    leb (length suffix) (length s) && eq (skip_bytes (length s - length suffix) s) suffix

-- `strings.TrimSuffix(s, suffix)`
unfoldable pub trim_suffix : Text → Text → Text
trim_suffix s suffix = if has_suffix s suffix then first_bytes (length s - length suffix) s else s
