-- ===== src/Query/Like.antt =====
-- The pattern that a search becomes finds exactly what was typed.
use interface.Prelude.{
  ℕ, ◌≡◌, ◌↔◌, refl, ◌∙◌, ap, Bool, true, false, List, [], ◌∷◌, ◌++◌, map, ◌==◌, if◌then◌else◌,
  arith,
}
use interface.Text.{Text}
use interface.Query.{escape, like_escape}

-- How SQL reads a LIKE pattern, with `\` as its escape character.
data Token : Type 0 where
  any_run any_one : Token
  literal : ℕ → Token

-- The flag says that the byte before was an escape.
abbrev tokens : Bool → Text → List Token
tokens true [] = literal b'\\' ∷ []
tokens true (b ∷ bs) = literal b ∷ tokens false bs
tokens false [] = []
tokens false (b ∷ bs) =
    let escaped = tokens true bs in
    let rest = tokens false bs in
    if b == b'\\'
    then escaped
    else if b == b'%'
    then any_run ∷ rest
    else if b == b'_'
    then any_one ∷ rest
    else literal b ∷ rest

Fits : List Token → Text → Type 0
Fits [] s = s ≡ []
Fits (any_run ∷ ts) s = (pre : Text) × (rest : Text) × (s ≡ pre ++ rest) × Fits ts rest
Fits (any_one ∷ ts) s = (b : ℕ) × (rest : Text) × (s ≡ b ∷ rest) × Fits ts rest
Fits (literal b ∷ ts) s = (rest : Text) × (s ≡ b ∷ rest) × Fits ts rest

-- `s LIKE p`
pub IsLike : Text → Text → Type 0
unfolding Fits
IsLike s p = Fits (tokens false p) s

tokens-escape : (t p : Text) → tokens false (escape t ++ p) ≡ map literal t ++ tokens false p
unfolding escape
tokens-escape [] p = refl
tokens-escape (b ∷ t) p = ground (arith, tokens-escape t p)

Fits-literals :
    (t s : Text) (ts : List Token)
    → Fits (map literal t ++ ts) s ↔ ((rest : Text) × (s ≡ t ++ rest) × Fits ts rest)
unfolding Fits
Fits-literals [] s ts = (λ f. (s, refl, f), λ (rest, e, f). rw e f)
Fits-literals (b ∷ t) s ts = (
  λ (s', e, f). let (rest, e', f') = (Fits-literals t s' ts).0 f in (rest, e ∙ ap (◌∷◌ b) e', f'),
  λ (rest, e, f). (t ++ rest, e, (Fits-literals t (t ++ rest) ts).1 (rest, refl, f)),
)

append-nil : (s : Text) → s ≡ s ++ []
append-nil [] = refl
append-nil (b ∷ s) = ap (◌∷◌ b) (append-nil s)

Fits-run : (s : Text) → Fits (any_run ∷ []) s
unfolding Fits
Fits-run s = (s, [], append-nil s, refl)

tokens-like_escape :
    (t : Text) → tokens false (like_escape t) ≡ any_run ∷ (map literal t ++ any_run ∷ [])
unfolding like_escape
tokens-like_escape t = ap (◌∷◌ any_run) (tokens-escape t (b'%' ∷ []))

-- A text matches the pattern made of a search exactly when it contains the search, whatever
-- characters the search has.
pub like_escape-IsLike_iff :
    (t s : Text)
    → IsLike s (like_escape t) ↔ ((pre : Text) × (post : Text) × (s ≡ pre ++ (t ++ post)))
unfolding IsLike
like_escape-IsLike_iff t s = rw (tokens-like_escape t) (
  λ (pre, rest, e, f).
      let (post, e', _) = (Fits-literals t rest (any_run ∷ [])).0 f in
      (pre, post, e ∙ ap (◌++◌ pre) e'),
  λ (pre, post, e). (
    pre,
    t ++ post,
    e,
    (Fits-literals t (t ++ post) (any_run ∷ [])).1 (post, refl, Fits-run post),
  ),
)
