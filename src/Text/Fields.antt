-- ===== src/Text/Fields.antt =====
-- Joining fields by a separator, and splitting them again.
use interface.Prelude.{
  ℕ, ◌≡◌, ◌≢◌, refl, sym, ap, ◌∙◌, List, [], ◌∷◌, ◌++◌, arith, In, All, inl, inr,
}
use interface.Text.{Text, join, split}

-- The byte does not stand in the text.
abbrev pub Lacks : ℕ → Text → Type 0
Lacks c [] = Unit
Lacks c (b ∷ bs) = (b ≢ c) × Lacks c bs

pub Lacks-append : (c : ℕ) (xs ys : Text) → Lacks c xs → Lacks c ys → Lacks c (xs ++ ys)
Lacks-append c [] ys h k = k
Lacks-append c (x ∷ xs) ys (n, h) k = (n, Lacks-append c xs ys h k)

pub Lacks-of_not-In : (c : ℕ) (s : Text) → ¬ In c s → Lacks c s
Lacks-of_not-In c [] h = tt
Lacks-of_not-In c (b ∷ bs) h = (λ e. h (inl (sym e)), Lacks-of_not-In c bs (λ m. h (inr m)))

split-Lacks : (c : ℕ) (s : Text) → Lacks c s → split c s ≡ s ∷ []
unfolding split
split-Lacks c [] h = refl
split-Lacks c (b ∷ bs) (n, h) = rw (split-Lacks c bs h) (ground arith)

split-append : (c : ℕ) (s rest : Text) → Lacks c s → split c (s ++ (c ∷ rest)) ≡ s ∷ split c rest
unfolding split
split-append c [] rest h = ground arith
split-append c (b ∷ bs) rest (n, h) = rw (split-append c bs rest h) (ground arith)

-- Splitting what was joined gives back the fields, if none of them holds the separator.
pub split-join :
    (c : ℕ) (x : Text) (xs : List Text)
    → All (Lacks c) (x ∷ xs)
    → split c (join (c ∷ []) (x ∷ xs)) ≡ x ∷ xs
unfolding join
split-join c x [] (h, _) = split-Lacks c x h
split-join c x (y ∷ ys) (h, hs) =
    split-append c x (join (c ∷ []) (y ∷ ys)) h ∙ ap (◌∷◌ x) (split-join c y ys hs)
