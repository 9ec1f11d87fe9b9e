-- ===== src/Http/Paging/Sorted.antt =====
-- Sorting the names of a whitelist loses none and adds none.
use interface.Prelude.{
  ◌≡◌, refl, ◌∙◌, Bool, true, false, ◌||◌, some, List, [], ◌∷◌, arith, Bool-cases, inl, inr,
}
use interface.Prelude.Maps.{lookup}
use interface.Text.{Text, eq, text_dec}
use interface.Http.Paging.{keys, sink, sink_all, turn, sortable_names, allowed}

allowed-sink :
    (name x : Text) (l : List Text) → allowed name (sink x l) ≡ (eq x name || allowed name l)
unfolding allowed sink
allowed-sink name x [] = refl
allowed-sink name x (y ∷ ys) = ground (arith, allowed-sink name x ys)

allowed-sink_all :
    (name : Text) (xs l : List Text)
    → allowed name (sink_all xs l) ≡ (allowed name xs || allowed name l)
unfolding allowed sink_all
allowed-sink_all name [] l = refl
allowed-sink_all name (x ∷ xs) l =
    ground (arith, allowed-sink_all name xs (sink x l), allowed-sink name x l)

allowed-turn :
    (name : Text) (xs l : List Text)
    → allowed name (turn xs l) ≡ (allowed name xs || allowed name l)
unfolding allowed
allowed-turn name [] l = refl
allowed-turn name (x ∷ xs) l = ground (arith, allowed-turn name xs (x ∷ l))

or_false : (b : Bool) → (b || false) ≡ b
or_false b = ground arith

-- A name is accepted exactly when it is a key of the whitelist.
pub allowed-sortable_names :
    (name : Text) (columns : List (Text × Text))
    → allowed name (sortable_names columns) ≡ allowed name (keys columns)
unfolding sortable_names allowed
allowed-sortable_names name columns =
    let sorted = sink_all (keys columns) [] in
    allowed-turn name sorted []
    ∙ or_false (allowed name sorted)
    ∙ allowed-sink_all name (keys columns) []
    ∙ or_false (allowed name (keys columns))

pub lookup-allowed :
    (name : Text) (columns : List (Text × Text))
    → allowed name (keys columns) ≡ true
    → (expr : Text) × (lookup text_dec name columns ≡ some expr)
unfolding allowed lookup
lookup-allowed name [] h = absurd (ground arith)
lookup-allowed name ((key, expr) ∷ columns) h = elim (Bool-cases (eq key name)) [
  | inl here ↦ (expr, ground arith)
  | inr there ↦
      let (found, listed) = lookup-allowed name columns (ground arith) in (found, ground arith)
]
