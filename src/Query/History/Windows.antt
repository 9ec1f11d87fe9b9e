-- ===== src/Query/History/Windows.antt =====
-- No history list is read without a bound on its time.
use interface.Prelude.{◌≡◌, refl, Bool, true, false, List, [], ◌∷◌, ◌++◌, All, All-append}
use interface.Text.{Text, ascii}
use interface.Prelude.Int.{ℤ}
use interface.Query.{Value, int_value, Conditions, no_conditions, add, add_in}
use interface.Query.Search.{add_search, add_text, add_if}
use interface.Query.Statement.{Part, part_if}
use interface.Query.History
use interface.Query.History.{
  HistoryFilter, apply_time, apply_hard_only, apply_object, apply_common, object_conditions,
  Listing, checks, state_changes, notifications, history_sides, transitions,
}

-- Conditions that begin with both ends of the filter's window, bound to its values.
pub record IsWindowed (f : HistoryFilter) (time : Text) (c : Conditions) : Type 0 where
  pub more : List Text
  pub values : List Value
  pub ends : c.exprs ≡ (time ++ ascii " >= ?") ∷ (time ++ ascii " <= ?") ∷ more
  pub bound : c.args ≡ int_value f.from ∷ int_value f.to ∷ values

module _ (f : HistoryFilter) (time : Text) where
  apply_time-IsWindowed : IsWindowed f time (apply_time f time no_conditions)
  unfolding apply_time add
  apply_time-IsWindowed = record { more = []; values = []; ends = refl; bound = refl }

  add-IsWindowed :
      (expr : Text) (vs : List Value) (c : Conditions)
      → IsWindowed f time c
      → IsWindowed f time (add expr vs c)
  unfolding add
  add-IsWindowed expr vs c w = record {
    more = w.more ++ expr ∷ [];
    values = w.values ++ vs;
    ends = rw w.ends;
    bound = rw w.bound;
  }

  add_in-IsWindowed :
      (column : Text) (vs : List ℤ) (c : Conditions)
      → IsWindowed f time c
      → IsWindowed f time (add_in column vs c)
  unfolding add_in
  add_in-IsWindowed column [] c w = w
  add_in-IsWindowed column (v ∷ vs) c w = add-IsWindowed _ _ c w

  add_text-IsWindowed :
      (expr value : Text) (c : Conditions)
      → IsWindowed f time c
      → IsWindowed f time (add_text expr value c)
  unfolding add_text
  add_text-IsWindowed expr [] c w = w
  add_text-IsWindowed expr (b ∷ bs) c w = add-IsWindowed _ _ c w

  add_search-IsWindowed :
      (search : Text) (columns : List Text) (c : Conditions)
      → IsWindowed f time c
      → IsWindowed f time (add_search search columns c)
  unfolding add_search
  add_search-IsWindowed [] columns c w = w
  add_search-IsWindowed (b ∷ bs) columns c w = add-IsWindowed _ _ c w

  add_if-IsWindowed :
      (test : Bool) (expr : Text) (c : Conditions)
      → IsWindowed f time c
      → IsWindowed f time (add_if test expr c)
  unfolding add_if
  add_if-IsWindowed true expr c w = add-IsWindowed expr [] c w
  add_if-IsWindowed false expr c w = w

  apply_object-IsWindowed :
      (is_service : Bool) (c : Conditions)
      → IsWindowed f time c
      → IsWindowed f time (apply_object f is_service c)
  unfolding apply_object
  apply_object-IsWindowed false c w = add_text-IsWindowed _ _ c w
  apply_object-IsWindowed true c w =
      add_text-IsWindowed _ _ (add_text (ascii "hostname = ?") f.host c)
        (add_text-IsWindowed _ _ c w)

  object_conditions-IsWindowed :
      (is_service : Bool) (columns : List Text)
      → IsWindowed f time (object_conditions f time is_service columns)
  unfolding apply_common
  object_conditions-IsWindowed is_service columns =
      let timed = apply_time f time no_conditions in
      let named = apply_object f is_service timed in
      add_search-IsWindowed f.search columns (add_in (ascii "state") f.states named) (
        add_in-IsWindowed (ascii "state") f.states named
          (apply_object-IsWindowed is_service timed apply_time-IsWindowed))

  hard-IsWindowed : (c : Conditions) → IsWindowed f time c → IsWindowed f time (apply_hard_only f c)
  unfolding apply_hard_only
  hard-IsWindowed c w = add_if-IsWindowed f.hard_only _ c w

  abbrev Windowed : Part → Type 0
  Windowed p = IsWindowed f time p.conditions

  part_if-Windowed : (test : Bool) (p : Part) → Windowed p → All Windowed (part_if test p)
  part_if-Windowed true p w = (w, tt)
  part_if-Windowed false p w = tt

  sides-Windowed :
      (a b : Bool) (p q : Part)
      → Windowed p
      → Windowed q
      → All Windowed (part_if a p ++ part_if b q)
  sides-Windowed a b p q v w =
      All-append Windowed (part_if a p) (part_if b q) (part_if-Windowed a p v)
        (part_if-Windowed b q w)

-- the column that a list's window is on
abbrev pub time_of : Listing → Text
time_of checks = ascii "start_time"
time_of state_changes = ascii "state_time"
time_of notifications = ascii "start_time"

-- Each table that a history list reads is read within the window of the filter: both ends come
-- first among the conditions, bound to the filter's values.
pub history_sides-IsWindowed :
    (l : Listing) (f : HistoryFilter)
    → All (λ p. IsWindowed f (time_of l) p.conditions) (history_sides l f)
history_sides-IsWindowed checks f =
    sides-Windowed f (ascii "start_time") _ _ (History.host_checks f) (History.service_checks f)
      (hard-IsWindowed f _ _ (object_conditions-IsWindowed f _ false _))
      (hard-IsWindowed f _ _ (object_conditions-IsWindowed f _ true _))
history_sides-IsWindowed state_changes f =
    sides-Windowed f (ascii "state_time") _ _ (History.host_states f) (History.service_states f)
      (add_if-IsWindowed f _ f.transitions_only _ _
        (hard-IsWindowed f _ _ (object_conditions-IsWindowed f _ false _)))
      (add_if-IsWindowed f _ f.transitions_only _ _
        (hard-IsWindowed f _ _ (object_conditions-IsWindowed f _ true _)))
history_sides-IsWindowed notifications f =
    sides-Windowed f (ascii "start_time") _ _ (History.host_notifications f)
      (History.service_notifications f) (object_conditions-IsWindowed f _ false _)
      (object_conditions-IsWindowed f _ true _)
