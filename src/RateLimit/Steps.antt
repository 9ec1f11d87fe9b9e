-- ===== src/RateLimit/Steps.antt =====
-- One step of a window: what stays, and the invariant.
use interface.Prelude.{
  ℕ, ◌+◌, ◌≤◌, ◌≡◌, ◌≢◌, refl, not, [], ◌∷◌, arith, Bool-cases, Option-cases, inl, inr, ltb, length,
}
use interface.Prelude.Int.{ℤ}
use interface.Prelude.Maps.{insert, Distinct-insert, Distinct-keep, Distinct-delete}
use interface.Text.{Text, text_dec}
use interface.RateLimit.{
  Entry, Window, new, is_stale, find, sweep, start_window, count_event, allow_key, allow, reset,
}
use interface.RateLimit.Live.{IsValid, live, fits, next_entry, open_at, allow_key-live}

-- The bounds of a window do not change.
pub allow_same :
    (key : Text) (now : ℕ) (w : Window)
    → ((allow key now w).0.limit ≡ w.limit) × ((allow key now w).0.window ≡ w.window)
unfolding allow allow_key start_window count_event sweep
allow_same [] now w = (refl, refl)
allow_same (b ∷ bs) now w = (ground arith, ground arith)

pub new-IsValid : (limit window : ℤ) → IsValid (new limit window)
unfolding new
new-IsValid limit window = record { positive = ground arith; distinct = tt }

sweep-IsValid : (now : ℕ) (w : Window) → IsValid w → IsValid (sweep now w)
unfolding sweep
sweep-IsValid now w v = elim (Bool-cases (ltb (length w.entries) 1024)) [
  | inl few ↦ rw few v
  | inr many ↦ rw many (record {
    positive = v.positive;
    distinct = Distinct-keep text_dec (λ e. not (is_stale w now e)) w.entries v.distinct;
  })
]

insert-IsValid :
    (key : Text) (e : Entry) (w : Window)
    → IsValid w
    → IsValid (record w { entries = insert text_dec key e w.entries })
insert-IsValid key e w v = record {
  positive = v.positive;
  distinct = Distinct-insert text_dec key e w.entries v.distinct;
}

start_window-IsValid :
    (key : Text) (now : ℕ) (w : Window) → IsValid w → IsValid (start_window key now w)
unfolding start_window
start_window-IsValid key now w v =
    sweep-IsValid now
      (record w { entries = insert text_dec key (record { count = 1; start = now }) w.entries })
      (insert-IsValid key (record { count = 1; start = now }) w v)

count_event-IsValid :
    (key : Text) (e : Entry) (w : Window) → IsValid w → IsValid (count_event key e w).0
unfolding count_event
count_event-IsValid key e w v = insert-IsValid key (record e { count = e.count + 1 }) w v

pub allow-IsValid : (key : Text) (now : ℕ) (w : Window) → IsValid w → IsValid (allow key now w).0
unfolding allow allow_key
allow-IsValid [] now w v = v
allow-IsValid (b ∷ bs) now w v = elim (Option-cases (find (b ∷ bs) w)) [
  | inl missing ↦ rw (missing, allow_key) (start_window-IsValid (b ∷ bs) now w v)
  | inr (e, found) ↦ elim (Bool-cases (is_stale w now e)) [
    | inl stale ↦ rw (found, allow_key) (rw stale (start_window-IsValid (b ∷ bs) now w v))
    | inr fresh ↦ rw (found, allow_key) (rw fresh (count_event-IsValid (b ∷ bs) e w v))
  ]
]

pub reset-IsValid : (key : Text) (w : Window) → IsValid w → IsValid (reset key w)
unfolding reset
reset-IsValid key w v = record {
  positive = v.positive;
  distinct = Distinct-delete text_dec key w.entries v.distinct;
}

-- The open window of a key after an event of another key, an empty one included.
pub live-allow_ne :
    (key : Text) (now later : ℕ) (w : Window) (q : Text)
    → IsValid w
    → now ≤ later
    → key ≢ q
    → live (allow key now w).0 later q ≡ live w later q
unfolding allow
live-allow_ne [] now later w q v h d = refl
live-allow_ne (b ∷ bs) now later w q v h d =
    ground (arith, (allow_key-live w (b ∷ bs) now v).1 later q h)

-- The open window of a key after an event of its own, and the answer.
pub live-allow_self :
    (key : Text) (now later : ℕ) (w : Window)
    → key ≢ []
    → IsValid w
    → now ≤ later
    → ((allow key now w).1 ≡ fits w.limit (live w now key))
      × (live (allow key now w).0 later key ≡ open_at w later (next_entry now (live w now key)))
unfolding allow
live-allow_self [] now later w n v h = absurd (n refl)
live-allow_self (b ∷ bs) now later w n v h =
    let (answer, after) = allow_key-live w (b ∷ bs) now v in
    (answer, ground (arith, after later (b ∷ bs) h))
