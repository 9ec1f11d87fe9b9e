-- ===== src/RateLimit/Live.antt =====
-- `Window` against an ideal map of the entries whose window is still open: when a sweep runs, and
-- what it drops, cannot be seen.
use interface.Prelude.{
  ℕ, ◌+◌, ◌≤◌, ◌≡◌, refl, ◌∙◌, Bool, true, not, Option, none, some, length, ltb, leb, if◌then◌else◌,
  holds, arith, Bool-cases, Option-cases, inl, inr,
}
use interface.Prelude.Maps.{keep_if, insert, Distinct, lookup-insert, lookup-keep, Distinct-insert}
use interface.Text.{Text, text_dec}
use interface.RateLimit.{Entry, Window, is_stale, find, sweep, start_window, count_event, allow_key}

pub record IsValid (w : Window) : Type 0 where
  pub positive : 1 ≤ w.limit
  pub distinct : Distinct text_dec w.entries

-- the entry of a key, while its window is open
unfoldable pub live : Window → ℕ → Text → Option Entry
live w now key = keep_if (λ e. not (is_stale w now e)) (find key w)

-- the ideal step: the next event of a key, whose open window is given
abbrev pub next_entry : ℕ → Option Entry → Entry
next_entry now none = record { count = 1; start = now }
next_entry now (some e) = record e { count = e.count + 1 }

-- the ideal answer
abbrev pub fits : ℕ → Option Entry → Bool
fits limit none = true
fits limit (some e) = leb (e.count + 1) limit

abbrev pub open_at : Window → ℕ → Entry → Option Entry
open_at w now e = if is_stale w now e then none else some e

-- what is closed stays closed
keep-closed :
    (w : Window) (now later : ℕ) (o : Option Entry)
    → now ≤ later
    → keep_if (λ e. not (is_stale w later e)) (keep_if (λ e. not (is_stale w now e)) o)
      ≡ keep_if (λ e. not (is_stale w later e)) o
keep-closed w now later none h = refl
keep-closed w now later (some e) h = ground arith

live-sweep :
    (w : Window) (now later : ℕ) (q : Text)
    → Distinct text_dec w.entries
    → now ≤ later
    → live (sweep now w) later q ≡ live w later q
unfolding live sweep
live-sweep w now later q d h = elim (Bool-cases (ltb (length w.entries) 1024)) [
  | inl few ↦ rw few
  | inr many ↦
      rw (many, lookup-keep text_dec (λ e. not (is_stale w now e)) q w.entries d)
        (keep-closed w now later (find q w) h)
]

sweep_same :
    (w : Window) (now : ℕ) → ((sweep now w).limit ≡ w.limit) × ((sweep now w).window ≡ w.window)
unfolding sweep
sweep_same w now = ground arith

live-insert :
    (w : Window) (key : Text) (e : Entry) (later : ℕ) (q : Text)
    → live (record w { entries = insert text_dec key e w.entries }) later q
      ≡ (if holds (text_dec key q) then open_at w later e else live w later q)
unfolding live
live-insert w key e later q = elim (Bool-cases (holds (text_dec key q))) [
  | inl here ↦ rw (lookup-insert, here) (ground arith)
  | inr there ↦ rw (lookup-insert, there)
]

live-start_window :
    (w : Window) (key : Text) (now later : ℕ) (q : Text)
    → IsValid w
    → now ≤ later
    → live (start_window key now w) later q ≡ (
        if holds (text_dec key q)
        then open_at w later (record { count = 1; start = now })
        else live w later q)
unfolding start_window
live-start_window w key now later q v h =
    live-sweep
      (record w { entries = insert text_dec key (record { count = 1; start = now }) w.entries }) now
      later q
      (Distinct-insert text_dec key (record { count = 1; start = now }) w.entries v.distinct) h
    ∙ live-insert w key (record { count = 1; start = now }) later q

live-count_event :
    (w : Window) (key : Text) (e : Entry) (later : ℕ) (q : Text)
    → live (count_event key e w).0 later q ≡ (
        if holds (text_dec key q)
        then open_at w later (record e { count = e.count + 1 })
        else live w later q)
unfolding count_event
live-count_event w key e later q = live-insert w key (record e { count = e.count + 1 }) later q

-- An event of a key is answered by the count of the key's open window alone. It raises that count,
-- or opens a window when none is open, and no other key's open window changes, at any later time.
pub allow_key-live :
    (w : Window) (key : Text) (now : ℕ)
    → IsValid w
    → ((allow_key key now w).1 ≡ fits w.limit (live w now key))
      × ((later : ℕ) (q : Text)
          → now ≤ later
          → live (allow_key key now w).0 later q ≡ (
              if holds (text_dec key q)
              then open_at w later (next_entry now (live w now key))
              else live w later q))
allow_key-live w key now v = elim (Option-cases (find key w)) [
  | inl missing ↦ (
    unfold allow_key live in ground arith,
    λ later q h. unfold allow_key live in ground (arith, live-start_window w key now later q v h),
  )
  | inr (e, found) ↦ (
    unfold allow_key live count_event in ground arith,
    λ later q h. elim (Bool-cases (is_stale w now e)) [
      | inl stale ↦ unfold allow_key live in ground (arith, live-start_window w key now later q v h)
      | inr fresh ↦ unfold allow_key live in ground (arith, live-count_event w key e later q)
    ],
  )
]
