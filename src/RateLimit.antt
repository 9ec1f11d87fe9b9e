-- ===== src/RateLimit.antt =====
-- internal/ratelimit/ratelimit.go: a fixed window of events for each key.
-- A time is a number of nanoseconds on the process's monotonic clock; the counts of the code are
-- `int`, which would wrap only after 2 ^ 63 events of one key in one window.
mod Live
mod Steps
mod Quota
mod Interval
mod Tests
use interface.Prelude.{
  ℕ, zero, suc, ◌+◌, ◌-◌, ◌≤◌, Bool, true, false, not, Option, none, some, List, [], ◌∷◌, length,
  ltb, leb, if◌then◌else◌,
}
use interface.Prelude.Int.{ℤ, pos, leb_ℤ, pos_part}
use interface.Prelude.Maps.{lookup, insert, delete, keep}
use interface.Text.{Text, text_dec}

pub record Entry : Type 0 where
  pub count : ℕ
  pub start : ℕ

pub record Window : Type 0 where
  pub limit : ℕ
  pub window : ℕ
  pub entries : List (Text × Entry)

abbrev pub minute : ℕ
minute = 60000000000

-- `New`
unfoldable pub new : ℤ → ℤ → Window
new limit window = record {
  limit = if leb_ℤ limit (pos 0) then 10 else pos_part limit;
  window = if leb_ℤ window (pos 0) then minute else pos_part window;
  entries = [];
}

-- `now.Sub(e.start) > w.window`
abbrev pub is_stale : Window → ℕ → Entry → Bool
is_stale w now e = ltb w.window (now - e.start)

abbrev pub find : Text → Window → Option Entry
find key w = lookup text_dec key w.entries

unfoldable pub sweep : ℕ → Window → Window
sweep now w =
    if ltb (length w.entries) 1024
    then w
    else record w { entries = keep text_dec (λ e. not (is_stale w now e)) w.entries }

-- the branch of `Allow` that starts a window
unfoldable pub start_window : Text → ℕ → Window → Window
unfolding sweep
start_window key now w =
    sweep now
      (record w { entries = insert text_dec key (record { count = 1; start = now }) w.entries })

-- the branch of `Allow` that counts within a window
unfoldable pub count_event : Text → Entry → Window → Window × Bool
count_event key e w = (
  record w { entries = insert text_dec key (record e { count = e.count + 1 }) w.entries },
  leb (e.count + 1) w.limit,
)

-- `Allow`, for a key that is not empty
unfoldable pub allow_key : Text → ℕ → Window → Window × Bool
unfolding start_window count_event
allow_key key now w = elim (find key w) [
  | none ↦ (start_window key now w, true)
  | some e ↦ if is_stale w now e then (start_window key now w, true) else count_event key e w
]

unfoldable pub allow : Text → ℕ → Window → Window × Bool
allow [] now w = (w, true)
allow (b ∷ bs) now w = allow_key (b ∷ bs) now w

-- `Reset`
unfoldable pub reset : Text → Window → Window
reset key w = record w { entries = delete text_dec key w.entries }

-- `Retry`
unfoldable pub retry : Text → ℕ → Window → ℕ
retry key now w = elim (find key w) [ none ↦ 0 | some e ↦ w.window + e.start - now ]
