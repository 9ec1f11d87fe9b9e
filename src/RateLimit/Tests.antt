-- ===== src/RateLimit/Tests.antt =====
-- The theorems on rate limits, at a window of two events in a hundred nanoseconds.
use interface.Prelude.{
  ℕ, ◌+◌, ◌*◌, ◌≤◌, ◌≡◌, refl, some, [], ◌∷◌, holds, if◌then◌else◌, arith, ℕ_discrete,
}
use interface.Prelude.Maps.{lookup}
use interface.Text.{Text, ascii, text_dec}
use interface.RateLimit.{Entry, Window, allow_key}
use interface.RateLimit.Live.{IsValid, live, fits, next_entry, open_at, allow_key-live}
use interface.RateLimit.Quota.{Events, asks, resets, Within, admitted, times_reset}
use interface.RateLimit.Interval.{admitted-le}

abbrev alice : Text
alice = ascii "al"

abbrev bob : Text
bob = ascii "bo"

-- an event of alice's has been counted
abbrev entered : Entry
entered = record { count = 1; start = 0 }

abbrev used : Window
used = record { limit = 2; window = 100; entries = (alice, entered) ∷ [] }

used-IsValid : IsValid used
unfolding lookup
used-IsValid = record { positive = omega arith; distinct = (refl, tt) }

abbrev traffic : Events
traffic =
    asks alice 10 ∷ asks bob 20 ∷ asks alice 30 ∷ resets alice ∷ asks alice 40 ∷ asks alice 90 ∷ []

traffic-Within : Within 0 100 traffic
traffic-Within = omega arith

admitted-le_example : admitted alice used traffic ≤ (2 + times_reset alice traffic) * 2
admitted-le_example =
    admitted-le alice used 0 100 traffic (λ e. cc) used-IsValid (omega arith) traffic-Within

still_open : live used 100 alice ≡ some entered
unfolding live lookup text_dec ℕ_discrete
still_open = refl

allow_key-live_example :
    ((allow_key alice 50 used).1 ≡ fits 2 (live used 50 alice))
    × ((later : ℕ) (q : Text)
        → 50 ≤ later
        → live (allow_key alice 50 used).0 later q ≡ (
            if holds (text_dec alice q)
            then open_at used later (next_entry 50 (live used 50 alice))
            else live used later q))
allow_key-live_example = allow_key-live used alice 50 used-IsValid
