-- ===== src/Http/Limits.antt =====
-- internal/httpapi/commandlimit.go: how fast commands may be submitted.
pub mod Budgets
use interface.Prelude.{
  ℕ, ◌+◌, ◌*◌, ◌/◌, Bool, true, false, not, ◌&&◌, ◌||◌, Option, none, some, List, [], ◌∷◌, ◌++◌,
  ltb, if◌then◌else◌,
}
use interface.Prelude.Int.{ℤ, pos, ltb_ℤ, pos_part}
use interface.Text.{Text, ascii}
use interface.RateLimit.{Window, new, minute, allow, retry}

-- A limit that is not set is nil in the code.
pub record CommandLimiter : Type 0 where
  pub per_client : Option Window
  pub per_demo_client : Option Window
  pub demo_total : Option Window

abbrev pub demo_total_factor : ℕ
demo_total_factor = 6

abbrev new_limit : ℤ → ℤ → Option Window
new_limit wanted limit = if ltb_ℤ (pos 0) wanted then some (new limit (pos minute)) else none

unfoldable pub new_command_limiter : ℤ → ℤ → Option CommandLimiter
new_command_limiter per_client demo =
    if not (ltb_ℤ (pos 0) per_client) && not (ltb_ℤ (pos 0) demo)
    then none
    else some (record {
      per_client = new_limit per_client per_client;
      per_demo_client = new_limit demo demo;
      demo_total = new_limit demo (pos (pos_part demo * demo_total_factor));
    })

-- what the middleware does with a request
pub data Gate : Type 0 where
  pass : Gate
  refuse_command : ℕ → Gate

-- The answer carries the seconds of `Retry-After`.
unfoldable pub retry_seconds : ℕ → ℕ
retry_seconds nanos = let s = nanos / 1000000000 in if ltb s 1 then 1 else s

-- the budget across all demo traffic
unfoldable pub check_total : ℕ → CommandLimiter → CommandLimiter × Gate
check_total now l = elim l.demo_total [
  | none ↦ (l, pass)
  | some w ↦
      let (w', within) = allow (ascii "demo") now w in
      (
        record l { demo_total = some w' },
        if within then pass else refuse_command (retry_seconds (retry (ascii "demo") now w')),
      )
]

abbrev pub caller_key : Text → Text → Text
caller_key username ip = username ++ (ascii "|" ++ ip)

-- which of the two budgets a caller spends
abbrev uses_demo_budget : Bool → CommandLimiter → Bool
uses_demo_budget demo l = demo && elim l.per_demo_client [ none ↦ false | some w ↦ true ]

unfoldable pub budget_of : Bool → CommandLimiter → Option Window
budget_of demo l = if uses_demo_budget demo l then l.per_demo_client else l.per_client

-- the limiter after its chosen budget has changed
abbrev put_budget : Bool → Window → CommandLimiter → CommandLimiter
put_budget demo w l =
    if uses_demo_budget demo l
    then record l { per_demo_client = some w }
    else record l { per_client = some w }

abbrev then_total : Bool → ℕ → CommandLimiter → CommandLimiter × Gate
then_total demo now l = if demo then check_total now l else (l, pass)

-- `commandRateLimit` for one request, when there is a limiter
unfoldable pub command_rate_limit : Bool → Text → Text → ℕ → CommandLimiter → CommandLimiter × Gate
unfolding check_total budget_of
command_rate_limit demo username ip now l = elim (budget_of demo l) [
  | none ↦ then_total demo now l
  | some w ↦
      let (w', within) = allow (caller_key username ip) now w in
      if within then then_total demo now (put_budget demo w' l) else (
        put_budget demo w' l,
        refuse_command (retry_seconds (retry (caller_key username ip) now w')),
      )
]
