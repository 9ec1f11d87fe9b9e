-- ===== src/Http/Limits/Budgets.antt =====
-- What each budget bounds, and whose it is.
use interface.Prelude.{
  ℕ, ◌≡◌, ◌↔◌, refl, ◌∷◌, ◌++◌, inl, inr, Bool, true, false, not, ◌&&◌, ◌||◌, Option, none, some,
  arith, Option-cases,
}
use interface.Text.{Text, ascii}
use interface.RateLimit.{Window, allow}
use interface.Http.Limits.{
  CommandLimiter, pass, check_total, caller_key, budget_of, put_budget, command_rate_limit,
}

-- whether a budget has room for one more event of a key; an absent budget always has
abbrev pub has_room : Option Window → Text → ℕ → Bool
has_room none key now = true
has_room (some w) key now = (allow key now w).1

check_total-pass_iff :
    (now : ℕ) (l : CommandLimiter)
    → ((check_total now l).1 ≡ pass) ↔ (has_room l.demo_total (ascii "demo") now ≡ true)
unfolding check_total
check_total-pass_iff now l = elim (Option-cases l.demo_total) [
  | inl absent ↦ ground arith
  | inr (w, present) ↦ ground arith
]

-- the budget that a caller is held to: that of demo clients for the demo account, where there is one
abbrev pub held_to : Bool → Option Window → Option Window → Option Window
held_to false clients demo_clients = clients
held_to true clients none = clients
held_to true clients (some w) = some w

-- a budget after a request of a key; an absent one stays absent
abbrev pub charged : Option Window → Text → ℕ → Option Window
charged none key now = none
charged (some w) key now = some (allow key now w).0

-- both budgets of clients after a request: only the one that the caller is held to is charged
abbrev pub budgets_after :
    Bool → Option Window → Option Window → Text → ℕ → Option Window × Option Window
budgets_after false clients demo_clients key now = (charged clients key now, demo_clients)
budgets_after true clients none key now = (charged clients key now, none)
budgets_after true clients (some w) key now = (clients, some (allow key now w).0)

budget_of-held_to :
    (demo : Bool) (l : CommandLimiter)
    → budget_of demo l ≡ held_to demo l.per_client l.per_demo_client
unfolding budget_of
budget_of-held_to false l = refl
budget_of-held_to true l = elim (Option-cases l.per_demo_client) [
  | inl absent ↦ rw absent
  | inr (w, present) ↦ rw present
]

pass_iff :
    (demo : Bool) (username ip : Text) (now : ℕ) (l : CommandLimiter)
    → ((command_rate_limit demo username ip now l).1 ≡ pass) ↔ (
        (has_room (budget_of demo l) (caller_key username ip) now ≡ true)
        × ((not demo || has_room l.demo_total (ascii "demo") now) ≡ true))
unfolding command_rate_limit check_total budget_of
pass_iff demo username ip now l = elim (Option-cases (budget_of demo l)) [
  | inl absent ↦ ground (arith, check_total-pass_iff now l)
  | inr (w, present) ↦
      let spent : CommandLimiter = put_budget demo (allow (caller_key username ip) now w).0 l in
      let kept : spent.demo_total ≡ l.demo_total = ground arith in
      ground (arith, kept, check_total-pass_iff now spent)
]

check_total-kept :
    (now : ℕ) (l : CommandLimiter)
    → ((check_total now l).0.per_client ≡ l.per_client)
      × ((check_total now l).0.per_demo_client ≡ l.per_demo_client)
unfolding check_total
check_total-kept now l = elim (Option-cases l.demo_total) [
  | inl absent ↦ ground arith
  | inr (w, present) ↦ ground arith
]

after :
    (demo : Bool) (username ip : Text) (now : ℕ) (l : CommandLimiter)
    → ((command_rate_limit demo username ip now l).0.per_client
        ≡ (budgets_after demo l.per_client l.per_demo_client (caller_key username ip) now).0)
      × ((command_rate_limit demo username ip now l).0.per_demo_client
          ≡ (budgets_after demo l.per_client l.per_demo_client (caller_key username ip) now).1)
unfolding command_rate_limit check_total budget_of
after false username ip now l = elim (Option-cases l.per_client) [
  | inl absent ↦ (ground arith, ground arith)
  | inr (w, present) ↦ (ground arith, ground arith)
]
after true username ip now l = elim (Option-cases l.per_demo_client) [
  | inl no_demo ↦ elim (Option-cases l.per_client) [
    | inl absent ↦ (ground (arith, check_total-kept now l), ground (arith, check_total-kept now l))
    | inr (w, present) ↦
        let spent : CommandLimiter = put_budget true (allow (caller_key username ip) now w).0 l in
        (ground (arith, check_total-kept now spent), ground (arith, check_total-kept now spent))
  ]
  | inr (w, present) ↦
      let spent : CommandLimiter = put_budget true (allow (caller_key username ip) now w).0 l in
      (ground (arith, check_total-kept now spent), ground (arith, check_total-kept now spent))
]

-- A command passes exactly when the budget that the caller is held to has room for the name of the
-- account and the address together and, for the demo account, the budget of all demo traffic has
-- room too; and whether it passes or not, of the budgets of clients only that one is charged, under
-- that name and address. The demo account is held to the budget of demo clients where there is one,
-- and everybody else to the ordinary one.
pub command_rate_limit-pass_iff :
    (demo : Bool) (username ip : Text) (now : ℕ) (l : CommandLimiter)
    → (((command_rate_limit demo username ip now l).1 ≡ pass) ↔ (
        (has_room (held_to demo l.per_client l.per_demo_client) (username ++ b'|' ∷ ip) now ≡ true)
        × ((not demo || has_room l.demo_total (ascii "demo") now) ≡ true)))
      × ((command_rate_limit demo username ip now l).0.per_client
          ≡ (budgets_after demo l.per_client l.per_demo_client (username ++ b'|' ∷ ip) now).0)
      × ((command_rate_limit demo username ip now l).0.per_demo_client
          ≡ (budgets_after demo l.per_client l.per_demo_client (username ++ b'|' ∷ ip) now).1)
command_rate_limit-pass_iff demo username ip now l =
    let (clients, demo_clients) = after demo username ip now l in
    (rw (← budget_of-held_to demo l) (pass_iff demo username ip now l), clients, demo_clients)

-- A caller off the demo account, and a demo caller whose own budget has no room, leave the budget of
-- all demo traffic as it was.
pub command_rate_limit-separate :
    (demo : Bool) (username ip : Text) (now : ℕ) (l : CommandLimiter)
    → (demo && has_room (budget_of demo l) (caller_key username ip) now) ≡ false
    → ((command_rate_limit demo username ip now l).0).demo_total ≡ l.demo_total
unfolding command_rate_limit check_total budget_of
command_rate_limit-separate demo username ip now l h = ground arith
