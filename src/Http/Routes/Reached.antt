-- ===== src/Http/Routes/Reached.antt =====
-- Who reaches a command by the table of internal/httpapi/server.go.
use interface.Prelude.{
  ◌≡◌, refl, Bool, true, false, not, ◌||◌, some, In, All-In, all, all→All, arith, ℕ_discrete,
}
use interface.Prelude.Sets.{has}
use interface.Text.{Text, ascii, text_dec}
use interface.Auth.Model.{Identity, can}
use interface.Auth.Permissions.{command_permissions}
use interface.Http.Guards.{Passage, handler, answer, require_permission}
use interface.Http.Routes.{
  Access, open_to_all, signed_in, reading, commanding, Route, routes, behind,
}
use interface.Text.Affixes.{has_prefix, first_bytes}

-- the routes that hand a command to the core
abbrev pub is_command : Route → Bool
is_command r = has_prefix r.pattern (ascii "POST /api/v1/commands/")

abbrev pub is_commanding : Access → Bool
is_commanding open_to_all = false
is_commanding signed_in = false
is_commanding (reading perm) = false
is_commanding (commanding perm) = has text_dec perm command_permissions

table : all (λ r. not (is_command r) || is_commanding r.access) routes ≡ true
unfolding has_prefix first_bytes text_dec ℕ_discrete
table = refl

commands-commanding :
    (r : Route) → In r routes → is_command r ≡ true → is_commanding r.access ≡ true
commands-commanding r m c =
    let row =
      All-In (λ q. (not (is_command q) || is_commanding q.access) ≡ true) r routes
        (all→All (λ q. not (is_command q) || is_commanding q.access) routes table) m in
    ground (arith, row, c)

require-can :
    (perm : Text) (p : Passage) (ident : Identity)
    → require_permission perm p ≡ handler ident
    → can ident perm ≡ true
unfolding require_permission
require-can perm (answer status code) ident h = absurd (cc)
require-can perm (handler i) ident h = ground arith

commanding-permitted :
    (a : Access) (p : Passage) (ident : Identity)
    → is_commanding a ≡ true
    → behind a p ≡ some (handler ident)
    → (perm : Text) × (has text_dec perm command_permissions ≡ true) × (can ident perm ≡ true)
unfolding behind
commanding-permitted open_to_all p ident c h = absurd (cc)
commanding-permitted signed_in p ident c h = absurd (cc)
commanding-permitted (reading perm) p ident c h = absurd (cc)
commanding-permitted (commanding perm) p ident c h = (perm, c, require-can perm p ident (cc))

-- Whoever is let through to the handler of a route that submits commands holds one of the
-- permissions to command.
pub routes-permitted :
    (r : Route) (p : Passage) (ident : Identity)
    → In r routes
    → is_command r ≡ true
    → behind r.access p ≡ some (handler ident)
    → (perm : Text) × (has text_dec perm command_permissions ≡ true) × (can ident perm ≡ true)
routes-permitted r p ident m c h =
    commanding-permitted r.access p ident (commands-commanding r m c) h
