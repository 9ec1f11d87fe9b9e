-- ===== src/Commands/Flattening.antt =====
-- What a bulk carries: nothing nested, nothing lost, and no more than the worker takes.
use interface.Prelude.{◌≡◌, ◌≤◌, ◌↔◌, ap, refl, List, [], ◌∷◌, ◌++◌, length, All, All-append, arith}
use interface.Prelude.Result.{ok}
use interface.Commands.{Envelope, envelope, nil, cons, nothing, of_list, to_list, messages}
use interface.Commands.Bulk.{max_bulk_commands, flat_one, flatten, wrap, bulk, command_count}
use interface.Commands.Downtimes.{commands_of}
use interface.Commands.Acceptance.{Accepted}

-- a single command, with no messages of its own
abbrev pub IsSingle : Envelope → Type 0
IsSingle e = messages e ≡ []

-- an envelope whose messages are single commands, as every builder returns
abbrev pub IsShallow : Envelope → Type 0
IsShallow e = All IsSingle (messages e)

-- the commands that envelopes stand for, in order: those an envelope lists, or itself if it lists none
abbrev pub carried : List Envelope → List Envelope
carried [] = []
carried (envelope c p nil ∷ es) = envelope c p nil ∷ carried es
carried (envelope c p (cons m ms) ∷ es) = m ∷ (to_list ms ++ carried es)

pub flatten-carried : (es : List Envelope) → flatten es ≡ carried es
unfolding flatten
flatten-carried [] = refl
flatten-carried (envelope c p nil ∷ es) = ap (◌∷◌ (envelope c p nil)) (flatten-carried es)
flatten-carried (envelope c p (cons m ms) ∷ es) =
    ap (λ rest. m ∷ (to_list ms ++ rest)) (flatten-carried es)

flat_one-IsSingle : (e : Envelope) → IsShallow e → All IsSingle (flat_one e)
flat_one-IsSingle (envelope c p nil) h = (refl, tt)
flat_one-IsSingle (envelope c p (cons m ms)) h = h

pub flatten-IsSingle : (es : List Envelope) → All IsShallow es → All IsSingle (flatten es)
unfolding flatten
flatten-IsSingle [] h = tt
flatten-IsSingle (e ∷ es) (s, h) =
    All-append IsSingle (flat_one e) (flatten es) (flat_one-IsSingle e s) (flatten-IsSingle es h)

to_list-of_list : (es : List Envelope) → to_list (of_list es) ≡ es
to_list-of_list [] = refl
to_list-of_list (e ∷ es) = ap (◌∷◌ e) (to_list-of_list es)

wrap-Accepted_iff :
    (es : List Envelope) → Accepted (wrap es) ↔ ((1 ≤ length es) × (length es ≤ max_bulk_commands))
unfolding wrap
wrap-Accepted_iff [] = (λ h. cc (h.1), λ h. absurd (omega arith))
wrap-Accepted_iff (e ∷ []) = (λ h. omega arith, λ h. (e, refl))
wrap-Accepted_iff (e ∷ f ∷ es) = (
  λ h. (omega arith, ground arith),
  λ h. (envelope [] nothing (of_list (e ∷ f ∷ es)), ground arith),
)

-- A bulk is accepted exactly when its flattened commands number from 1 to 1000.
pub bulk-Accepted_iff :
    (es : List Envelope)
    → Accepted (bulk es) ↔ ((1 ≤ length (flatten es)) × (length (flatten es) ≤ max_bulk_commands))
unfolding bulk
bulk-Accepted_iff es = wrap-Accepted_iff (flatten es)

wrap-commands :
    (es : List Envelope) (e : Envelope)
    → All IsSingle es
    → wrap es ≡ ok e
    → (commands_of e ≡ es) × (command_count e ≡ length es)
unfolding wrap command_count
wrap-commands [] e s h = cc
wrap-commands (f ∷ []) e s h = ground (arith, s.0)
wrap-commands (f ∷ g ∷ es) e s h = ground (arith, to_list-of_list es)

-- From shallow envelopes, a bulk carries exactly their commands, in order, each of them single,
-- and reports how many they are.
pub bulk-commands :
    (es : List Envelope) (e : Envelope)
    → All IsShallow es
    → bulk es ≡ ok e
    → (commands_of e ≡ carried es)
      × All IsSingle (commands_of e)
      × (command_count e ≡ length (carried es))
unfolding bulk
bulk-commands es e s h =
    let single = flatten-IsSingle es s in
    let (same, counted) = wrap-commands (flatten es) e single h in
    rw (← flatten-carried es) (same, rw same single, counted)
