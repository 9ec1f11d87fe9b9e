-- ===== src/Events/Worker.antt =====
-- internal/events/worker.go: the identity of the object in an event, and the pauses between
-- connections. Decoding JSON is the standard library's: an event enters as the fields that
-- `json.Unmarshal` finds, or as none when it fails.
use interface.Prelude.{
  ℕ, zero, suc, ◌+◌, ◌-◌, ◌*◌, ◌/◌, ◌%◌, ◌^◌, ◌≤◌, ◌<◌, ◌≡◌, ◌≢◌, ◌⊎◌, inl, inr, Bool, false,
  Option, none, some, List, [], ◌∷◌, ltb, leb, ◌==◌, if◌then◌else◌, arith, Bool-cases,
}
use interface.Prelude.Int.{ℤ, pos, negsuc}
use native.Mathlib.Nat.{pow-suc}
use interface.Text.{Text, ascii, is_empty, eq}
use interface.Domain.{kind_host, kind_service}
use interface.Events.{Change, Hub, publish}

pub record Downtime : Type 0 where
  pub host_name : Text
  pub service_desc : Text

pub record EventFields : Type 0 where
  pub name : Text
  pub host_name : Text
  pub description : Text
  pub service_desc : Text
  pub statechange_type : Option ℤ
  pub downtime : Option Downtime

abbrev pub core_restart : Text
core_restart = ascii "statusngin_core_restart"

-- `if a == "" { a = b }`
abbrev or_else : Text → Text → Text
or_else a b = if is_empty a then b else a

-- the fields of a nested downtime go before the event's own
abbrev pub event_host : EventFields → Text
event_host f =
    let host = or_else f.host_name f.name in
    elim f.downtime [ none ↦ host | some d ↦ or_else d.host_name host ]

abbrev pub event_service : EventFields → Text
event_service f =
    let service = or_else f.service_desc f.description in
    elim f.downtime [ none ↦ service | some d ↦ or_else d.service_desc service ]

-- `f.StatechangeType != nil && *f.StatechangeType == 0`
abbrev pub of_host_state : EventFields → Bool
of_host_state f = elim f.statechange_type [
  | none ↦ false
  | some t ↦ elim t [ pos n ↦ n == 0 | negsuc n ↦ false ]
]

-- the change that names an object
abbrev pub object_change : Text → Text → Text → Change
object_change topic host service = record {
  topic = topic;
  kind = if is_empty service then kind_host else kind_service;
  host = host;
  service = service;
}

-- `changeFrom`; a change that is not to be published is left out
unfoldable pub change_from : Text → Option EventFields → Option Change
change_from topic fields =
    if eq topic core_restart
    then some (record { topic = topic; kind = []; host = []; service = [] })
    else elim fields [
      | none ↦ none
      | some f ↦
          if is_empty (event_host f)
          then none
          else some
              (object_change topic (event_host f) (if of_host_state f then [] else event_service f))
    ]

-- `handle`, for a frame that could be decoded: one topic and its events
unfoldable pub handle : Text → List (Option EventFields) → Hub → Hub
handle topic [] h = h
handle topic (e ∷ es) h = elim (change_from topic e) [
  | none ↦ handle topic es h
  | some c ↦ handle topic es (publish c h)
]

abbrev pub second : ℕ
second = 1000000000

-- `base << min(attempt-1, 6)`, held to a minute
unfoldable pub delay : ℕ → ℕ
delay attempt =
    let shifted = second * 2 ^ (if leb (attempt - 1) 6 then attempt - 1 else 6) in
    if ltb (60 * second) shifted then 60 * second else shifted

-- `backoff`; `jitter` is what `rand.Int64N` returns
unfoldable pub backoff : ℕ → ℕ → ℕ
backoff attempt jitter = delay attempt / 2 + jitter + delay attempt / 4

-- A change is a restart's, which names no object, or names a host; then its kind says whether it
-- names a service, and a state change of type 0 never does.
pub change_from-named :
    (topic : Text) (f : EventFields) (c : Change)
    → change_from topic (some f) ≡ some c
    → (c.topic ≡ topic)
      × (((topic ≡ core_restart) × (c.host ≡ []) × (c.kind ≡ []))
          ⊎ ((c.host ≡ event_host f)
              × (c.host ≢ [])
              × (((c.kind ≡ kind_host) × (c.service ≡ []))
                  ⊎ ((c.kind ≡ kind_service)
                      × (c.service ≡ event_service f)
                      × (c.service ≢ [])
                      × (of_host_state f ≡ false)))))
unfolding change_from
change_from-named topic f c h = ground arith

pow_pos : (k : ℕ) → 1 ≤ 2 ^ k
pow_pos zero = omega arith
pow_pos (suc k) = rw pow-suc (omega (arith, pow_pos k))

delay_bounds :
    (attempt : ℕ)
    → (second ≤ delay attempt) × (delay attempt ≤ 60 * second) × (delay attempt % 4 ≡ 0)
unfolding delay
delay_bounds attempt =
    let shift : ℕ = if leb (attempt - 1) 6 then attempt - 1 else 6 in
    elim (Bool-cases (ltb (60 * second) (second * 2 ^ shift))) [
      | inl long ↦ rw long (omega arith)
      | inr short ↦ rw short (omega (arith, pow_pos shift), ground arith, omega arith)
    ]

-- The pause before an attempt lies between three quarters of a second and a minute, for every
-- jitter below a quarter of the delay.
pub backoff_bounds :
    (attempt jitter : ℕ)
    → jitter < delay attempt / 4
    → (3 * second ≤ 4 * backoff attempt jitter) × (backoff attempt jitter ≤ 60 * second)
unfolding backoff
backoff_bounds attempt jitter h = omega (arith, delay_bounds attempt)
