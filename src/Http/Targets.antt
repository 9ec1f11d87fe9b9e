-- ===== src/Http/Targets.antt =====
-- internal/httpapi/handlers_commands.go: the objects that a command names.
mod Resolved
pub mod Listed
use interface.Prelude.{
  ℕ, suc, Bool, true, false, not, ◌&&◌, ◌||◌, List, [], ◌∷◌, ◌++◌, length, ltb, leb, ◌==◌,
  if◌then◌else◌,
}
use interface.Prelude.Sets.{has}
use interface.Prelude.Result.{Result, ok, err}
use interface.Text.{Text, ascii, eq, text_dec}
use interface.Text.Decimal.{format_nat}
use interface.Domain.{kind_host, kind_service}
use interface.Commands.{Target}
use interface.Commands.Bulk.{max_bulk_commands}
use interface.Http.{ApiError, bad_request}

pub record TargetRequest : Type 0 where
  pub kind : Text
  pub host : Text
  pub service : Text

-- `targetRequest.target`
unfoldable pub target : TargetRequest → Result ApiError Target
target t =
    if not (eq t.kind kind_host) && not (eq t.kind kind_service)
    then err (record { code = bad_request; field = ascii "kind" })
    else ok (record { kind = t.kind; hostname = t.host; description = t.service })

-- the key under which `resolve` remembers an object
abbrev pub target_key : Target → Text
target_key t = t.kind ++ (0 ∷ (t.hostname ++ (0 ∷ t.description)))

-- the name of the field of the object at a position
abbrev field_at : ℕ → Text → Text
field_at i field = ascii "targets[" ++ (format_nat i ++ (ascii "]." ++ field))

-- the loop of `resolve`, with the keys seen and the position
unfoldable pub resolve_from : ℕ → List Text → List TargetRequest → Result ApiError (List Target)
resolve_from i seen [] = ok []
resolve_from i seen (raw ∷ raws) = elim (target raw) [
  | err e ↦ err (record e { field = field_at i e.field })
  | ok t ↦
      if has text_dec (target_key t) seen
      then resolve_from (suc i) seen raws
      else elim (resolve_from (suc i) (target_key t ∷ seen) raws) [
        | err e ↦ err e
        | ok out ↦ ok (t ∷ out)
      ]
]

-- `targetsRequest.resolve`
unfoldable pub resolve : List TargetRequest → Result ApiError (List Target)
unfolding resolve_from
resolve [] = err (record { code = bad_request; field = ascii "targets" })
resolve (raw ∷ raws) =
    if ltb max_bulk_commands (length (raw ∷ raws))
    then err (record { code = bad_request; field = ascii "targets" })
    else resolve_from 0 [] (raw ∷ raws)

-- `decodeTargets` after the body has been read; `demo` says whether the caller is the demo account
unfoldable pub decode_targets : Bool → ℕ → List TargetRequest → Result ApiError (List Target)
decode_targets demo demo_max raws = elim (resolve raws) [
  | err e ↦ err e
  | ok targets ↦
      if demo && (ltb 0 demo_max && ltb demo_max (length targets))
      then err (record { code = bad_request; field = ascii "targets" })
      else ok targets
]
