-- ===== src/Commands/Bulk.antt =====
-- internal/commands/naemon.go: several envelopes as one submission.
use interface.Prelude.{ℕ, List, [], ◌∷◌, ◌++◌, length, ltb, if◌then◌else◌}
use interface.Prelude.Result.{Result, ok, err}
use interface.Commands.{
  CommandError, nothing_to_submit, too_many_commands, Envelope, envelope, of_list, nothing,
  messages,
}

abbrev pub max_bulk_commands : ℕ
max_bulk_commands = 1000

-- what one envelope adds to the bulk: its messages, or itself when it has none
abbrev pub flat_one : Envelope → List Envelope
flat_one e = elim (messages e) [ [] ↦ e ∷ [] | m ∷ ms ↦ m ∷ ms ]

-- the loop of `Bulk`
unfoldable pub flatten : List Envelope → List Envelope
flatten [] = []
flatten (e ∷ es) = flat_one e ++ flatten es

-- the `switch` of `Bulk`
unfoldable pub wrap : List Envelope → Result CommandError Envelope
wrap [] = err nothing_to_submit
wrap (e ∷ []) = ok e
wrap (e ∷ f ∷ es) =
    if ltb max_bulk_commands (length (e ∷ f ∷ es))
    then err (too_many_commands (length (e ∷ f ∷ es)))
    else ok (envelope [] nothing (of_list (e ∷ f ∷ es)))

unfoldable pub bulk : List Envelope → Result CommandError Envelope
unfolding flatten wrap
bulk envelopes = wrap (flatten envelopes)

unfoldable pub command_count : Envelope → ℕ
command_count e = elim (messages e) [ [] ↦ 1 | m ∷ ms ↦ length (m ∷ ms) ]
