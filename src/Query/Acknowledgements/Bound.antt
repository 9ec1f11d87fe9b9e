-- ===== src/Query/Acknowledgements/Bound.antt =====
-- The statements of the acknowledgement list bind a value to each placeholder.
use interface.Prelude.{◌≡◌, refl, List, [], ◌∷◌, ◌++◌, All-append, ℕ_discrete, Bool-cases, inl, inr}
use interface.Prelude.Int.{ℤ, pos, ltb_ℤ}
use interface.Prelude.Maps.{lookup}
use interface.Text.{Text, ascii, text_dec}
use interface.Query.{int_value, Conditions, no_conditions, Page, clause}
use interface.Query.Bound.{marks, IsBound, add-IsBound}
use interface.Query.Search.{Unmarked, add_search-IsBound, add_text-IsBound}
use interface.Query.Statement.{
  IsPlaced, IsWhitelist, sides-IsPlaced, count_of-IsPlaced, page_of-IsPlaced,
}
use interface.Query.Acknowledgements.{
  AckFilter, add_bound, comment_columns, apply_ack, host_acknowledgements, service_acknowledgements,
  ack_union, ack_count, ack_page,
}
use interface.Query.Acknowledgements.Columns

add_bound-IsBound :
    (expr : Text) (value : ℤ) (c : Conditions)
    → marks expr ≡ 1
    → IsBound c
    → IsBound (add_bound expr value c)
unfolding add_bound
add_bound-IsBound expr value c h b = elim (Bool-cases (ltb_ℤ (pos 0) value)) [
  | inl positive ↦ rw positive (add-IsBound expr (int_value value ∷ []) c h b)
  | inr other ↦ rw other b
]

apply_ack-IsBound :
    (f : AckFilter) (columns : List Text)
    → Unmarked columns
    → IsBound (apply_ack f columns no_conditions)
unfolding apply_ack IsBound clause
apply_ack-IsBound f columns u =
    add_search-IsBound f.search (columns ++ comment_columns) _
      (All-append (λ c. marks c ≡ 0) columns comment_columns u (refl, (refl, tt)))
      (add_bound-IsBound (ascii "entry_time <= ?") f.to _ refl (
        add_bound-IsBound (ascii "entry_time >= ?") f.from _ refl (
          add_text-IsBound (ascii "author_name = ?") f.author _ refl (
            add_text-IsBound (ascii "service_description = ?") f.service _ refl
              (add_text-IsBound (ascii "hostname = ?") f.host no_conditions refl refl)))))

ack_union-IsPlaced : (f : AckFilter) → IsPlaced (ack_union f)
unfolding ack_union
ack_union-IsPlaced f =
    sides-IsPlaced Columns.empty_ack_select _ _ (host_acknowledgements f)
      (service_acknowledgements f) refl (refl, apply_ack-IsBound f _ (refl, tt))
      (refl, apply_ack-IsBound f _ (refl, (refl, tt)))

whitelist : IsWhitelist Columns.ack_sort_columns (ascii "entry_time") (ascii "entry_time")
unfolding lookup text_dec ℕ_discrete
whitelist = (refl, (refl, (refl, (refl, (refl, (refl, (refl, tt)))))), refl)

-- Whatever a request asks for, the count and the page of the acknowledgements hand the database as
-- many values as their text has placeholders.
pub acknowledgements-IsPlaced :
    (f : AckFilter) (p : Page) → IsPlaced (ack_count f) × IsPlaced (ack_page f p)
unfolding ack_count ack_page
acknowledgements-IsPlaced f p = (
  count_of-IsPlaced (ascii "a") (ack_union f) refl (ack_union-IsPlaced f),
  page_of-IsPlaced (ascii "a") Columns.ack_sort_columns (ascii "entry_time") (ascii "entry_time") p
      (ack_union f) refl whitelist (ack_union-IsPlaced f),
)
