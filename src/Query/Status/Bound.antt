-- ===== src/Query/Status/Bound.antt =====
-- The statements of the host and service lists bind a value to each placeholder.
use interface.Prelude.{
  ◌≡◌, refl, Bool, true, false, Option, none, some, List, [], ◌∷◌, ◌++◌, length, length-append,
  arith, ℕ_discrete,
}
use interface.Prelude.Int.{ℤ, pos}
use interface.Prelude.Maps.{lookup}
use interface.Text.{Text, ascii, text_dec}
use interface.Query.{
  int_value, Conditions, no_conditions, Page, clause, order_by, limit_clause, limit_args,
}
use interface.Query.Bound.{
  marks, marks-append, IsBound, add-IsBound, add_in-IsBound, add_bool-IsBound,
}
use interface.Query.Search.{Unmarked, add_search-IsBound, add_text-IsBound}
use interface.Query.Statement.{IsPlaced, IsWhitelist, marks-order_by}
use interface.Query.Status.{
  StatusFilter, add_choice, add_problems, add_flags, apply_status, Table, host_table, service_table,
  search_columns, status_table, list_columns, status_sort_columns, status_conditions, status_count,
  status_page,
}

pub add_choice-IsBound :
    (want : Option Bool) (on off : Text) (c : Conditions)
    → marks on ≡ 0
    → marks off ≡ 0
    → IsBound c
    → IsBound (add_choice want on off c)
unfolding add_choice
add_choice-IsBound none on off c h k b = b
add_choice-IsBound (some true) on off c h k b = add-IsBound on [] c h b
add_choice-IsBound (some false) on off c h k b = add-IsBound off [] c k b

add_problems-IsBound :
    (only : Bool) (ok_state : ℤ) (c : Conditions)
    → IsBound c
    → IsBound (add_problems only ok_state c)
unfolding add_problems
add_problems-IsBound true ok_state c b =
    add-IsBound (ascii "current_state <> ?") (int_value ok_state ∷ []) c refl b
add_problems-IsBound false ok_state c b = b

add_flags-IsBound : (f : StatusFilter) (c : Conditions) → IsBound c → IsBound (add_flags f c)
unfolding add_flags
add_flags-IsBound f c b = add_bool-IsBound _ f.passive _ refl (
    add_bool-IsBound _ f.hard_state _ refl (
      add_bool-IsBound _ f.active_checks_enabled _ refl (
        add_bool-IsBound _ f.notifications_enabled _ refl
          (add_bool-IsBound _ f.flapping _ refl (add_bool-IsBound _ f.acknowledged c refl b)))))

apply_status-IsBound :
    (f : StatusFilter) (columns : List Text) (ok_state : ℤ) (c : Conditions)
    → Unmarked columns
    → IsBound c
    → IsBound (apply_status f columns ok_state c)
unfolding apply_status
apply_status-IsBound f columns ok_state c u b = add_choice-IsBound f.handled _ _ _ refl refl (
    add_choice-IsBound f.in_downtime _ _ _ refl refl (
      add_flags-IsBound f _ (
        add_problems-IsBound f.problems_only ok_state _ (
          add_in-IsBound (ascii "current_state") f.states _ refl (
            add_search-IsBound f.search columns _ u
              (add_text-IsBound (ascii "hostname = ?") f.host c refl b))))))

columns-Unmarked : (t : Table) → Unmarked (search_columns t)
columns-Unmarked host_table = (refl, tt)
columns-Unmarked service_table = (refl, (refl, tt))

conditions-IsBound : (t : Table) (f : StatusFilter) → IsBound (status_conditions t f)
unfolding IsBound clause
conditions-IsBound t f =
    apply_status-IsBound f (search_columns t) (pos 0) no_conditions (columns-Unmarked t) refl

whitelist : (t : Table) → IsWhitelist (status_sort_columns t) (ascii "hostname") (ascii "hostname")
unfolding lookup text_dec ℕ_discrete
whitelist host_table =
    (refl, (refl, (refl, (refl, (refl, (refl, (refl, (refl, (refl, (refl, (refl, tt)))))))))), refl)
whitelist service_table = (
  refl,
  (refl, (refl, (refl, (refl, (refl, (refl, (refl, (refl, (refl, (refl, (refl, tt))))))))))),
  refl,
)

texts-unmarked : (t : Table) → (marks (status_table t) ≡ 0) × (marks (list_columns t) ≡ 0)
texts-unmarked host_table = (refl, refl)
texts-unmarked service_table = (refl, refl)

-- Whatever a request asks for, the count and the page of the host and service lists hand the
-- database as many values as their text has placeholders.
pub status-IsPlaced :
    (t : Table) (f : StatusFilter) (p : Page)
    → IsPlaced (status_count t f) × IsPlaced (status_page t f p)
unfolding status_count status_page IsBound limit_clause limit_args
status-IsPlaced t f p =
    let c = status_conditions t f in
    let ordering = order_by p.sort p.desc (status_sort_columns t) (ascii "hostname") in
    let (table, columns) = texts-unmarked t in
    let bound : marks (clause c) ≡ length c.args = conditions-IsBound t f in
    let unmarked : marks ordering ≡ 0 =
      marks-order_by p.sort (ascii "hostname") (ascii "hostname") p.desc (status_sort_columns t)
        (whitelist t) in
    (
      omega (arith, table, bound, marks-append (status_table t) (clause c)),
      omega (
        arith,
        table,
        columns,
        bound,
        unmarked,
        marks-append (list_columns t)
            (ascii " FROM " ++ (status_table t ++ (clause c ++ (ordering ++ limit_clause)))),
        marks-append (ascii " FROM ") (status_table t ++ (clause c ++ (ordering ++ limit_clause))),
        marks-append (status_table t) (clause c ++ (ordering ++ limit_clause)),
        marks-append (clause c) (ordering ++ limit_clause),
        marks-append ordering limit_clause,
        length-append c.args (limit_args p),
      ),
    )
