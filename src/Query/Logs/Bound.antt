-- ===== src/Query/Logs/Bound.antt =====
-- The statements of the log list bind a value to each placeholder.
use interface.Prelude.{
  ◌≡◌, refl, ◌++◌, length, length-append, arith, ℕ_discrete, Bool-cases, inl, inr,
}
use interface.Prelude.Maps.{lookup}
use interface.Text.{Text, ascii, is_empty, text_dec}
use interface.Query.{Conditions, no_conditions, Page, clause, order_by, limit_clause, limit_args}
use interface.Query.Bound.{marks, marks-append, IsBound, add-IsBound, add_in-IsBound}
use interface.Query.Search.{add_text-IsBound}
use interface.Query.Statement.{IsPlaced, IsWhitelist, marks-order_by}
use interface.Query.Logs.{LogFilter, add_log_search, log_conditions, log_count, log_page}
use interface.Query.Logs.Columns

add_log_search-IsBound :
    (search : Text) (c : Conditions) → IsBound c → IsBound (add_log_search search c)
unfolding add_log_search
add_log_search-IsBound search c b = elim (Bool-cases (is_empty search)) [
  | inl nothing ↦ rw nothing b
  | inr something ↦ rw something (add-IsBound _ _ c refl b)
]

log_conditions-IsBound : (f : LogFilter) → IsBound (log_conditions f)
unfolding log_conditions IsBound clause
log_conditions-IsBound f = add_log_search-IsBound f.search _ (
    add_text-IsBound (ascii "node_name = ?") f.node _ refl (
      add_in-IsBound (ascii "logentry_type") f.types _ refl (
        add-IsBound (ascii "entry_time <= ?") _ _ refl
          (add-IsBound (ascii "entry_time >= ?") _ no_conditions refl refl))))

whitelist : IsWhitelist Columns.log_sort_columns (ascii "entry_time") (ascii "entry_time")
unfolding lookup text_dec ℕ_discrete
whitelist = (refl, (refl, (refl, (refl, tt))), refl)

-- Whatever a request asks for, the count and the page of the log hand the database as many values
-- as their text has placeholders.
pub logs-IsPlaced : (f : LogFilter) (p : Page) → IsPlaced (log_count f) × IsPlaced (log_page f p)
unfolding log_count log_page IsBound limit_clause limit_args
logs-IsPlaced f p =
    let c = log_conditions f in
    let ordering = order_by p.sort p.desc Columns.log_sort_columns (ascii "entry_time") in
    let bound : marks (clause c) ≡ length c.args = log_conditions-IsBound f in
    let unmarked : marks ordering ≡ 0 =
      marks-order_by p.sort (ascii "entry_time") (ascii "entry_time") p.desc
        Columns.log_sort_columns whitelist in
    (
      omega (arith, bound),
      omega (
        arith,
        bound,
        unmarked,
        marks-append Columns.log_select (clause c ++ (ordering ++ limit_clause)),
        marks-append (clause c) (ordering ++ limit_clause),
        marks-append ordering limit_clause,
        length-append c.args (limit_args p),
      ),
    )
