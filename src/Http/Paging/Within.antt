-- ===== src/Http/Paging/Within.antt =====
-- What page a request may ask for.
use interface.Prelude.{
  ◌≡◌, sym, ◌∙◌, Bool, true, false, ◌||◌, some, List, arith, Bool-cases, Option-cases, inl, inr,
}
use interface.Prelude.Int.{ℤ, pos, ltb_ℤ, ◌≤ℤ◌}
use interface.Prelude.Result.{ok, Result-cases}
use interface.Prelude.Maps.{lookup}
use interface.Text.{Text, ascii, is_empty, text_dec}
use interface.Text.Trim.{trim_space}
use interface.Query.{Page}
use interface.Http.Params.{Readers, Values, get}
use interface.Http.Paging.{
  keys, sortable_names, allowed, before_colon, after_colon, read_limit, read_offset, read_direction,
  read_column, read_sort, parse_page, page,
}
use interface.Http.Paging.Sorted.{allowed-sortable_names, lookup-allowed}

-- A page of at least one row and at most `max_limit`, sorted by a name of the whitelist.
pub record IsWithin (max_limit : ℤ) (columns : List (Text × Text)) (p : Page) : Type 0 where
  pub at_least_one : pos 1 ≤ℤ p.limit
  pub at_most : p.limit ≤ℤ max_limit
  pub offset_from_zero : pos 0 ≤ℤ p.offset
  pub listed : (expr : Text) × (lookup text_dec p.sort columns ≡ some expr)

read_limit_lem :
    (s : Readers) (q : Values) (default max_limit limit : ℤ)
    → pos 1 ≤ℤ default
    → default ≤ℤ max_limit
    → read_limit s q default max_limit ≡ ok limit
    → (pos 1 ≤ℤ limit) × (limit ≤ℤ max_limit)
unfolding read_limit
read_limit_lem s q default max_limit limit one most h =
    elim (Bool-cases (is_empty (get q (ascii "limit")))) [
      | inl absent ↦ let e : limit ≡ default = ground arith in rw e (one, most)
      | inr present ↦ elim (Option-cases (s.atoi (get q (ascii "limit")))) [
        | inl bad_text ↦ absurd (ground arith)
        | inr (n, read) ↦ elim (Bool-cases (ltb_ℤ n (pos 1) || ltb_ℤ max_limit n)) [
          | inl outside ↦ absurd (ground arith)
          | inr inside ↦ let e : limit ≡ n = ground arith in rw e (ground arith, ground arith)
        ]
      ]
    ]

read_offset_lem :
    (s : Readers) (q : Values) (offset : ℤ) → read_offset s q ≡ ok offset → pos 0 ≤ℤ offset
unfolding read_offset
read_offset_lem s q offset h = elim (Bool-cases (is_empty (get q (ascii "offset")))) [
  | inl absent ↦ let e : offset ≡ pos 0 = ground arith in rw e (omega arith)
  | inr present ↦ elim (Option-cases (s.atoi (get q (ascii "offset")))) [
    | inl bad_text ↦ absurd (ground arith)
    | inr (n, read) ↦ elim (Bool-cases (ltb_ℤ n (pos 0))) [
      | inl below ↦ absurd (ground arith)
      | inr inside ↦ let e : offset ≡ n = ground arith in rw e (ground arith)
    ]
  ]
]

read_sort_lem :
    (s : Readers) (q : Values) (default : Text) (names : List Text) (sort : Text × Bool)
    → allowed default names ≡ true
    → read_sort s q default names ≡ ok sort
    → allowed sort.0 names ≡ true
read_sort_lem s q default names sort d h =
    let v = get q (ascii "sort") in
    elim (Bool-cases (is_empty v)) [
      | inl absent ↦ let e : sort ≡ (default, false) = unfold read_sort in ground arith in rw e d
      | inr present ↦
          elim (Result-cases (read_direction s q (s.to_lower (trim_space (after_colon v))))) [
            | inr (e, refused) ↦ absurd (unfold read_sort in ground arith)
            | inl (desc, direction) ↦
                elim (Bool-cases (allowed (trim_space (before_colon v)) names)) [
                  | inr unknown ↦ absurd (unfold read_sort read_column in ground arith)
                  | inl known ↦
                      let e : sort ≡ (trim_space (before_colon v), desc) =
                        unfold read_sort read_column in ground arith in
                      rw e known
                ]
          ]
    ]

-- A page that a request gets has at least one row and at most the configured number, starts at zero
-- or later, and is sorted by a name of the whitelist, so that no other column ever stands in its
-- text. The configured limits are in order, and the default name is one of the whitelist.
pub page-IsWithin :
    (s : Readers) (q : Values) (default_limit max_limit : ℤ) (default_sort : Text)
    (columns : List (Text × Text)) (p : Page)
    → pos 1 ≤ℤ default_limit
    → default_limit ≤ℤ max_limit
    → allowed default_sort (keys columns) ≡ true
    → page s q default_limit max_limit default_sort columns ≡ ok p
    → IsWithin max_limit columns p
unfolding page
page-IsWithin s q default_limit max_limit default_sort columns p one most d h =
    let names = sortable_names columns in
    elim (Result-cases (read_limit s q default_limit max_limit)) [
      | inr (e, refused) ↦ absurd (unfold parse_page in ground arith)
      | inl (limit, limited) ↦ elim (Result-cases (read_offset s q)) [
        | inr (e, refused) ↦ absurd (unfold parse_page in ground arith)
        | inl (offset, starts) ↦ elim (Result-cases (read_sort s q default_sort names)) [
          | inr (e, refused) ↦ absurd (unfold parse_page in ground arith)
          | inl (sort, sorted) ↦
              let (low, high) = read_limit_lem s q default_limit max_limit limit one most limited in
              let known : allowed sort.0 names ≡ true =
                read_sort_lem s q default_sort names sort
                  (allowed-sortable_names default_sort columns ∙ d) sorted in
              let built : p
                  ≡ record { limit = limit; offset = offset; sort = sort.0; desc = sort.1 } =
                unfold parse_page in ground arith in
              rw built (record {
                at_least_one = low;
                at_most = high;
                offset_from_zero = read_offset_lem s q offset starts;
                listed =
                    lookup-allowed sort.0 columns
                      (sym (allowed-sortable_names sort.0 columns) ∙ known);
              })
        ]
      ]
    ]
