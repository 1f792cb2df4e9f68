-- ===== src/Service/Paging.antt =====
-- service/factor4_read_service.py: `_traverse`. What `read_tool_page(fetch(cursor))` gives for the
-- n-th request is the function `fetch`; whether a float is zero, and equals an integer, are
-- parameters.
pub mod Endings
mod Examples
use quest_test.Prelude.{
  ℕ, zero, suc, Bool, true, false, not, ◌&&◌, ◌||◌, Option, none, some, List, [], ◌∷◌, ◌++◌, String,
  Text, chars, text_eq, one_of, length, ltb, ◌==◌, if◌then◌else◌, ℤ, pos, negsuc,
}
use quest_test.Effect.{Outcome, returned, raised}
use quest_test.Json.{
  Value, null, bool, int, float, str, arr, obj, Items, element, bracket, Fields, field, brace, get,
  get_or_null,
}

-- `ReadPrecondition` and `ReadContractError`
pub data ReadError : Type 0 where
  precondition : Text → ReadError
  contract_error : String → ReadError

pub record ToolPage : Type 0 where
  pub data' : Fields
  pub meta : Fields

pub data Termination : Type 0 where
  complete invalid bounded blocked : Termination

-- `PageTraversal`
pub record Traversal : Type 0 where
  pub rows : List Fields
  pub pages : List ToolPage
  pub issues : List String
  pub termination : Termination
  pub blocked_by : List Text

-- What the loop keeps.
pub record Progress : Type 0 where
  pub rows : List Fields
  pub pages : List ToolPage
  pub issues : List String
  pub seen : List Text

abbrev pub Read : Type 0 → Type 0
Read A = Outcome ReadError A

abbrev pub keep_row : Value → Option (List Fields) → Option (List Fields)
keep_row (obj row) (some rows) = some (row ∷ rows)
keep_row _ _ = none

unfoldable pub rows_in : Items → Option (List Fields)
rows_in bracket = some []
rows_in (element v items) = let rest = rows_in items in keep_row v rest

abbrev pub rows_of_value : Value → Option (List Fields)
unfolding rows_in
rows_of_value (arr items) = rows_in items
rows_of_value v = none

-- `ToolPage.items`, with `none` for its contract error
unfoldable pub items_of : ToolPage → Option (List Fields)
unfolding rows_of_value get_or_null
items_of page = rows_of_value (get_or_null "items" page.data')

-- `issues.append(issue)` under a condition
abbrev pub note_if : Bool → String → Progress → Progress
note_if b issue s = if b then record s { issues = s.issues ++ (issue ∷ []) } else s

abbrev pub finish : Progress → Termination → List Text → Traversal
finish s termination blocked_by = record {
  rows = s.rows;
  pages = s.pages;
  issues = s.issues;
  termination = termination;
  blocked_by = blocked_by;
}

abbrev pub is_budget_code : Value → Bool
is_budget_code (str s) = text_eq s (chars "CATALOG_CURSOR_BUDGET_REACHED")
is_budget_code v = false

unfoldable pub is_budget_warning : Value → Bool
unfolding get_or_null
is_budget_warning (obj fields) = is_budget_code (get_or_null "code" fields)
is_budget_warning v = is_budget_code v

unfoldable pub any_budget_warning : Items → Bool
unfolding is_budget_warning
any_budget_warning bracket = false
any_budget_warning (element v items) = is_budget_warning v || any_budget_warning items

abbrev pub has_budget_warning : Value → Bool
unfolding any_budget_warning
has_budget_warning (arr items) = any_budget_warning items
has_budget_warning v = false

-- `value is b`
abbrev pub is_bool : Bool → Value → Bool
is_bool b (bool true) = b
is_bool b (bool false) = not b
is_bool b v = false

abbrev pub is_null : Value → Bool
is_null null = true
is_null v = false

abbrev pub is_absent : Option Value → Bool
is_absent none = true
is_absent (some v) = false

abbrev pub no_rows : List Fields → Bool
no_rows [] = true
no_rows (r ∷ rs) = false

module _ (is_zero : Text → Bool) (float_is : Text → ℤ → Bool) where
  -- `not value`
  unfoldable pub is_falsy : Value → Bool
  is_falsy null = true
  is_falsy (bool b) = not b
  is_falsy (int (pos n)) = n == 0
  is_falsy (int (negsuc n)) = false
  is_falsy (float t) = is_zero t
  is_falsy (str s) = text_eq s []
  is_falsy (arr bracket) = true
  is_falsy (arr (element v items)) = false
  is_falsy (obj brace) = true
  is_falsy (obj (field k v fs)) = false

  -- `value == count`
  unfoldable pub equals_count : ℕ → Value → Bool
  equals_count n (int (pos m)) = m == n
  equals_count n (bool true) = n == 1
  equals_count n (bool false) = n == 0
  equals_count n (float t) = float_is t (pos n)
  equals_count n v = false

  abbrev pub wrong_count : ℕ → Option Value → Bool
  unfolding equals_count
  wrong_count n none = false
  wrong_count n (some v) = not (equals_count n v)

  module _ (page_size : ℕ) (catalog_budget : Bool) (fetch : ℕ → Option Text → Read ToolPage) where
    abbrev pub Again : Type 0
    Again = Progress → Option Text → Read Traversal

    -- A further page, if the cursor is a new text and the page had rows.
    unfoldable pub go_on_with : Again → Progress → List Fields → Value → Read Traversal
    go_on_with again s items (str cursor) =
        if one_of s.seen cursor || no_rows items
        then raised (contract_error "pagination cursor loop or empty continuation page")
        else again (record s { seen = cursor ∷ s.seen }) (some cursor)
    go_on_with again s items v =
        raised (contract_error "pagination cursor loop or empty continuation page")

    abbrev pub ending : Value → Value → Termination
    ending next truncated = if is_null next && is_bool false truncated then complete else invalid

    -- After the declared budget was ruled out.
    unfoldable pub follow_cursor : Again → Progress → List Fields → Value → Value → Read Traversal
    unfolding go_on_with is_falsy
    follow_cursor again s items next truncated =
        if is_falsy next
        then returned (
            finish (note_if (not (is_null next)) "pagination:invalid_terminal_cursor" s)
              (ending next truncated) [])
        else go_on_with again s items next

    unfoldable pub visit : Again → Progress → ToolPage → List Fields → Read Traversal
    unfolding follow_cursor wrong_count has_budget_warning get get_or_null is_falsy
    visit again s page items =
        let next = get_or_null "next_cursor" page.meta in
        let truncated = get_or_null "truncated" page.meta in
        let s' =
          note_if (wrong_count (length items) (get "returned_count" page.data'))
            "pagination:returned_count"
            (note_if (ltb page_size (length items)) "pagination:limit_exceeded" s) in
        if catalog_budget && has_budget_warning (get_or_null "warnings" page.meta)
        then (let valid =
              is_bool true truncated
              && not (is_absent (get "next_cursor" page.meta))
              && is_null next in
            returned (
              finish (note_if (not valid) "pagination:budget_terminal_contract" s')
                (if valid then bounded else invalid) []))
        else follow_cursor again
            (note_if (not (is_bool (not (is_falsy next)) truncated))
              "pagination:truncated_cursor_mismatch" s')
            items next truncated

    abbrev pub add_page : Progress → ToolPage → List Fields → Progress
    add_page s page items = record s { rows = s.rows ++ items; pages = s.pages ++ (page ∷ []) }

    unfoldable pub with_items : Again → Progress → ToolPage → Option (List Fields) → Read Traversal
    unfolding visit
    with_items again s page none = raised (contract_error "business items must be an object array")
    with_items again s page (some items) = visit again (add_page s page items) page items

    abbrev pub stop_at : Progress → Text → Read Traversal
    stop_at s reason =
        if catalog_budget
        then returned (finish s blocked (reason ∷ []))
        else raised (precondition reason)

    unfoldable pub after_fetch : Again → Progress → Read ToolPage → Read Traversal
    unfolding with_items items_of
    after_fetch again s (raised (precondition reason)) = stop_at s reason
    after_fetch again s (raised (contract_error message)) = raised (contract_error message)
    after_fetch again s (returned page) = with_items again s page (items_of page)

    -- `for _ in range(max_pages)`, by the pages that are left
    unfoldable pub traverse_loop : (left n : ℕ) → Progress → Option Text → Read Traversal
    unfolding after_fetch
    traverse_loop zero n s cursor =
        stop_at s
          (chars "BLOCKED_DATA_PRECONDITION: traversal safety cap reached; not a complete read")
    traverse_loop (suc left) n s cursor =
        after_fetch (traverse_loop left (suc n)) s (fetch n cursor)

    -- `_traverse`
    unfoldable pub traverse : ℕ → Read Traversal
    unfolding traverse_loop
    traverse max_pages =
        traverse_loop max_pages 0 (record { rows = []; pages = []; issues = []; seen = [] }) none
