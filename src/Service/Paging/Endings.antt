-- ===== src/Service/Paging/Endings.antt =====
-- What a traversal that returns holds, and when it may call itself complete.
use quest_test.Prelude.{
  ℕ, zero, suc, ◌+◌, ◌≤◌, ◌≡◌, refl, sym, ap, ◌∙◌, subst, Bool, true, false, not, ◌&&◌, ◌||◌,
  Option, none, some, List, [], ◌∷◌, ◌++◌, append_assoc, append-nil, String, Text, length,
  length-append, if◌then◌else◌, if_ind, arith, ℤ, one_of, ltb,
}
use quest_test.Effect.{returned, raised}
use quest_test.Json.{Value, null, bool, int, float, str, arr, obj, Fields, get, get_or_null}
use quest_test.Service.Paging.{
  precondition, contract_error, ToolPage, Termination, complete, invalid, bounded, blocked,
  Traversal, Progress, Read, items_of, note_if, finish, is_null, is_bool, no_rows, is_falsy,
  wrong_count, go_on_with, follow_cursor, visit, add_page, with_items, stop_at, after_fetch,
  traverse_loop, traverse, Again, has_budget_warning,
}

abbrev pub or_empty : Option (List Fields) → List Fields
or_empty none = []
or_empty (some rows) = rows

-- The rows of all the pages, in order.
unfoldable pub collected : List ToolPage → List Fields
collected [] = []
collected (page ∷ pages) = or_empty (items_of page) ++ collected pages

collected-append :
    (pages : List ToolPage) (page : ToolPage)
    → collected (pages ++ (page ∷ [])) ≡ collected pages ++ or_empty (items_of page)
unfolding collected
collected-append [] page = append-nil (or_empty (items_of page))
collected-append (p ∷ pages) page =
    ap (λ rows. or_empty (items_of p) ++ rows) (collected-append pages page)
    ∙ sym (append_assoc (or_empty (items_of p)) (collected pages) (or_empty (items_of page)))

-- The last page says that nothing follows: it is not truncated and has no cursor.
pub record Ended (pages : List ToolPage) : Type 0 where
  pub front : List ToolPage
  pub last : ToolPage
  pub split : pages ≡ front ++ (last ∷ [])
  pub not_truncated : is_bool false (get_or_null "truncated" last.meta) ≡ true
  pub no_cursor : is_null (get_or_null "next_cursor" last.meta) ≡ true

-- What a result promises: at most `most` pages, their rows and no others, and if it is called
-- complete, that the last page is the end.
pub record Whole (most : ℕ) (t : Traversal) : Type 0 where
  pub rows : t.rows ≡ collected t.pages
  pub at_most : length t.pages ≤ most
  pub ended : t.termination ≡ complete → Ended t.pages

abbrev pub Promise : ℕ → Read Traversal → Type 0
Promise most r = (t : Traversal) → r ≡ returned t → Whole most t

-- The progress after `n` pages.
record Sound (n : ℕ) (s : Progress) : Type 0 where
  rows : s.rows ≡ collected s.pages
  count : length s.pages ≡ n

same_traversal : (a b : Traversal) → ◌≡◌ {A = Read Traversal} (returned a) (returned b) → a ≡ b
same_traversal a b h = cc

note_if-Sound :
    (n : ℕ) (b : Bool) (issue : String) (s : Progress) → Sound n s → Sound n (note_if b issue s)
note_if-Sound n true issue s sound = record { rows = sound.rows; count = sound.count }
note_if-Sound n false issue s sound = sound

note_if-pages : (b : Bool) (issue : String) (s : Progress) → (note_if b issue s).pages ≡ s.pages
note_if-pages true issue s = refl
note_if-pages false issue s = refl

finish-Promise :
    (most n : ℕ) (s : Progress) (termination : Termination) (blocked_by : List Text)
    → Sound n s
    → n ≤ most
    → (termination ≡ complete → Ended s.pages)
    → Promise most (returned (finish s termination blocked_by))
finish-Promise most n s termination blocked_by sound le ended t h =
    subst (Whole most) (same_traversal _ t h)
      (record { rows = sound.rows; at_most = omega (arith, sound.count, le); ended = ended })

ending-complete :
    (a b : Bool) → (if a && b then complete else invalid) ≡ complete → (a ≡ true) × (b ≡ true)
ending-complete true true h = (refl, refl)
ending-complete true false h = cc
ending-complete false b h = cc

budget-incomplete : (b : Bool) → (if b then bounded else invalid) ≡ complete → ⊥
budget-incomplete true h = cc
budget-incomplete false h = cc

module _ (is_zero : Text → Bool) (float_is : Text → ℤ → Bool) (page_size : ℕ)
    (catalog_budget : Bool) (fetch : ℕ → Option Text → Read ToolPage) where
  abbrev Next : ℕ → ℕ → Again is_zero float_is page_size catalog_budget fetch → Type 0
  Next most n again =
      (s : Progress) → Sound n s → (cursor : Option Text) → Promise most (again s cursor)

  go_on_with-Promise :
      (most n : ℕ) (again : Again is_zero float_is page_size catalog_budget fetch) (s : Progress)
      (items : List Fields) (v : Value)
      → Sound n s
      → Next most n again
      → Promise most (go_on_with is_zero float_is page_size catalog_budget fetch again s items v)
  unfolding go_on_with
  go_on_with-Promise most n again s items (str cursor) sound next =
      if_ind (Promise most) (one_of s.seen cursor || no_rows items) (λ _. λ t h. cc)
        (λ _.
          next (record s { seen = cursor ∷ s.seen })
            (record { rows = sound.rows; count = sound.count }) (some cursor))
  go_on_with-Promise most n again s items null sound next = λ t h. cc
  go_on_with-Promise most n again s items (bool b) sound next = λ t h. cc
  go_on_with-Promise most n again s items (int m) sound next = λ t h. cc
  go_on_with-Promise most n again s items (float f) sound next = λ t h. cc
  go_on_with-Promise most n again s items (arr a) sound next = λ t h. cc
  go_on_with-Promise most n again s items (obj o) sound next = λ t h. cc

  follow_cursor-Promise :
      (most n : ℕ) (again : Again is_zero float_is page_size catalog_budget fetch) (s : Progress)
      (items : List Fields) (front : List ToolPage) (page : ToolPage)
      → Sound n s
      → s.pages ≡ front ++ (page ∷ [])
      → n ≤ most
      → Next most n again
      → Promise most (
          follow_cursor is_zero float_is page_size catalog_budget fetch again s items
            (get_or_null "next_cursor" page.meta)
            (get_or_null "truncated" page.meta))
  unfolding follow_cursor
  follow_cursor-Promise most n again s items front page sound split le next =
      if_ind (Promise most) (is_falsy is_zero float_is cursor)
        (λ _.
          finish-Promise most n noted _ [] (note_if-Sound n (not (is_null cursor)) _ s sound) le
            (λ h.
              let (none_left, whole) =
                ending-complete (is_null cursor) (is_bool false truncated) h in
              record {
                front = front;
                last = page;
                split = note_if-pages (not (is_null cursor)) _ s ∙ split;
                not_truncated = whole;
                no_cursor = none_left;
              }))
        (λ _. go_on_with-Promise most n again s items cursor sound next)
    where
      cursor : Value
      cursor = get_or_null "next_cursor" page.meta

      truncated : Value
      truncated = get_or_null "truncated" page.meta

      noted : Progress
      noted = note_if (not (is_null cursor)) "pagination:invalid_terminal_cursor" s

  visit-Promise :
      (most n : ℕ) (again : Again is_zero float_is page_size catalog_budget fetch) (s : Progress)
      (front : List ToolPage) (page : ToolPage) (items : List Fields)
      → Sound n s
      → s.pages ≡ front ++ (page ∷ [])
      → n ≤ most
      → Next most n again
      → Promise most (visit is_zero float_is page_size catalog_budget fetch again s page items)
  unfolding visit
  visit-Promise most n again s front page items sound split le next =
      if_ind (Promise most)
        (catalog_budget && has_budget_warning (get_or_null "warnings" page.meta))
        (λ _.
          finish-Promise most n _ _ [] (note_if-Sound n _ _ counted (counted-Sound)) le
            (λ h. absurd (budget-incomplete _ h)))
        (λ _.
          follow_cursor-Promise most n again _ items front page
            (note_if-Sound n _ _ counted counted-Sound)
            (note_if-pages _ _ counted ∙ note_if-pages _ _ limited ∙ note_if-pages _ _ s ∙ split) le
            next)
    where
      limited : Progress
      limited = note_if (ltb page_size (length items)) "pagination:limit_exceeded" s

      counted : Progress
      counted =
          note_if (wrong_count is_zero float_is (length items) (get "returned_count" page.data'))
            "pagination:returned_count" limited

      counted-Sound : Sound n counted
      counted-Sound = note_if-Sound n _ _ limited (note_if-Sound n _ _ s sound)

  stop_at-Promise :
      (most n : ℕ) (s : Progress) (reason : Text)
      → Sound n s
      → n ≤ most
      → Promise most (stop_at is_zero float_is page_size catalog_budget fetch s reason)
  stop_at-Promise most n s reason sound le =
      if_ind (Promise most) catalog_budget
        (λ _. finish-Promise most n s blocked (reason ∷ []) sound le (λ h. cc)) (λ _. λ t h. cc)

  with_items-Promise :
      (most n : ℕ) (again : Again is_zero float_is page_size catalog_budget fetch) (s : Progress)
      (page : ToolPage) (items : Option (List Fields))
      → items_of page ≡ items
      → Sound n s
      → suc n ≤ most
      → Next most (suc n) again
      → Promise most (with_items is_zero float_is page_size catalog_budget fetch again s page items)
  unfolding with_items
  with_items-Promise most n again s page none e sound le next = λ t h. cc
  with_items-Promise most n again s page (some items) e sound le next =
      visit-Promise most (suc n) again
        (add_page is_zero float_is page_size catalog_budget fetch s page items) s.pages page items
        (record {
          rows =
              ap (λ rows. rows ++ items) sound.rows
              ∙ ap (λ o. collected s.pages ++ or_empty o) (sym e)
              ∙ sym (collected-append s.pages page);
          count = omega (arith, length-append s.pages (page ∷ []), sound.count);
        })
        refl le next

  after_fetch-Promise :
      (most n : ℕ) (again : Again is_zero float_is page_size catalog_budget fetch) (s : Progress)
      (r : Read ToolPage)
      → Sound n s
      → suc n ≤ most
      → Next most (suc n) again
      → Promise most (after_fetch is_zero float_is page_size catalog_budget fetch again s r)
  unfolding after_fetch
  after_fetch-Promise most n again s (raised (precondition reason)) sound le next =
      stop_at-Promise most n s reason sound (omega (arith, le))
  after_fetch-Promise most n again s (raised (contract_error m)) sound le next = λ t h. cc
  after_fetch-Promise most n again s (returned page) sound le next =
      with_items-Promise most n again s page (items_of page) refl sound le next

  traverse_loop-Promise :
      (most left n : ℕ) (s : Progress) (cursor : Option Text)
      → Sound n s
      → n + left ≡ most
      → Promise most (traverse_loop is_zero float_is page_size catalog_budget fetch left n s cursor)
  unfolding traverse_loop
  traverse_loop-Promise most zero n s cursor sound e =
      stop_at-Promise most n s _ sound (omega (arith, e))
  traverse_loop-Promise most (suc left) n s cursor sound e =
      after_fetch-Promise most n _ s (fetch n cursor) sound (omega (arith, e)) (λ s' sound' cursor'.
        traverse_loop-Promise most left (suc n) s' cursor' sound' (omega (arith, e)))

  -- A traversal that returns read at most `max_pages` pages, and its rows are those of its pages, in
  -- order and none left out. If it calls itself complete, its last page is marked as not truncated
  -- and has no cursor to a further page.
  pub traverse-Whole :
      (max_pages : ℕ) (t : Traversal)
      → traverse is_zero float_is page_size catalog_budget fetch max_pages ≡ returned t
      → Whole max_pages t
  unfolding traverse collected
  traverse-Whole max_pages t h =
      traverse_loop-Promise max_pages max_pages 0
        (record { rows = []; pages = []; issues = []; seen = [] }) none
        (record { rows = refl; count = refl }) (omega arith) t h
