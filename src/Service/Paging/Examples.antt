-- ===== src/Service/Paging/Examples.antt =====
-- A traversal of two pages.
use quest_test.Prelude.{
  ℕ, zero, suc, ◌≡◌, refl, Bool, true, false, Option, [], ◌∷◌, Text, chars, ℤ, pos,
}
use quest_test.Effect.{returned}
use quest_test.Json.{
  Value, null, bool, int, str, arr, obj, element, bracket, Fields, field, brace, get, get_or_null,
}
use quest_test.Service.Paging.{ToolPage, Traversal, complete, Read, traverse, items_of}
use quest_test.Service.Paging.Endings.{Whole, traverse-Whole}

abbrev is_zero : Text → Bool
is_zero t = false

abbrev float_is : Text → ℤ → Bool
float_is t n = false

abbrev row : ℕ → Fields
row n = field "id" (int (pos n)) brace

abbrev page_of : ℕ → Value → Bool → ToolPage
page_of n next truncated = record {
  data' =
      field "items" (arr (element (obj (row n)) bracket))
        (field "returned_count" (int (pos 1)) brace);
  meta = field "next_cursor" next (field "truncated" (bool truncated) brace);
}

abbrev first_page : ToolPage
first_page = page_of 1 (str (chars "c")) true

abbrev last_page : ToolPage
last_page = page_of 2 null false

abbrev fetch : ℕ → Option Text → Read ToolPage
fetch zero cursor = returned first_page
fetch (suc n) cursor = returned last_page

abbrev both_pages : Traversal
both_pages = record {
  rows = row 1 ∷ row 2 ∷ [];
  pages = first_page ∷ last_page ∷ [];
  issues = [];
  termination = complete;
  blocked_by = [];
}

two_pages : traverse is_zero float_is 5 false fetch 3 ≡ returned both_pages
unfolding traverse items_of get get_or_null
two_pages = refl

traverse-Whole_example : Whole 3 both_pages
traverse-Whole_example = traverse-Whole is_zero float_is 5 false fetch 3 both_pages two_pages
