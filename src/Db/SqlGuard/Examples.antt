-- ===== src/Db/SqlGuard/Examples.antt =====
-- The guard on concrete queries.
use mathlib.Core.List.{Memᴰ}
use quest_test.Prelude.{◌≡◌, ◌≢◌, refl, ◌∷◌, [], ◌++◌, Text, chars, upper, join, List, map}
use quest_test.Db.SqlGuard.{
  ok, refused, accepted, executable_comment, one_statement, modifying, add_token, find_parts,
  tokens_of, require_read_only_sql, drop_semicolon,
}
use quest_test.Db.SqlGuard.Reading.{tokens_of-quoted, tokens_of-join}
use quest_test.Db.SqlGuard.Comments.{block_comment, tokens_of-Comment}
use quest_test.Db.SqlGuard.Refusals.{require_read_only_sql-prohibited, require_read_only_sql-words}
use quest_test.Db.SqlGuard.Queries.{
  require_read_only_sql-semicolon, require_read_only_sql-executable,
}
use quest_test.Db.SqlGuard.Accepting.{semicolon_end, require_read_only_sql-query}

select_accepted : require_read_only_sql (chars "SELECT * FROM t WHERE a = 'x;y' -- drop") ≡ accepted
unfolding require_read_only_sql
select_accepted = refl

update_refused :
    require_read_only_sql (chars "WITH a AS (SELECT 1) update t SET x = 1") ≡ refused modifying
unfolding require_read_only_sql
update_refused = refl

unterminated_quote :
    tokens_of (chars "SELECT 'abc") ≡ ok (map chars ("SELECT" ∷ "<quoted>" ∷ "ABC" ∷ []))
unfolding tokens_of
unterminated_quote = refl

abbrev select_update : Text
select_update = chars "SELECT a UPDATE b"

require_read_only_sql-prohibited_example : require_read_only_sql select_update ≢ accepted
unfolding tokens_of
require_read_only_sql-prohibited_example =
    require_read_only_sql-prohibited select_update
      (map chars ("SELECT" ∷ "A" ∷ "UPDATE" ∷ "B" ∷ [])) (chars "UPDATE") refl
      (Memᴰ.tail (Memᴰ.head refl)) (Memᴰ.tail (Memᴰ.tail (Memᴰ.head refl)))

abbrev delete_words : List Text
delete_words = map chars ("Delete" ∷ "from" ∷ "t" ∷ [])

require_read_only_sql-words_example :
    require_read_only_sql (join (chars " ") delete_words) ≢ accepted
unfolding tokens_of
require_read_only_sql-words_example =
    require_read_only_sql-words delete_words (chars "DELETE") refl
      (Memᴰ.tail (Memᴰ.tail (Memᴰ.head refl))) (Memᴰ.head refl)

require_read_only_sql-semicolon_example :
    require_read_only_sql (chars "SELECT a; SELECT 2;") ≡ refused one_statement
unfolding tokens_of
require_read_only_sql-semicolon_example =
    require_read_only_sql-semicolon (map chars ("SELECT" ∷ "a" ∷ [])) (chars " SELECT 2;")
      (chars "SELECT") (map chars ("2" ∷ ";" ∷ [])) refl refl

require_read_only_sql-executable_example :
    require_read_only_sql (chars "SELECT a /*M!50000 1 */ FROM t") ≡ refused executable_comment
unfolding quest_test.Db.SqlGuard.is_word_start quest_test.Db.SqlGuard.is_word_char
require_read_only_sql-executable_example =
    require_read_only_sql-executable (map chars ("SELECT" ∷ "a" ∷ [])) (chars "M!")
      (chars "50000 1 ") (chars " FROM t") refl (Memᴰ.tail (Memᴰ.head refl))

require_read_only_sql-query_example : require_read_only_sql (chars "show tables; -- all") ≡ accepted
unfolding tokens_of
require_read_only_sql-query_example =
    require_read_only_sql-query (chars "show") (map chars ("tables" ∷ [])) (chars "; -- all") refl
      (semicolon_end (chars " -- all") refl) (Memᴰ.tail (Memᴰ.tail (Memᴰ.head refl))) refl refl refl

tokens_of-quoted_example :
    tokens_of (0x27 ∷ (chars "DROP; --" ++ (0x27 ∷ chars " x")))
    ≡ add_token (chars "<quoted>") (tokens_of (chars " x"))
tokens_of-quoted_example = tokens_of-quoted (chars "DROP; --") (chars " x") refl refl

tokens_of-join_example : tokens_of (join (chars " ") delete_words) ≡ ok (map upper delete_words)
unfolding tokens_of
tokens_of-join_example = tokens_of-join delete_words refl

tokens_of-Comment_example : tokens_of (chars "/* DROP; ' */UPDATE") ≡ tokens_of (chars "UPDATE")
tokens_of-Comment_example =
    tokens_of-Comment (chars "/* DROP; ' */") (chars "UPDATE")
      (block_comment (chars " DROP; ' ") refl refl)
