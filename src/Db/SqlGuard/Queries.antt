-- ===== src/Db/SqlGuard/Queries.antt =====
-- Whole queries that the guard refuses: two statements, and a comment that the server runs.
use mathlib.Core.List.{map, Memᴰ}
use quest_test.Prelude.{
  ap, ◌++◌, ◌∙◌, ◌≡◌, refl, List, [], ◌∷◌, true, all, Text, chars, join, upper,
}
use quest_test.Db.SqlGuard.{
  ok, refused, one_statement, executable_comment, drop_semicolon, tokens_of, require_read_only_sql,
  and_check, add_token,
}
use quest_test.Db.SqlGuard.Reading.{is_identifier, IsBreak-space, tokens_of-space}
use quest_test.Db.SqlGuard.Refusals.{one_of_mem, check_tokens-semicolon}
use quest_test.Db.SqlGuard.Wholes.{
  read_first, tokens_of-words, read_first-refused, read_first-ok, IsBreak-semicolon,
  tokens_of-semicolon,
}
use quest_test.Db.SqlGuard.Comments.{marks, tokens_of-executable}

-- A semicolon that a token follows is not dropped.
inner_semicolon :
    (front : List Text) (t : Text) (back : List Text)
    → Memᴰ (chars ";") (drop_semicolon (front ++ (chars ";" ∷ t ∷ back)))
unfolding drop_semicolon
inner_semicolon [] t back = Memᴰ.head refl
inner_semicolon (a ∷ []) t back = Memᴰ.tail (inner_semicolon [] t back)
inner_semicolon (a ∷ b ∷ front) t back = Memᴰ.tail (inner_semicolon (b ∷ front) t back)

pub semicolon_tokens :
    (ws : List Text) (rest : Text) (ts : List Text)
    → all is_identifier ws ≡ true
    → tokens_of rest ≡ ok ts
    → tokens_of (join (chars " ") ws ++ (b';' ∷ rest)) ≡ ok (map upper ws ++ (chars ";" ∷ ts))
semicolon_tokens ws rest ts words read =
    tokens_of-words ws (b';' ∷ rest) words (IsBreak-semicolon rest)
    ∙ ap (read_first (map upper ws)) (tokens_of-semicolon rest ∙ ap (add_token (chars ";")) read)
    ∙ read_first-ok (map upper ws) (chars ";" ∷ ts)

-- Words, a semicolon and a text that holds any token: refused as more than one statement.
pub require_read_only_sql-semicolon :
    (ws : List Text) (rest t : Text) (ts : List Text)
    → all is_identifier ws ≡ true
    → tokens_of rest ≡ ok (t ∷ ts)
    → require_read_only_sql (join (chars " ") ws ++ (b';' ∷ rest)) ≡ refused one_statement
unfolding require_read_only_sql
require_read_only_sql-semicolon ws rest t ts words read =
    ap and_check (semicolon_tokens ws rest (t ∷ ts) words read)
    ∙ check_tokens-semicolon (drop_semicolon (map upper ws ++ (chars ";" ∷ t ∷ ts)))
        (inner_semicolon (map upper ws) t ts)

-- Words and then a block comment that begins with `!`, `M!` or `m!`: refused for it, whatever the
-- comment holds and whatever follows it.
pub require_read_only_sql-executable :
    (ws : List Text) (mark body rest : Text)
    → all is_identifier ws ≡ true
    → Memᴰ mark (chars "!" ∷ chars "M!" ∷ chars "m!" ∷ [])
    → require_read_only_sql
        (join (chars " ") ws ++ (chars " /*" ++ (mark ++ (body ++ (chars "*/" ++ rest)))))
      ≡ refused executable_comment
unfolding require_read_only_sql
require_read_only_sql-executable ws mark body rest words known =
    let inner = mark ++ (body ++ (chars "*/" ++ rest)) in
    ap and_check (
      tokens_of-words ws (chars " /*" ++ inner) words (IsBreak-space _)
      ∙ ap (read_first (map upper ws)) (
          tokens_of-space (chars "/*" ++ inner)
          ∙ tokens_of-executable mark body rest (one_of_mem mark marks known))
      ∙ read_first-refused (map upper ws) executable_comment)
