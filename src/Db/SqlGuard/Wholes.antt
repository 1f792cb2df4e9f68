-- ===== src/Db/SqlGuard/Wholes.antt =====
-- Texts of words that the guard reads as a whole, and what stands behind them.
use quest_test.Prelude.{
  ◌≡◌, refl, ap, ◌∙◌, List, [], ◌∷◌, ◌++◌, append_assoc, map, true, all, Text, chars, upper, join,
  and_true,
}
use quest_test.Db.SqlGuard.{
  Checked, ok, refused, Refusal, is_word_char, word_head, word_tail, next_part, add_token,
  tokens_of,
}
use quest_test.Db.SqlGuard.Reading.{
  tokens-step, is_identifier, IsBreak, tokens_of-identifier, tokens_of-space, IsBreak-space,
}

-- Tokens read before others.
abbrev pub read_first : List Text → Checked (List Text) → Checked (List Text)
read_first [] r = r
read_first (t ∷ ts) r = add_token t (read_first ts r)

-- Words that single spaces separate, with anything behind them that does not go on with a word.
pub tokens_of-words :
    (ws : List Text) (rest : Text)
    → all is_identifier ws ≡ true
    → IsBreak rest
    → tokens_of (join (chars " ") ws ++ rest) ≡ read_first (map upper ws) (tokens_of rest)
tokens_of-words [] rest h b = refl
tokens_of-words (w ∷ []) rest h b = tokens_of-identifier w rest (and_true _ _ h).0 b
tokens_of-words (w ∷ v ∷ ws) rest h b =
    let (first, others) = and_true (is_identifier w) (all is_identifier (v ∷ ws)) h in
    let words = join (chars " ") (v ∷ ws) in
    ap tokens_of (append_assoc w (32 ∷ words) rest)
    ∙ tokens_of-identifier w (32 ∷ (words ++ rest)) first (IsBreak-space _)
    ∙ ap (add_token (upper w))
        (tokens_of-space (words ++ rest) ∙ tokens_of-words (v ∷ ws) rest others b)

pub read_first-refused : (ts : List Text) (r : Refusal) → read_first ts (refused r) ≡ refused r
read_first-refused [] r = refl
read_first-refused (t ∷ ts) r = rw (read_first-refused ts r)

pub read_first-ok : (ts us : List Text) → read_first ts (ok us) ≡ ok (ts ++ us)
read_first-ok [] us = refl
read_first-ok (t ∷ ts) us = rw (read_first-ok ts us)

pub IsBreak-semicolon : (s : Text) → IsBreak (b';' ∷ s)
unfolding word_head word_tail is_word_char
IsBreak-semicolon s = (refl, refl)

pub tokens_of-semicolon :
    (rest : Text) → tokens_of (b';' ∷ rest) ≡ add_token (chars ";") (tokens_of rest)
tokens_of-semicolon rest = tokens-step b';' rest ∙ (unfold next_part in refl)
