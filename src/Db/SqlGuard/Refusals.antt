-- ===== src/Db/SqlGuard/Refusals.antt =====
-- What the read-only guard refuses, whatever else the query holds.
use mathlib.Core.List.{map, Memᴰ}
use mathlib.Core.Bool.{false≢true}
use quest_test.Prelude.{
  or_false, false_of_any, ◌∙◌, ◌≡◌, ◌≢◌, inl, inr, refl, sym, List, [], ◌∷◌, Bool, true, false, not,
  ◌||◌, arith, if◌then◌else◌, any, all, Text, chars, text_eq, text_eq_sound, text_eq_refl, one_of,
  contains, contains-join, join, Bool-cases, any_of_mem, upper,
}
use quest_test.Db.SqlGuard.{
  accepted, non_query, modifying, Checked, ok, refused, one_statement, drop_semicolon,
  read_only_controls, query_verbs, prohibited, locking_phrases, head_in, check_tokens, tokens_of,
  require_read_only_sql, is_nil,
}
use quest_test.Db.SqlGuard.Reading.{is_identifier, tokens_of-join}

-- The words that change data.
abbrev pub changing : List Text
changing = map chars (
    "INSERT" ∷ "UPDATE" ∷ "DELETE" ∷ "REPLACE" ∷ "CREATE" ∷ "ALTER" ∷ "DROP" ∷ "TRUNCATE" ∷ "GRANT"
    ∷ "REVOKE" ∷ "CALL" ∷ "INTO" ∷ "OUTFILE" ∷ "DUMPFILE" ∷ "GET_LOCK" ∷ "RELEASE_LOCK"
    ∷ "RELEASE_ALL_LOCKS" ∷ [])

-- No control statement holds a prohibited word or a semicolon.
controls_are_clean : any (λ p. any (contains p) read_only_controls) (chars ";" ∷ prohibited) ≡ false
controls_are_clean = refl

not_one_of :
    (n p : Text) (cs : List Text)
    → contains p n ≡ true
    → any (contains p) cs ≡ false
    → one_of cs n ≡ false
not_one_of n p [] h clean = refl
not_one_of n p (c ∷ cs) h clean =
    let (apart, others) = or_false (contains p c) (any (contains p) cs) clean in
    elim (Bool-cases (text_eq n c)) [
      | inl same ↦ absurd (false≢true (sym apart ∙ (rw (text_eq_sound n c same) at h)))
      | inr other ↦ rw other (not_one_of n p cs h others)
    ]

pub one_of_mem : (p : Text) (ps : List Text) → Memᴰ p ps → one_of ps p ≡ true
one_of_mem p ps m = any_of_mem (λ o. text_eq p o) p ps m (text_eq_refl p)

not_control :
    (ts : List Text) (p : Text)
    → Memᴰ p (chars ";" ∷ prohibited)
    → Memᴰ p ts
    → one_of read_only_controls (join (chars " ") ts) ≡ false
not_control ts p bad held =
    not_one_of (join (chars " ") ts) p read_only_controls
      (contains-join p (chars " ") ts (one_of_mem p ts held))
      (false_of_any (λ q. any (contains q) read_only_controls) p (chars ";" ∷ prohibited) bad
        controls_are_clean)

-- The guard's conditions, as variables.
modifying_refused :
    (empty control verb banned phrase : Bool)
    → control ≡ false
    → banned ≡ true
    → (if empty
        then refused one_statement
        else if control
        then accepted
        else if not verb
        then refused non_query
        else if banned || phrase
        then refused modifying
        else accepted)
      ≢ accepted
modifying_refused empty control verb banned phrase h k = ground arith

check_tokens-prohibited :
    (ts : List Text) (p : Text) → Memᴰ p prohibited → Memᴰ p ts → check_tokens ts ≢ accepted
unfolding check_tokens
check_tokens-prohibited ts p bad held =
    modifying_refused (is_nil ts || one_of ts (chars ";"))
      (one_of read_only_controls (join (chars " ") ts)) (head_in query_verbs ts)
      (any (one_of prohibited) ts)
      (any (λ phrase. contains phrase (join (chars " ") ts)) locking_phrases)
      (not_control ts p (Memᴰ.tail bad) held)
      (any_of_mem (one_of prohibited) p ts held (one_of_mem p prohibited bad))

semicolon_refused :
    (empty semicolon : Bool) (rest : Checked (Unit {0}))
    → semicolon ≡ true
    → (if empty || semicolon then refused one_statement else rest) ≡ refused one_statement
semicolon_refused empty semicolon rest h = ground arith

pub check_tokens-semicolon :
    (ts : List Text) → Memᴰ (chars ";") ts → check_tokens ts ≡ refused one_statement
unfolding check_tokens
check_tokens-semicolon ts held =
    semicolon_refused (is_nil ts) (one_of ts (chars ";")) _ (one_of_mem (chars ";") ts held)

-- Dropping a last semicolon drops no other token.
mem-drop_semicolon :
    (p : Text) (ts : List Text)
    → text_eq p (chars ";") ≡ false
    → Memᴰ p ts
    → Memᴰ p (drop_semicolon ts)
unfolding drop_semicolon
mem-drop_semicolon p [] other m = elim m [ ]
mem-drop_semicolon p (t ∷ []) other (Memᴰ.head e) =
    let kept : text_eq t (chars ";") ≡ false = rw e at other in rw kept (Memᴰ.head e)
mem-drop_semicolon p (t ∷ []) other (Memᴰ.tail m) = elim m [ ]
mem-drop_semicolon p (t ∷ u ∷ ts) other (Memᴰ.head e) = Memᴰ.head e
mem-drop_semicolon p (t ∷ u ∷ ts) other (Memᴰ.tail m) =
    Memᴰ.tail (mem-drop_semicolon p (u ∷ ts) other m)

prohibited-ne-semicolon : any (λ p. text_eq p (chars ";")) prohibited ≡ false
prohibited-ne-semicolon = refl

-- A query with a word that changes data among its tokens, INSERT, UPDATE, DELETE, REPLACE, CREATE,
-- ALTER, DROP, TRUNCATE, GRANT, REVOKE, CALL, INTO, OUTFILE, DUMPFILE or a function for a lock, is
-- refused, whatever else it holds.
pub require_read_only_sql-prohibited :
    (query : Text) (ts : List Text) (p : Text)
    → tokens_of query ≡ ok ts
    → Memᴰ p changing
    → Memᴰ p ts
    → require_read_only_sql query ≢ accepted
unfolding require_read_only_sql
require_read_only_sql-prohibited query ts p read bad held = rw read (
    check_tokens-prohibited (drop_semicolon ts) p bad (
      mem-drop_semicolon p ts
        (false_of_any (λ q. text_eq q (chars ";")) p prohibited bad prohibited-ne-semicolon) held))

-- Words separated by single spaces, one of which is in any mix of cases a word that changes data:
-- refused.
pub require_read_only_sql-words :
    (ws : List Text) (p : Text)
    → all is_identifier ws ≡ true
    → Memᴰ p changing
    → Memᴰ p (map upper ws)
    → require_read_only_sql (join (chars " ") ws) ≢ accepted
require_read_only_sql-words ws p words bad held =
    require_read_only_sql-prohibited (join (chars " ") ws) (map upper ws) p
      (tokens_of-join ws words) bad held
