-- ===== src/Service/Research/RunIds.antt =====
-- The format of a pipeline run id.
use quest_test.Prelude.{
  ℕ, ◌≡◌, ◌≤◌, refl, ap, ◌∙◌, sym, true, false, ◌&&◌, ◌||◌, Bool-cases, inl, inr, Option, some,
  none, Text, chars, [], ◌∷◌, ◌++◌, length, all, leb, ◌==◌, ==_iff, and_true, arith,
}
use quest_test.Service.Research.Values.{
  is_digit, is_hex, is_run_tail, is_run_number, drop_prefix, is_run_id,
}

-- `combo-`, a number that does not begin with zero, `-`, and sixteen hexadecimal digits.
pub record RunId (t : Text) : Type 0 where
  pub first : ℕ
  pub digits : Text
  pub mark : Text
  pub spelled : t ≡ chars "combo-" ++ (first ∷ (digits ++ (b'-' ∷ mark)))
  pub from_one : b'1' ≤ first
  pub to_nine : first ≤ b'9'
  pub number : all (λ c. leb b'0' c && leb c b'9') digits ≡ true
  pub sixteen : length mark ≡ 16
  pub hexadecimal : all (λ c. leb b'0' c && leb c b'9' || leb b'a' c && leb c b'f') mark ≡ true

drop_prefix_inv : (p s rest : Text) → drop_prefix p s ≡ some rest → s ≡ p ++ rest
unfolding drop_prefix
drop_prefix_inv [] s rest h = some_inv s rest h
  where
    some_inv : (a b : Text) → ◌≡◌ {A = Option Text} (some a) (some b) → a ≡ b
    some_inv a b e = cc
drop_prefix_inv (p ∷ ps) [] rest h = cc
drop_prefix_inv (p ∷ ps) (c ∷ s) rest h = elim (Bool-cases (p == c)) [
  | inl same ↦
      ap (λ x. x ∷ s) (sym ((==_iff p c).0 same))
      ∙ ap (λ x. p ∷ x) (drop_prefix_inv ps s rest (rw same at h))
  | inr other ↦ let impossible : none ≡ some rest = (rw other at h) in cc
]

is_run_tail_inv :
    (t : Text)
    → is_run_tail t ≡ true
    → (digits mark : Text) × (t ≡ digits ++ (b'-' ∷ mark))
      × (all is_digit digits ≡ true)
      × (length mark ≡ 16)
      × (all is_hex mark ≡ true)
unfolding is_run_tail
is_run_tail_inv [] h = ground arith
is_run_tail_inv (c ∷ t) h = elim (Bool-cases (is_digit c)) [
  | inl digit ↦
      let (digits, mark, spelled, number, sixteen, hex) = is_run_tail_inv t (rw digit at h) in
      (c ∷ digits, mark, ap (λ x. c ∷ x) spelled, rw (digit, number), sixteen, hex)
  | inr other ↦
      let tail : (c == b'-' && (length t == 16 && all is_hex t)) ≡ true = (rw other at h) in
      let (dash, more) = and_true (c == b'-') _ tail in
      let (long, hex) = and_true (length t == 16) _ more in
      ([], t, ap (λ x. x ∷ t) ((==_iff c b'-').0 dash), refl, (==_iff (length t) 16).0 long, hex)
]

number-RunId : (t rest : Text) → t ≡ chars "combo-" ++ rest → is_run_number rest ≡ true → RunId t
unfolding is_run_number
number-RunId t [] spelled h = ground arith
number-RunId t (c ∷ rest) spelled h =
    let (range, tail) = and_true (leb b'1' c && leb c b'9') _ h in
    let (low, high) = and_true (leb b'1' c) _ range in
    let (digits, mark, same, number, sixteen, hex) = is_run_tail_inv rest tail in
    record {
      first = c;
      digits = digits;
      mark = mark;
      spelled = spelled ∙ ap (λ x. chars "combo-" ++ (c ∷ x)) same;
      from_one = ground (arith, low);
      to_nine = ground (arith, high);
      number = number;
      sixteen = sixteen;
      hexadecimal = hex;
    }

pub is_run_id-RunId : (t : Text) → is_run_id t ≡ true → RunId t
unfolding is_run_id
is_run_id-RunId t h = split (drop_prefix (chars "combo-") t) refl h
  where
    split :
        (o : Option Text)
        → drop_prefix (chars "combo-") t ≡ o
        → elim o [ some rest ↦ is_run_number rest | none ↦ false ] ≡ true
        → RunId t
    split none e k = ground arith
    split (some rest) e k = number-RunId t rest (drop_prefix_inv (chars "combo-") t rest e) k
