-- ===== src/Config/Settings/Merging.antt =====
-- What stands under a key after assignments and merges.
use quest_test.Prelude.{
  ◌≡◌, refl, sym, ap, ◌∙◌, Bool, true, false, Option, none, some, String, str_eq, eq_iff,
  if◌then◌else◌, Bool-cases, inl, inr,
}
use quest_test.Json.{Value, Fields, field, brace, get}
use quest_test.Config.Settings.{set_key, merge_value, deep_merge}

pub str_eq_sound : (s t : String) → str_eq s t ≡ true → s ≡ t
str_eq_sound s t h = (eq_iff s t).0 h

pub str_eq_refl : (s : String) → str_eq s s ≡ true
str_eq_refl s = (eq_iff s s).1 refl

collapse :
    (b : Bool) (p q r : Option Value) → (if b then p else q) ≡ (if b then p else if b then r else q)
collapse true p q r = refl
collapse false p q r = refl

swap :
    (i j k : String) (a b : Bool) (p q r : Option Value)
    → str_eq i j ≡ false
    → str_eq i k ≡ a
    → str_eq j k ≡ b
    → (if a then p else if b then q else r) ≡ (if b then q else if a then p else r)
swap i j k true true p q r e ha hb =
    let same : i ≡ j = str_eq_sound i k ha ∙ sym (str_eq_sound j k hb) in
    absurd (apart (str_eq i j) (ap (λ x. str_eq i x) (sym same) ∙ str_eq_refl i) e)
  where
    apart : (c : Bool) → c ≡ true → c ≡ false → ⊥
    apart true h e = cc
    apart false h e = cc
swap i j k true false p q r e ha hb = refl
swap i j k false true p q r e ha hb = refl
swap i j k false false p q r e ha hb = refl

-- Reading a key after an assignment.
pub get-set_key :
    (j k : String) (v : Value) (fs : Fields)
    → get k (set_key j v fs) ≡ (if str_eq j k then some v else get k fs)
unfolding get set_key
get-set_key j k v brace = refl
get-set_key j k v (field i u fs) = elim (Bool-cases (str_eq i j)) [
  | inl e ↦ rw e (rw (str_eq_sound i j e) (collapse (str_eq j k) (some v) (get k fs) (some u)))
  | inr e ↦
      rw (e, get-set_key j k v fs)
        (swap i j k (str_eq i k) (str_eq j k) (some u) (some v) (get k fs) e refl refl)
]

-- No key twice, as in a Python `dict`.
unfoldable pub DistinctKeys : Fields → Type 0
DistinctKeys brace = Unit
DistinctKeys (field k v fs) = (get k fs ≡ none) × DistinctKeys fs

-- What the higher layer leaves of the value below it.
abbrev pub layered : Option Value → Option Value → Option Value
layered below none = below
layered below (some v) = some (merge_value below v)

layered-first :
    (j k : String) (v : Value) (base fs : Fields)
    → get j fs ≡ none
    → layered (if str_eq j k then some (merge_value (get j base) v) else get k base) (get k fs)
      ≡ layered (get k base) (if str_eq j k then some v else get k fs)
layered-first j k v base fs absent = elim (Bool-cases (str_eq j k)) [
  | inl e ↦
      let same = str_eq_sound j k e in
      let gone : get k fs ≡ none = rw same at absent in rw (e, gone, same) refl
  | inr e ↦ rw e refl
]

-- After a merge, every key of the result, at the top level, has the value of the higher layer
-- where that has the key, merged with the one below if both are objects, and otherwise the value
-- of the lower layer; the higher layer has no key twice.
pub deep_merge-get :
    (base above : Fields) (k : String)
    → DistinctKeys above
    → get k (deep_merge base above) ≡ layered (get k base) (get k above)
unfolding deep_merge get DistinctKeys
deep_merge-get base brace k distinct = refl
deep_merge-get base (field j v fs) k (absent, distinct) =
    deep_merge-get (set_key j (merge_value (get j base) v) base) fs k distinct
    ∙ ap (λ o. layered o (get k fs)) (get-set_key j k (merge_value (get j base) v) base)
    ∙ layered-first j k v base fs absent
