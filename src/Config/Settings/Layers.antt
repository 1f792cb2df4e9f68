-- ===== src/Config/Settings/Layers.antt =====
-- What can be read out of merged layers, at any depth.
use quest_test.Prelude.{
  ◌≡◌, refl, ap, ◌∙◌, Bool, true, false, Bool-cases, inl, inr, Option, none, some, String, str_eq,
  List, [], ◌∷◌, ◌⊎◌, subst, if◌then◌else◌,
}
use mathlib.Core.Bool.{false≢true}
use quest_test.Json.{Value, null, bool, int, float, str, arr, obj, Fields, field, brace, get}
use quest_test.Config.Settings.{merge_value, deep_merge}
use quest_test.Config.Settings.Merging.{DistinctKeys, layered, deep_merge-get}

-- No object holds a key twice, at any depth below other objects.
unfoldable pub AllDistinct : Fields → Type 0
AllDistinct brace = Unit
AllDistinct (field k (obj inner) fields) =
    (get k fields ≡ none) × AllDistinct inner × AllDistinct fields
AllDistinct (field k v fields) = (get k fields ≡ none) × Unit × AllDistinct fields

-- The value at the end of a path of keys, if it is there and is no object.
unfoldable pub leaf_at : List String → Option Value → Option Value
leaf_at path none = none
leaf_at [] (some (obj fields)) = none
leaf_at (k ∷ path) (some (obj fields)) = leaf_at path (get k fields)
leaf_at [] (some v) = some v
leaf_at (k ∷ path) (some v) = none

-- Following the path leads, through objects alone, to a key that is missing.
unfoldable pub is_silent : List String → Option Value → Bool
is_silent path none = true
is_silent [] (some v) = false
is_silent (k ∷ path) (some (obj fields)) = is_silent path (get k fields)
is_silent (k ∷ path) (some v) = false

get_inv :
    (j k : String) (v u : Value) (fields : Fields)
    → get k (field j v fields) ≡ some u
    → (v ≡ u) ⊎ (get k fields ≡ some u)
unfolding get
get_inv j k v u fields h = elim (Bool-cases (str_eq j k)) [
  | inl e ↦ let found : some v ≡ some u = (rw e at h) in inl (some_inv v u found)
  | inr e ↦ inr (rw e at h)
]
  where
    some_inv : (x y : Value) → some x ≡ some y → x ≡ y
    some_inv x y h = cc

-- Of an object under a key of an object.
AllDistinct-get :
    (fields : Fields) (k : String) (inner : Fields)
    → AllDistinct fields
    → get k fields ≡ some (obj inner)
    → AllDistinct inner
unfolding AllDistinct get
AllDistinct-get brace k inner d h = cc
AllDistinct-get (field j v fields) k inner d h = elim (get_inv j k v (obj inner) fields h) [
  | inl same ↦ (subst (λ x. AllDistinct (field j x fields)) same d).1
  | inr found ↦ AllDistinct-get fields k inner (later j v fields d) found
]
  where
    later :
        (j : String) (v : Value) (fields : Fields)
        → AllDistinct (field j v fields)
        → AllDistinct fields
    later j (obj x) fields d = d.2
    later j null fields d = d.2
    later j (bool b) fields d = d.2
    later j (int n) fields d = d.2
    later j (float t) fields d = d.2
    later j (str t) fields d = d.2
    later j (arr a) fields d = d.2

AllDistinct-DistinctKeys : (fields : Fields) → AllDistinct fields → DistinctKeys fields
unfolding AllDistinct DistinctKeys
AllDistinct-DistinctKeys brace d = tt
AllDistinct-DistinctKeys (field k (obj x) fields) d = (d.0, AllDistinct-DistinctKeys fields d.2)
AllDistinct-DistinctKeys (field k null fields) d = (d.0, AllDistinct-DistinctKeys fields d.2)
AllDistinct-DistinctKeys (field k (bool b) fields) d = (d.0, AllDistinct-DistinctKeys fields d.2)
AllDistinct-DistinctKeys (field k (int n) fields) d = (d.0, AllDistinct-DistinctKeys fields d.2)
AllDistinct-DistinctKeys (field k (float t) fields) d = (d.0, AllDistinct-DistinctKeys fields d.2)
AllDistinct-DistinctKeys (field k (str t) fields) d = (d.0, AllDistinct-DistinctKeys fields d.2)
AllDistinct-DistinctKeys (field k (arr a) fields) d = (d.0, AllDistinct-DistinctKeys fields d.2)

-- What a path reads in two layers: the lower one where the upper one is silent.
abbrev pub read_layers : List String → (below above : Option Value) → Option Value
read_layers path below above =
    if is_silent path above then leaf_at path below else leaf_at path above

-- A silent layer reads as nothing.
silent_reads_none :
    (path : List String) (v : Option Value) → is_silent path v ≡ true → leaf_at path v ≡ none
unfolding is_silent leaf_at
silent_reads_none path none h = refl
silent_reads_none (k ∷ path) (some (obj fields)) h = silent_reads_none path (get k fields) h
silent_reads_none [] (some v) h = absurd (false≢true h)
silent_reads_none (k ∷ path) (some null) h = refl
silent_reads_none (k ∷ path) (some (bool b)) h = refl
silent_reads_none (k ∷ path) (some (int n)) h = refl
silent_reads_none (k ∷ path) (some (float t)) h = refl
silent_reads_none (k ∷ path) (some (str t)) h = refl
silent_reads_none (k ∷ path) (some (arr a)) h = refl

-- Below an object that replaces what is no object, the lower layer has nothing to read.
replaced_reads :
    (path : List String) (below : Option Value) (above : Fields)
    → ((k : String) (rest : List String) → leaf_at (k ∷ rest) below ≡ none)
    → leaf_at path (some (obj above)) ≡ read_layers path below (some (obj above))
unfolding is_silent leaf_at
replaced_reads [] below above bare = refl
replaced_reads (k ∷ path) below above bare = elim (Bool-cases (is_silent path (get k above))) [
  | inl e ↦ rw (e, bare k path) (silent_reads_none path (get k above) e)
  | inr e ↦ rw e
]

-- A value that is no object is never silent.
speaks :
    (path : List String) (v : Value)
    → ((fields : Fields) → v ≡ obj fields → ⊥)
    → is_silent path (some v) ≡ false
unfolding is_silent
speaks [] v plain = refl
speaks (k ∷ path) (obj fields) plain = absurd (plain fields refl)
speaks (k ∷ path) null plain = refl
speaks (k ∷ path) (bool b) plain = refl
speaks (k ∷ path) (int n) plain = refl
speaks (k ∷ path) (float t) plain = refl
speaks (k ∷ path) (str t) plain = refl
speaks (k ∷ path) (arr a) plain = refl

merged_value_reads :
    (path : List String)
    → ((below above : Fields)
        → AllDistinct above
        → leaf_at path (some (obj (deep_merge below above)))
          ≡ read_layers path (some (obj below)) (some (obj above)))
    → (below : Option Value) (v : Value) → ((inner : Fields) → v ≡ obj inner → AllDistinct inner)
    → leaf_at path (some (merge_value below v)) ≡ read_layers path below (some v)
unfolding merge_value leaf_at is_silent
merged_value_reads path ih (some (obj below)) (obj above) d = ih below above (d above refl)
merged_value_reads path ih none (obj above) d = replaced_reads path none above (λ k rest. refl)
merged_value_reads path ih (some null) (obj above) d =
    replaced_reads path (some null) above (λ k rest. refl)
merged_value_reads path ih (some (bool b)) (obj above) d =
    replaced_reads path (some (bool b)) above (λ k rest. refl)
merged_value_reads path ih (some (int n)) (obj above) d =
    replaced_reads path (some (int n)) above (λ k rest. refl)
merged_value_reads path ih (some (float t)) (obj above) d =
    replaced_reads path (some (float t)) above (λ k rest. refl)
merged_value_reads path ih (some (str t)) (obj above) d =
    replaced_reads path (some (str t)) above (λ k rest. refl)
merged_value_reads path ih (some (arr a)) (obj above) d =
    replaced_reads path (some (arr a)) above (λ k rest. refl)
merged_value_reads path ih below null d = rw (speaks path null (λ fields h. cc))
merged_value_reads path ih below (bool b) d = rw (speaks path (bool b) (λ fields h. cc))
merged_value_reads path ih below (int n) d = rw (speaks path (int n) (λ fields h. cc))
merged_value_reads path ih below (float t) d = rw (speaks path (float t) (λ fields h. cc))
merged_value_reads path ih below (str t) d = rw (speaks path (str t) (λ fields h. cc))
merged_value_reads path ih below (arr a) d = rw (speaks path (arr a) (λ fields h. cc))

layered_reads :
    (path : List String)
    → ((below above : Fields)
        → AllDistinct above
        → leaf_at path (some (obj (deep_merge below above)))
          ≡ read_layers path (some (obj below)) (some (obj above)))
    → (below above : Option Value)
    → ((inner : Fields) → above ≡ some (obj inner) → AllDistinct inner)
    → leaf_at path (layered below above) ≡ read_layers path below above
layered_reads path ih below none d = unfold is_silent in refl
layered_reads path ih below (some v) d =
    merged_value_reads path ih below v (λ inner h. d inner (ap some h))

-- Any path of keys reads in the merged layers what it reads in the higher one, unless that one has
-- nothing on it: if following the path there leads, through objects alone, to a missing key, it reads
-- what it reads in the lower one. To read is to find a value that is no object; the higher layer has
-- no key twice in one object.
pub deep_merge-leaf_at :
    (path : List String) (below above : Fields)
    → AllDistinct above
    → leaf_at path (some (obj (deep_merge below above))) ≡ (
        if is_silent path (some (obj above))
        then leaf_at path (some (obj below))
        else leaf_at path (some (obj above)))
unfolding leaf_at is_silent
deep_merge-leaf_at [] below above d = refl
deep_merge-leaf_at (k ∷ path) below above d =
    ap (leaf_at path) (deep_merge-get below above k (AllDistinct-DistinctKeys above d))
    ∙ layered_reads path (deep_merge-leaf_at path) (get k below) (get k above)
        (λ inner found. AllDistinct-get above k inner d found)
