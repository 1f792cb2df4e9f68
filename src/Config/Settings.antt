-- ===== src/Config/Settings.antt =====
-- config/settings.py: how the layers of the configuration are merged, and how single values are read.
-- The files and the environment variables are functions; `str()` of a value that is no string is
-- `show`, and whether a float is zero is `is_zero`.
pub mod Overrides
pub mod Merging
pub mod Layers
pub mod Production
pub mod Hosts
mod Examples
use quest_test.Prelude.{
  ℕ, Bool, true, false, not, ◌&&◌, ◌||◌, Option, none, some, List, [], ◌∷◌, ◌++◌, any, String, Text,
  chars, str_eq, text_eq, one_of, strip, lower, starts_with, contains, strip_right, if◌then◌else◌,
  ◌==◌, ℤ, pos, negsuc,
}
use quest_test.Effect.{Outcome, returned, raised}
use quest_test.Json.{
  Value, null, bool, int, float, str, arr, obj, Items, element, bracket, Fields, field, brace, get,
  get_or_null,
}

pub data SettingsError : Type 0 where
  file_missing : String → SettingsError
  root_not_object : String → SettingsError
  section_not_object : String → SettingsError
  not_boolean : Value → SettingsError
  no_host_list no_host_string no_bare_host : SettingsError
  no_item_assignment : String → SettingsError

abbrev pub Loaded : Type 0 → Type 0
Loaded A = Outcome SettingsError A

abbrev pub and_then : {A B : Type 0} → Loaded A → (A → Loaded B) → Loaded B
and_then (returned a) f = f a
and_then (raised e) f = raised e

-- `config[key] = value`
unfoldable pub set_key : String → Value → Fields → Fields
set_key key v brace = field key v brace
set_key key v (field j u fs) = if str_eq j key then field j v fs else field j u (set_key key v fs)

unfoldable mutual
  unfolding set_key get

  -- What `_deep_merge` puts under a key, from the value below and the value above.
  pub merge_value : Option Value → Value → Value
  merge_value (some (obj base)) (obj above) = obj (deep_merge base above)
  merge_value base (obj above) = obj above
  merge_value base null = null
  merge_value base (bool b) = bool b
  merge_value base (int n) = int n
  merge_value base (float t) = float t
  merge_value base (str s) = str s
  merge_value base (arr items) = arr items

  -- `_deep_merge`: the loop over the items of `override`, `result` being a copy of `base` at first
  pub deep_merge : Fields → Fields → Fields
  deep_merge result brace = result
  deep_merge result (field key v fs) =
      deep_merge (set_key key (merge_value (get key result) v) result) fs

-- A row of the table: the variable, the section and the key that it sets.
pub data Override : Type 0 where
  override : (variable section key : String) → Override

abbrev pub is_production : Value → Bool
is_production (str s) = text_eq s (chars "production")
is_production v = false

-- Whether the loop goes on to the next variable: a variable for the other environments.
unfoldable pub skips : Bool → String → Bool
skips production variable =
    starts_with (chars "AUTOMATION_TEST_ALLOWED_") (chars variable) && production
    || starts_with (chars "AUTOMATION_PRODUCTION_ALLOWED_") (chars variable) && not production

-- `config.setdefault(section, {})[key] = value`
unfoldable pub assign : String → String → Text → Option Value → Fields → Loaded Fields
unfolding set_key
assign section key value none config =
    returned (set_key section (obj (field key (str value) brace)) config)
assign section key value (some (obj fields)) config =
    returned (set_key section (obj (set_key key (str value) fields)) config)
assign section key value (some v) config = raised (no_item_assignment section)

unfoldable pub apply_value : String → String → Option Text → Fields → Loaded Fields
unfolding assign get
apply_value section key none config = returned config
apply_value section key (some value) config = assign section key value (get section config) config

-- `_apply_environment_overrides`
unfoldable pub apply_environment_overrides :
    (String → Option Text) → List Override → Fields → Loaded Fields
unfolding apply_value skips get_or_null
apply_environment_overrides getenv [] config = returned config
apply_environment_overrides getenv (override variable section key ∷ rows) config =
    and_then
      (if skips (is_production (get_or_null "environment" config)) variable
        then returned config
        else apply_value section key (getenv variable) config)
      (apply_environment_overrides getenv rows)

-- `_section`
abbrev pub object_of : String → Value → Loaded Fields
object_of name (obj fields) = returned fields
object_of name v = raised (section_not_object name)

unfoldable pub section_of : Fields → String → Loaded Fields
unfolding get_or_null
section_of config name = object_of name (get_or_null name config)

abbrev pub boolean_words : List Text
boolean_words = chars "1" ∷ chars "true" ∷ chars "yes" ∷ chars "on" ∷ []

abbrev pub false_words : List Text
false_words =
    [] ∷ chars "0" ∷ chars "false" ∷ chars "no" ∷ chars "off" ∷ chars "none" ∷ chars "null" ∷ []

abbrev pub is_int_zero : ℤ → Bool
is_int_zero (pos n) = n == 0
is_int_zero (negsuc n) = false

module _ (show : Value → Text) (is_zero : Text → Bool) where
  -- `str(value)`
  unfoldable pub text_of : Value → Text
  text_of (str s) = s
  text_of v = show v

  abbrev pub boolean_word : Value → Text → Loaded Bool
  boolean_word v normalized =
      if one_of boolean_words normalized
      then returned true
      else if one_of false_words normalized
      then returned false
      else raised (not_boolean v)

  -- `_to_boolean`
  unfoldable pub to_boolean : Value → Loaded Bool
  unfolding text_of
  to_boolean (bool b) = returned b
  to_boolean (int n) = returned (not (is_int_zero n))
  to_boolean v = boolean_word v (lower (strip (text_of v)))

  -- `_optional_string`
  abbrev pub none_if_empty : Text → Option Text
  none_if_empty [] = none
  none_if_empty (c ∷ s) = some (c ∷ s)

  unfoldable pub optional_string : Value → Option Text
  unfolding text_of
  optional_string null = none
  optional_string v = none_if_empty (strip (text_of v))

  -- `normalized[7:]`
  abbrev pub drop_chars : Text → Text → Text
  drop_chars [] s = s
  drop_chars (d ∷ p) [] = []
  drop_chars (d ∷ p) (c ∷ s) = drop_chars p s

  abbrev pub without_bearer : Option Text → Option Text
  without_bearer none = none
  without_bearer (some token) =
      if starts_with (chars "bearer ") (lower token)
      then none_if_empty (strip (drop_chars (chars "Bearer ") token))
      else some token

  -- `_normalize_auth_token`
  unfoldable pub normalize_auth_token : Value → Option Text
  unfolding optional_string
  normalize_auth_token v = without_bearer (optional_string v)

  abbrev pub is_falsy : Value → Bool
  is_falsy null = true
  is_falsy (bool b) = not b
  is_falsy (int n) = is_int_zero n
  is_falsy (float t) = is_zero t
  is_falsy (str s) = text_eq s []
  is_falsy (arr bracket) = true
  is_falsy (arr (element v items)) = false
  is_falsy (obj brace) = true
  is_falsy (obj (field k v fs)) = false

  abbrev pub root_of : String → Value → Loaded Fields
  root_of name (obj fields) = returned fields
  root_of name v = if is_falsy v then returned brace else raised (root_not_object name)

  -- `_read_yaml`, of a file with its decoded content
  unfoldable pub read_yaml : (String → Option Value) → String → Loaded Fields
  read_yaml files name = elim (files name) [
    | none ↦ raised (file_missing name)
    | some content ↦ root_of name content
  ]

  -- `if local_path.is_file(): ...`
  abbrev pub merge_local : Option Value → Fields → Loaded Fields
  unfolding deep_merge
  merge_local none merged = returned merged
  merge_local (some content) merged =
      and_then (root_of "production.local" content) (λ above. returned (deep_merge merged above))

  abbrev pub merge_if_production : String → (String → Option Value) → Fields → Loaded Fields
  unfolding merge_local
  merge_if_production environment files merged =
      if str_eq environment "production"
      then merge_local (files "production.local") merged
      else returned merged

  -- `load` up to `_to_settings`, of a selected environment
  unfoldable pub load_data :
      List Override → String → (String → Option Value) → (String → Option Text) → Loaded Fields
  unfolding read_yaml merge_if_production apply_environment_overrides
  load_data overrides environment files getenv = and_then (read_yaml files "default") (λ base.
      and_then (read_yaml files environment) (λ above.
        and_then (merge_if_production environment files (deep_merge base above)) (λ merged.
          apply_environment_overrides getenv overrides
            (set_key "environment" (str (chars environment)) merged))))

  abbrev pub text_or : Text → Option Value → Text
  unfolding text_of
  text_or default none = default
  text_or default (some v) = text_of v

  abbrev pub value_or : Value → Option Value → Value
  value_or default none = default
  value_or default (some v) = v

  -- `read_only` of `DatabaseSettings` in `_to_settings`, of the section `database`
  unfoldable pub read_only_of : Fields → Fields → Loaded Bool
  unfolding text_or to_boolean
  read_only_of config database =
      if text_eq (lower (strip (text_or (chars "test") (get "environment" config))))
        (chars "production")
      then returned true
      else to_boolean (value_or (bool false) (get "read_only" database))

-- `host.rstrip(".")`
abbrev pub without_dots : Text → Text
without_dots = strip_right (λ c. c == b'.')

unfoldable pub is_bare : Text → Bool
is_bare host =
    not (contains (chars "://") host) && not (any (λ c. any (λ d. c == d) host) (chars "/?#*[]:"))

-- `value.split(",")`, the first part apart from the others
unfoldable pub split_commas : Text → Text × List Text
split_commas [] = ([], [])
split_commas (c ∷ s) =
    let (part, parts) = split_commas s in
    if c == b',' then ([], part ∷ parts) else (c ∷ part, parts)

abbrev pub strings_of : Text × List Text → List Value
strings_of (part, []) = str part ∷ []
strings_of (part, p ∷ parts) = str part ∷ strings_of (p, parts)

abbrev pub values_of : Items → List Value
values_of bracket = []
values_of (element v items) = v ∷ values_of items

-- One round of the loop, `rest` being the others.
unfoldable pub add_host : Text → List Text → (List Text → Loaded (List Text)) → Loaded (List Text)
unfolding is_bare
add_host host hosts rest =
    if text_eq host []
    then rest hosts
    else if not (is_bare host)
    then raised no_bare_host
    else if one_of hosts host
    then rest hosts
    else rest (hosts ++ (host ∷ []))

-- The loop over the raw values.
unfoldable pub normalize_hosts : List Value → List Text → Loaded (List Text)
unfolding add_host
normalize_hosts [] hosts = returned hosts
normalize_hosts (str s ∷ vs) hosts =
    add_host (without_dots (lower (strip s))) hosts (λ kept. normalize_hosts vs kept)
normalize_hosts (v ∷ vs) hosts = raised no_host_string

-- `_host_list`
unfoldable pub host_list : Value → Loaded (List Text)
unfolding normalize_hosts split_commas
host_list null = returned []
host_list (str s) = normalize_hosts (strings_of (split_commas s)) []
host_list (arr items) = normalize_hosts (values_of items) []
host_list v = raised no_host_list
