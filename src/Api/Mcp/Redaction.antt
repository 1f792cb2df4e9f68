-- ===== src/Api/Mcp/Redaction.antt =====
-- `_sanitize_data`: a copy of the data of a JSON-RPC error without credentials. What a regular
-- expression replaces is the parameter `sub`. The case of letters is folded in ASCII, and keys are
-- texts.
use quest_test.Prelude.{
  ◌≡◌, refl, Bool, true, false, ◌||◌, List, [], ◌∷◌, map, String, Text, chars, one_of, any, lower,
  starts_with, ◌==◌, if◌then◌else◌, replace_char,
}
use quest_test.Json.{
  Value, null, bool, int, float, str, arr, obj, Items, bracket, element, Fields, brace, field,
}
use mathlib.Core.List.{reverse}

-- The compiled patterns of the module.
pub data Pattern : Type 0 where
  sensitive_field authorization_value bearer naf_mcp_token jwt session_value session_token : Pattern

unfoldable pub sensitive_data_keys : List Text
sensitive_data_keys =
    chars "authorization"
    ∷ chars "access_token"
    ∷ chars "api_key"
    ∷ chars "password"
    ∷ chars "refresh_token"
    ∷ chars "secret"
    ∷ chars "session_id"
    ∷ chars "session_token"
    ∷ chars "token"
    ∷ []

-- `key.replace("_", "")`
unfoldable pub compact : Text → Text
compact [] = []
compact (c ∷ s) = if c == b'_' then compact s else c ∷ compact s

abbrev pub ends_with_one_of : List Text → Text → Bool
ends_with_one_of suffixes s = any (λ suffix. starts_with (reverse suffix) (reverse s)) suffixes

-- `_is_sensitive_data_key`
unfoldable pub is_sensitive_data_key : Text → Bool
unfolding sensitive_data_keys compact
is_sensitive_data_key key =
    one_of sensitive_data_keys key
    || one_of (map compact sensitive_data_keys) (compact key)
    || starts_with (chars "authorization_") key
    || ends_with_one_of
        (chars "_token"
          ∷ chars "_secret"
          ∷ chars "_password"
          ∷ chars "_api_key"
          ∷ chars "_session_id"
          ∷ chars "_session_token"
          ∷ [])
        key

-- `str(key).casefold().replace("-", "_").replace(" ", "_")`
unfoldable pub normalize_key : String → Text
normalize_key key = map replace_char (lower (chars key))

module _ (sub : Pattern → Text → Text → Text) where
  -- `_sanitize_text`
  unfoldable pub sanitize_text : Text → Text
  sanitize_text value = sub session_token (chars "<redacted-session>") (
      sub session_value (chars "\\1<redacted-session>\\3") (
        sub jwt (chars "<redacted-jwt>") (
          sub naf_mcp_token (chars "<redacted-token>") (
            sub bearer (chars "\\1<redacted>") (
              sub authorization_value (chars "\\1<redacted>")
                (sub sensitive_field (chars "\\1<redacted>\\3") value))))))

  unfoldable mutual
    unfolding sanitize_text is_sensitive_data_key normalize_key

    -- `_sanitize_data`
    pub sanitize_data : Value → Value
    sanitize_data (str s) = str (sanitize_text s)
    sanitize_data (arr items) = arr (sanitize_items items)
    sanitize_data (obj fields) = obj (sanitize_fields fields)
    sanitize_data null = null
    sanitize_data (bool b) = bool b
    sanitize_data (int n) = int n
    sanitize_data (float t) = float t

    pub sanitize_items : Items → Items
    sanitize_items bracket = bracket
    sanitize_items (element v items) = element (sanitize_data v) (sanitize_items items)

    pub sanitize_fields : Fields → Fields
    sanitize_fields brace = brace
    sanitize_fields (field key v fields) =
        let sanitized = sanitize_data v in
        field key
          (if is_sensitive_data_key (normalize_key key)
            then str (chars "<redacted>")
            else sanitized)
          (sanitize_fields fields)

unfoldable mutual
  -- Every sensitive key has the value `<redacted>`, at any depth, and every other text is clean.
  pub Redacted : (Text → Type 0) → Value → Type 0
  Redacted Clean (str s) = Clean s
  Redacted Clean (arr items) = RedactedItems Clean items
  Redacted Clean (obj fields) = RedactedFields Clean fields
  Redacted Clean null = Unit
  Redacted Clean (bool b) = Unit
  Redacted Clean (int n) = Unit
  Redacted Clean (float t) = Unit

  pub RedactedItems : (Text → Type 0) → Items → Type 0
  RedactedItems Clean bracket = Unit
  RedactedItems Clean (element v items) = Redacted Clean v × RedactedItems Clean items

  pub RedactedFields : (Text → Type 0) → Fields → Type 0
  RedactedFields Clean brace = Unit
  RedactedFields Clean (field key v fields) =
      ((is_sensitive_data_key (normalize_key key) ≡ true) → v ≡ str (chars "<redacted>"))
      × ((is_sensitive_data_key (normalize_key key) ≡ false) → Redacted Clean v)
      × RedactedFields Clean fields

hidden_or_kept :
    (Clean : Text → Type 0) (b : Bool) (v : Value)
    → Redacted Clean v
    → (b ≡ true → (if b then str (chars "<redacted>") else v) ≡ str (chars "<redacted>"))
      × (b ≡ false → Redacted Clean (if b then str (chars "<redacted>") else v))
hidden_or_kept Clean true v r = (λ h. refl, λ h. cc)
hidden_or_kept Clean false v r = (λ h. cc, λ h. r)

module _ (sub : Pattern → Text → Text → Text) where
  -- A text that went through the patterns.
  pub Sanitized : Text → Type 0
  Sanitized s = (t : Text) × (s ≡ sanitize_text sub t)

  mutual
    unfolding sanitize_data Redacted Sanitized

    value-Redacted : (v : Value) → Redacted Sanitized (sanitize_data sub v)
    value-Redacted (str s) = (s, refl)
    value-Redacted (arr items) = items-Redacted items
    value-Redacted (obj fields) = fields-Redacted fields
    value-Redacted null = tt
    value-Redacted (bool b) = tt
    value-Redacted (int n) = tt
    value-Redacted (float t) = tt

    items-Redacted : (items : Items) → RedactedItems Sanitized (sanitize_items sub items)
    items-Redacted bracket = tt
    items-Redacted (element v items) = (value-Redacted v, items-Redacted items)

    fields-Redacted : (fields : Fields) → RedactedFields Sanitized (sanitize_fields sub fields)
    fields-Redacted brace = tt
    fields-Redacted (field key v fields) =
        let (hidden, kept) =
          hidden_or_kept Sanitized (is_sensitive_data_key (normalize_key key)) (sanitize_data sub v)
            (value-Redacted v) in
        (hidden, kept, fields-Redacted fields)

  -- In the sanitized copy of any value, at any depth, a key that is sensitive has the value
  -- `<redacted>`, and every other text is the sanitized form of some text.
  pub sanitize_data-Redacted : (v : Value) → Redacted Sanitized (sanitize_data sub v)
  sanitize_data-Redacted v = value-Redacted v
