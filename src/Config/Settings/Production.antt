-- ===== src/Config/Settings/Production.antt =====
-- The read-only protection of the production environment.
use quest_test.Prelude.{
  ◌≡◌, refl, sym, ap, ◌∙◌, Bool, true, false, and_true, Option, none, some, List, [], ◌∷◌, all,
  String, Text, chars, str_eq, not, not-true, if◌then◌else◌,
}
use quest_test.Effect.{returned, raised}
use quest_test.Json.{
  Value, null, bool, int, float, str, arr, obj, Fields, field, brace, get, get_or_null,
}
use quest_test.Config.Settings.{
  Loaded, and_then, set_key, deep_merge, Override, override, is_production, skips, assign,
  apply_value, apply_environment_overrides, read_yaml, merge_if_production, load_data, text_of,
  read_only_of,
}
use quest_test.Config.Settings.Overrides.{environment_overrides}
use quest_test.Config.Settings.Merging.{get-set_key, str_eq_refl}

and_then-returned :
    {A B : Type 0} (m : Loaded A) (f : A → Loaded B) (b : B)
    → and_then m f ≡ returned b
    → (a : A) × (m ≡ returned a) × (f a ≡ returned b)
and_then-returned (returned a) f b h = (a, refl, h)
and_then-returned (raised e) f b h = cc

same_config : (a b : Fields) → ◌≡◌ {A = Loaded Fields} (returned a) (returned b) → a ≡ b
same_config a b h = cc

-- Whether a row of the table leaves a top-level key alone.
abbrev pub spares : String → Override → Bool
spares name (override variable section key) = not (str_eq section name)

module _ (name : String) where
  assign-get :
      (section key : String) (value : Text) (old : Option Value) (config after : Fields)
      → str_eq section name ≡ false
      → assign section key value old config ≡ returned after
      → get name after ≡ get name config
  unfolding assign
  assign-get section key value none config after e h =
      rw
        (
          sym (same_config _ after h),
          get-set_key section name (obj (field key (str value) brace)) config,
          e,
        )
        refl
  assign-get section key value (some (obj fields)) config after e h =
      rw
        (
          sym (same_config _ after h),
          get-set_key section name (obj (set_key key (str value) fields)) config,
          e,
        )
        refl
  assign-get section key value (some null) config after e h = cc
  assign-get section key value (some (bool b)) config after e h = cc
  assign-get section key value (some (int n)) config after e h = cc
  assign-get section key value (some (float t)) config after e h = cc
  assign-get section key value (some (str s)) config after e h = cc
  assign-get section key value (some (arr a)) config after e h = cc

  apply_value-get :
      (section key : String) (value : Option Text) (config after : Fields)
      → str_eq section name ≡ false
      → apply_value section key value config ≡ returned after
      → get name after ≡ get name config
  unfolding apply_value
  apply_value-get section key none config after e h =
      ap (get name) (sym (same_config config after h))
  apply_value-get section key (some value) config after e h =
      assign-get section key value (get section config) config after e h

  step-get :
      (skipped : Bool) (section key : String) (value : Option Text) (config after : Fields)
      → str_eq section name ≡ false
      → (if skipped then returned config else apply_value section key value config) ≡ returned after
      → get name after ≡ get name config
  step-get true section key value config after e h =
      ap (get name) (sym (same_config config after h))
  step-get false section key value config after e h =
      apply_value-get section key value config after e h

  -- Overrides leave every top-level key alone that is no section of theirs.
  pub apply_environment_overrides-get :
      (getenv : String → Option Text) (rows : List Override) (config after : Fields)
      → all (spares name) rows ≡ true
      → apply_environment_overrides getenv rows config ≡ returned after
      → get name after ≡ get name config
  unfolding apply_environment_overrides
  apply_environment_overrides-get getenv [] config after ok h =
      ap (get name) (sym (same_config config after h))
  apply_environment_overrides-get getenv (override variable section key ∷ rows) config after ok h =
      let (spared, others) = and_true (not (str_eq section name)) (all (spares name) rows) ok in
      let (next, stepped, rest) =
        and_then-returned _ (apply_environment_overrides getenv rows) after h in
      apply_environment_overrides-get getenv rows next after others rest
      ∙ step-get (skips (is_production (get_or_null "environment" config)) variable) section key
          (getenv variable) config next (not-true (str_eq section name) spared) stepped

-- No row of the table is of a section named `environment`.
overrides-spare : all (spares "environment") environment_overrides ≡ true
unfolding environment_overrides
overrides-spare = refl

module _ (show : Value → Text) (is_zero : Text → Bool) where
  load_data-environment :
      (environment : String) (files : String → Option Value) (getenv : String → Option Text)
      (config : Fields)
      → load_data show is_zero environment_overrides environment files getenv ≡ returned config
      → get "environment" config ≡ some (str (chars environment))
  unfolding load_data
  load_data-environment environment files getenv config h =
      let (base, h0, rest0) =
        and_then-returned (read_yaml show is_zero files "default") _ config h in
      let (above, h1, rest1) =
        and_then-returned (read_yaml show is_zero files environment) _ config rest0 in
      let (merged, h2, rest2) =
        and_then-returned
          (merge_if_production show is_zero environment files (deep_merge base above)) _ config
          rest1 in
      apply_environment_overrides-get "environment" getenv environment_overrides
        (set_key "environment" (str (chars environment)) merged) config overrides-spare rest2
      ∙ get-set_key "environment" "environment" (str (chars environment)) merged
      ∙ ap (λ b. if b then some (str (chars environment)) else get "environment" merged)
          (str_eq_refl "environment")

  -- Whatever the files and the environment variables say, the configuration that `load` makes for
  -- the environment `production` has a read-only database, whatever its database section is.
  pub load_data-production :
      (files : String → Option Value) (getenv : String → Option Text) (config database : Fields)
      → load_data show is_zero environment_overrides "production" files getenv ≡ returned config
      → read_only_of show is_zero config database ≡ returned true
  unfolding read_only_of text_of
  load_data-production files getenv config database h =
      rw (load_data-environment "production" files getenv config h) refl
