-- ===== src/Config/Settings/Examples.antt =====
-- Small configurations.
use quest_test.Prelude.{
  ◌≡◌, refl, [], ◌∷◌, true, false, none, some, Option, Bool, String, Text, chars, str_eq,
  if◌then◌else◌,
}
use quest_test.Effect.{returned}
use quest_test.Json.{Value, str, obj, Fields, field, brace, get}
use quest_test.Config.Settings.{
  deep_merge, load_data, read_only_of, host_list, normalize_auth_token,
}
use quest_test.Config.Settings.Overrides.{environment_overrides}
use quest_test.Config.Settings.Layers.{AllDistinct, leaf_at, is_silent, deep_merge-leaf_at}
use quest_test.Config.Settings.Production.{load_data-production}
use quest_test.Config.Settings.Hosts.{Hosts, host_list-Hosts}

abbrev show : Value → Text
show v = chars "None"

abbrev is_zero : Text → Bool
is_zero t = false

abbrev base : Fields
base =
    field "api" (obj (field "base_url" (str (chars "a")) brace)) (field "reports" (obj brace) brace)

abbrev above : Fields
above = field "api" (obj (field "auth_token" (str (chars "t")) brace)) brace

above_distinct : AllDistinct above
unfolding AllDistinct get
above_distinct = (refl, (refl, tt, tt), tt)

deep_merge-leaf_at_example :
    leaf_at ("api" ∷ "base_url" ∷ []) (some (obj (deep_merge base above))) ≡ some (str (chars "a"))
unfolding leaf_at is_silent get
deep_merge-leaf_at_example = deep_merge-leaf_at ("api" ∷ "base_url" ∷ []) base above above_distinct

-- A second prefix stays.
two_prefixes :
    normalize_auth_token show is_zero (str (chars "Bearer Bearer x")) ≡ some (chars "Bearer x")
unfolding normalize_auth_token
two_prefixes = refl

abbrev files : String → Option Value
files name = if str_eq name "production.local" then none else some (obj brace)

abbrev getenv : String → Option Text
getenv variable = if str_eq variable "AUTOMATION_DB_READ_ONLY" then some (chars "false") else none

abbrev production : Fields
production =
    field "environment" (str (chars "production"))
      (field "database" (obj (field "read_only" (str (chars "false")) brace)) brace)

production_loaded :
    load_data show is_zero environment_overrides "production" files getenv ≡ returned production
unfolding load_data environment_overrides
production_loaded = refl

load_data-production_example :
    read_only_of show is_zero production (field "read_only" (str (chars "false")) brace)
    ≡ returned true
load_data-production_example =
    load_data-production show is_zero files getenv production
      (field "read_only" (str (chars "false")) brace) production_loaded

abbrev two_hosts : Value
two_hosts = str (chars "A.example., b,a.example,")

hosts_read : host_list two_hosts ≡ returned (chars "a.example" ∷ chars "b" ∷ [])
unfolding host_list
hosts_read = refl

host_list-Hosts_example : Hosts (chars "a.example" ∷ chars "b" ∷ [])
host_list-Hosts_example = host_list-Hosts two_hosts (chars "a.example" ∷ chars "b" ∷ []) hosts_read
