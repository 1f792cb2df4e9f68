-- ===== src/Db/Client/ReadOnly.antt =====
-- A read-only client does not commit, and a query that the guard refuses never reaches the driver.
use quest_test.Prelude.{
  text_eq, chars, ◌||◌, ◌==◌, subst, ◌∙◌, ◌≡◌, refl, List, Bool, true, false, if◌then◌else◌, Text,
  Option, none, some,
}
use quest_test.Db.SqlGuard.{refused, Refusal, require_read_only_sql}
use quest_test.Db.Client.{
  is_empty, Call, commit, close, execute, Db, call, Client, transaction, client_execute, fetch_one,
  fetch_all, execute_cursor, transaction_execute, transaction_fetch_one, transaction_fetch_all,
  DatabaseSettings, from_settings, sqlite_factory, mysql_factory,
}
use quest_test.Db.Client.Silent.{
  Silent, silent_rules, Silent-cleanup_after, Silent-call, Silent-bind,
}

module _ {V : Type 0} where
  abbrev pub is_commit : Call V → Bool
  is_commit commit = true
  is_commit _ = false

  abbrev pub is_execute : Call V → Bool
  is_execute (execute query parameters) = true
  is_execute _ = false

  execute_cursor-Silent :
      (ro : Bool) (q : Text) (ps : Option (List V)) → Silent is_commit (execute_cursor ro q ps)
  unfolding execute_cursor
  execute_cursor-Silent ro q ps = search silent_rules

  transaction_execute-Silent :
      (ro : Bool) (q : Text) (ps : Option (List V)) → Silent is_commit (transaction_execute ro q ps)
  unfolding transaction_execute
  transaction_execute-Silent ro q ps = search (silent_rules, execute_cursor-Silent)

  transaction_fetch_one-Silent :
      (ro : Bool) (q : Text) (ps : Option (List V))
      → Silent is_commit (transaction_fetch_one ro q ps)
  unfolding transaction_fetch_one
  transaction_fetch_one-Silent ro q ps = search (silent_rules, execute_cursor-Silent) depth 8

  transaction_fetch_all-Silent :
      (ro : Bool) (q : Text) (ps : Option (List V))
      → Silent is_commit (transaction_fetch_all ro q ps)
  unfolding transaction_fetch_all
  transaction_fetch_all-Silent ro q ps = search (silent_rules, execute_cursor-Silent) depth 8

  module _ (client : Client V) (factory : Silent is_commit client.connection_factory) (q : Text)
      (ps : Option (List V)) where
    fetch_one-Silent : Silent is_commit (fetch_one client q ps)
    unfolding fetch_one
    fetch_one-Silent = Silent-bind is_commit client.connection_factory _ factory λ _.
        Silent-cleanup_after is_commit (call close) _ (Silent-call is_commit close refl)
          (transaction_fetch_one-Silent client.read_only q ps)

    fetch_all-Silent : Silent is_commit (fetch_all client q ps)
    unfolding fetch_all
    fetch_all-Silent = Silent-bind is_commit client.connection_factory _ factory λ _.
        Silent-cleanup_after is_commit (call close) _ (Silent-call is_commit close refl)
          (transaction_fetch_all-Silent client.read_only q ps)

  sqlite_factory-Silent :
      (settings : DatabaseSettings) → Silent is_commit (sqlite_factory {V = V} settings)
  unfolding sqlite_factory
  sqlite_factory-Silent settings = search silent_rules

  mysql_factory-Silent :
      (settings : DatabaseSettings) → Silent is_commit (mysql_factory {V = V} settings)
  unfolding mysql_factory
  mysql_factory-Silent settings = search silent_rules depth 8

  read_only_transaction-Silent :
      {A : Type 0} (client : Client V) (body : Db V A)
      → client.read_only ≡ true
      → Silent is_commit client.connection_factory
      → Silent is_commit body
      → Silent is_commit (transaction client body)
  unfolding transaction
  read_only_transaction-Silent client body ro kf kb = rw ro (search silent_rules depth 8)

module _ (V : Type 0) (settings : DatabaseSettings) where
  abbrev IsQuiet : Option (Client V) → Type 0
  IsQuiet none = Unit
  IsQuiet (some client) =
      Silent is_commit client.connection_factory × (client.read_only ≡ settings.read_only)

  chosen-IsQuiet :
      (sqlite mysql blank : Bool)
      → IsQuiet (
          if sqlite
          then some (record {
            connection_factory = sqlite_factory settings;
            read_only = settings.read_only;
          })
          else if mysql
          then (if blank
              then none
              else some (record {
                connection_factory = mysql_factory settings;
                read_only = settings.read_only;
              }))
          else none)
  chosen-IsQuiet true mysql blank = (sqlite_factory-Silent settings, refl)
  chosen-IsQuiet false true true = tt
  chosen-IsQuiet false true false = (mysql_factory-Silent settings, refl)
  chosen-IsQuiet false false blank = tt

  from_settings-IsQuiet : IsQuiet (from_settings settings)
  unfolding from_settings
  from_settings-IsQuiet =
      chosen-IsQuiet (text_eq settings.driver (chars "sqlite"))
        (text_eq settings.driver (chars "mysql"))
        (is_empty settings.host
          || settings.port == 0
          || is_empty settings.name
          || is_empty settings.username)

module _ {V : Type 0} where
  -- A client built from read-only settings never commits: not in `execute`, `fetch_one` or
  -- `fetch_all`, whatever the query and whatever the driver answers or raises at each call.
  pub read_only_client-Silent :
      (settings : DatabaseSettings) (client : Client V) (q : Text) (ps : Option (List V))
      → from_settings settings ≡ some client
      → settings.read_only ≡ true
      → Silent is_commit (client_execute client q ps)
        × Silent is_commit (fetch_one client q ps)
        × Silent is_commit (fetch_all client q ps)
  unfolding client_execute
  read_only_client-Silent settings client q ps built ro =
      let (factory, same) = subst (IsQuiet V settings) built (from_settings-IsQuiet V settings) in
      let mode : client.read_only ≡ true = same ∙ ro in
      (
        read_only_transaction-Silent client _ mode factory
            (transaction_execute-Silent client.read_only q ps),
        fetch_one-Silent client factory q ps,
        fetch_all-Silent client factory q ps,
      )

  module _ (q : Text) (r : Refusal) (refusal : require_read_only_sql q ≡ refused r)
      (ps : Option (List V)) where
    refused-Silent : Silent is_execute (execute_cursor true q ps)
    unfolding execute_cursor
    refused-Silent = record { at = λ w. rw refusal }

    -- A query that the guard refuses is not executed by any operation of a read-only transaction.
    pub refused_query-Silent :
        Silent is_execute (transaction_execute true q ps)
        × Silent is_execute (transaction_fetch_one true q ps)
        × Silent is_execute (transaction_fetch_all true q ps)
    unfolding transaction_execute transaction_fetch_one transaction_fetch_all
    refused_query-Silent = (
      search (silent_rules, refused-Silent) depth 8,
      search (silent_rules, refused-Silent) depth 8,
      search (silent_rules, refused-Silent) depth 8,
    )
