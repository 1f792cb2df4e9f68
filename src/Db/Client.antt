-- ===== src/Db/Client.antt =====
-- db/client.py, from `_cleanup_during_error` on: `DatabaseTransaction` and `DatabaseClient`. The
-- driver is outside: each call on a connection or a cursor is logged, and a script answers it.
pub mod Silent
pub mod ReadOnly
pub mod Traces
mod Examples
use quest_test.Prelude.{
  ℕ, suc, ◌++◌, List, [], ◌∷◌, Option, none, some, Bool, true, false, if◌then◌else◌, length, String,
  Text, chars, str_eq, text_eq, ◌||◌, ◌==◌,
}
use quest_test.Effect.{Outcome, returned, raised, Action, pure, raise, try_except, ◌>>=◌, ◌>>◌}
use quest_test.Db.SqlGuard.{Checked, ok, refused, Refusal, require_read_only_sql}

-- A row as a driver returns it: a mapping, an object with `keys()`, or a plain sequence.
pub data Row (V : Type 0) : Type 0 where
  mapping keyed : List (String × V) → Row V
  plain : List V → Row V

pub data Call (V : Type 0) : Type 0 where
  connect cursor fetchone fetchall close_cursor commit rollback close : Call V
  execute : Text → Option (List V) → Call V

pub data Error : Type 0 where
  driver : ℕ → Error
  permission : Refusal → Error
  value_error runtime_error : Error

-- What the driver does at a call: it raises, or goes on with rows for a later fetch to return.
pub data Reply (V : Type 0) : Type 0 where
  fails : ℕ → Reply V
  answers : List (Row V) → Reply V

pub record World (V : Type 0) : Type 0 where
  pub log : List (Call V)
  pub script : ℕ → Reply V
  pub description : Option (List String)
  pub rowcount : ℕ
  pub lastrowid : Option ℕ

pub record ExecutionResult : Type 0 where
  pub rowcount : ℕ
  pub lastrowid : Option ℕ

abbrev pub Db : Type 0 → Type 0 → Type 0
Db V A = Action (World V) Error A

module _ {V : Type 0} where
  abbrev reply_of : Reply V → Outcome Error (List (Row V))
  reply_of (fails n) = raised (driver n)
  reply_of (answers rows) = returned rows

  -- One call of the driver: logged, whatever comes of it.
  unfoldable pub call : Call V → Db V (List (Row V))
  call c w = (reply_of (w.script (length w.log)), record w { log = w.log ++ (c ∷ []) })

  -- `try: cleanup() except BaseException: pass`
  unfoldable pub cleanup_during_error : Db V (List (Row V)) → Db V (List (Row V))
  cleanup_during_error cleanup = try_except cleanup (λ _. pure [])

  abbrev pub leave :
      {A : Type 0} → Db V (List (Row V)) → Outcome Error A × World V → Outcome Error A × World V
  leave cleanup (returned a, w) = (cleanup >> pure a) w
  leave cleanup (raised e, w) = (cleanup_during_error cleanup >> raise e) w

  -- `with _cleanup_after(cleanup): body`
  unfoldable pub cleanup_after : {A : Type 0} → Db V (List (Row V)) → Db V A → Db V A
  unfolding cleanup_during_error
  cleanup_after cleanup body w = leave cleanup (body w)

  -- A later value replaces an earlier one of the same key, at the earlier one's place.
  dict_set : String → V → List (String × V) → List (String × V)
  dict_set k v [] = (k, v) ∷ []
  dict_set k v ((j, u) ∷ d) = if str_eq j k then (k, v) ∷ d else (j, u) ∷ dict_set k v d

  -- `dict(zip(names, row, strict=True))`; `none` where the lengths differ.
  dict_zip : List (String × V) → List String → List V → Option (List (String × V))
  unfolding dict_set
  dict_zip d [] [] = some d
  dict_zip d (k ∷ names) (v ∷ row) = dict_zip (dict_set k v d) names row
  dict_zip d _ _ = none

  abbrev pub or_value_error : {A : Type 0} → Option A → Db V A
  or_value_error none = raise value_error
  or_value_error (some a) = pure a

  -- `_to_mapping`
  unfoldable pub to_mapping : Row V → Db V (List (String × V))
  unfolding dict_zip
  to_mapping (mapping d) w = (returned d, w)
  to_mapping (keyed d) w = (returned d, w)
  to_mapping (plain row) w =
      or_value_error (elim w.description [ none ↦ none | some names ↦ dict_zip [] names row ]) w

  unfoldable pub to_mappings : List (Row V) → Db V (List (List (String × V)))
  unfolding to_mapping
  to_mappings [] = pure []
  to_mappings (r ∷ rows) = do d ← to_mapping r; ds ← to_mappings rows; pure (d ∷ ds)

  abbrev pub allow : Checked (Unit {0}) → Db V (Unit {0})
  allow (ok _) = pure tt
  allow (refused r) = raise (permission r)

  -- `_execute_cursor`
  unfoldable pub execute_cursor : Bool → Text → Option (List V) → Db V (List (Row V))
  execute_cursor read_only query parameters = do
    (if read_only then allow (require_read_only_sql query) else pure tt)
    call (execute query parameters)

  unfoldable pub first_row : List (Row V) → Db V (Option (List (String × V)))
  first_row [] = pure none
  first_row (r ∷ rows) = do d ← to_mapping r; pure (some d)

  -- `DatabaseTransaction.execute`
  unfoldable pub transaction_execute : Bool → Text → Option (List V) → Db V ExecutionResult
  transaction_execute read_only query parameters = do
    call cursor
    cleanup_after (call close_cursor) do
      execute_cursor read_only query parameters
      λ w. (returned (record { rowcount = w.rowcount; lastrowid = w.lastrowid }), w)

  -- `DatabaseTransaction.fetch_one`
  unfoldable pub transaction_fetch_one :
      Bool → Text → Option (List V) → Db V (Option (List (String × V)))
  unfolding to_mapping first_row
  transaction_fetch_one read_only query parameters = do
    call cursor
    cleanup_after (call close_cursor)
        do execute_cursor read_only query parameters; rows ← call fetchone; first_row rows

  -- `DatabaseTransaction.fetch_all`
  unfoldable pub transaction_fetch_all :
      Bool → Text → Option (List V) → Db V (List (List (String × V)))
  unfolding to_mappings
  transaction_fetch_all read_only query parameters = do
    call cursor
    cleanup_after (call close_cursor)
        do execute_cursor read_only query parameters; rows ← call fetchall; to_mappings rows

pub record Client (V : Type 0) : Type 0 where
  pub connection_factory : Db V (List (Row V))
  pub read_only : Bool

module _ {V : Type 0} (client : Client V) where
  -- `DatabaseClient.transaction` around a body
  unfoldable pub transaction : {A : Type 0} → Db V A → Db V A
  transaction body = do
    client.connection_factory
    cleanup_after (call close) (
        try_except (do a ← body; (if client.read_only then call rollback else call commit); pure a)
          (λ e. cleanup_during_error (call rollback) >> raise e))

  -- `DatabaseClient.execute`
  unfoldable pub client_execute : Text → Option (List V) → Db V ExecutionResult
  client_execute query parameters =
      transaction (transaction_execute client.read_only query parameters)

  -- `DatabaseClient.fetch_one`
  unfoldable pub fetch_one : Text → Option (List V) → Db V (Option (List (String × V)))
  fetch_one query parameters = do
    client.connection_factory
    cleanup_after (call close) (transaction_fetch_one client.read_only query parameters)

  -- `DatabaseClient.fetch_all`
  unfoldable pub fetch_all : Text → Option (List V) → Db V (List (List (String × V)))
  fetch_all query parameters = do
    client.connection_factory
    cleanup_after (call close) (transaction_fetch_all client.read_only query parameters)

abbrev pub is_empty : Text → Bool
is_empty [] = true
is_empty (c ∷ s) = false

-- The fields of `DatabaseSettings` that choose and guard a connection.
pub record DatabaseSettings : Type 0 where
  pub driver : Text
  pub host : Text
  pub port : ℕ
  pub name : Text
  pub username : Text
  pub compress : Bool
  pub read_only : Bool

module _ {V : Type 0} (settings : DatabaseSettings) where
  -- the factory of the `sqlite` branch
  unfoldable pub sqlite_factory : Db V (List (Row V))
  sqlite_factory = do
    call connect
    (if settings.read_only then call (execute (chars "PRAGMA query_only = ON") none) else pure [])

  unfoldable pub hide_error : Error → Db V (List (Row V))
  hide_error e = raise runtime_error

  -- the factory of the `mysql` branch
  unfoldable pub mysql_factory : Db V (List (Row V))
  unfolding hide_error
  mysql_factory = do
    (if settings.compress then try_except (call connect) hide_error else call connect)
    (if settings.read_only
        then try_except
            (do
              call cursor
              cleanup_after (call close_cursor)
                  (call (execute (chars "SET SESSION TRANSACTION READ ONLY") none)))
            (λ e. cleanup_during_error (call close) >> raise e)
        else pure [])

  -- `DatabaseClient.from_settings`; `none` is its `ValueError`.
  unfoldable pub from_settings : Option (Client V)
  unfolding sqlite_factory mysql_factory
  from_settings =
      if text_eq settings.driver (chars "sqlite")
      then some (record { connection_factory = sqlite_factory; read_only = settings.read_only })
      else if text_eq settings.driver (chars "mysql")
      then (if is_empty settings.host
            || settings.port == 0
            || is_empty settings.name
            || is_empty settings.username
          then none
          else some (record { connection_factory = mysql_factory; read_only = settings.read_only }))
      else none
