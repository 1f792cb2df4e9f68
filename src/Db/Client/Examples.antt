-- ===== src/Db/Client/Examples.antt =====
-- Transactions over small drivers.
use quest_test.Prelude.{ℕ, ◌≡◌, refl, [], true, false, none, chars, if◌then◌else◌, ◌==◌}
use quest_test.Effect.{returned, raised}
use quest_test.Db.SqlGuard.{modifying, require_read_only_sql}
use quest_test.Db.Client.{
  Call, connect, commit, rollback, close, execute, driver, Reply, fails, answers, World, call,
  Client, DatabaseSettings, from_settings, transaction, client_execute, fetch_one, fetch_all,
  transaction_execute, transaction_fetch_one, transaction_fetch_all, mysql_factory,
}
use quest_test.Db.Client.Silent.{Silent}
use quest_test.Db.Client.ReadOnly.{
  is_commit, is_execute, read_only_client-Silent, refused_query-Silent,
}
use quest_test.Db.Client.Traces.{
  after, transaction-raised, transaction-returned, transaction-commit_failed,
}

-- A driver that fails at the calls of one number.
abbrev fails_at : ℕ → ℕ → Reply ℕ
fails_at k n = if n == k then fails 7 else answers []

abbrev world : (ℕ → Reply ℕ) → World ℕ
world script = record {
  log = [];
  script = script;
  description = none;
  rowcount = 0;
  lastrowid = none;
}

abbrev plain_client : Client ℕ
plain_client = record { connection_factory = call connect; read_only = false }

abbrev update_call : Call ℕ
update_call = execute (chars "UPDATE t") none

transaction-raised_example : transaction plain_client (call update_call) (world (fails_at 1)) ≡ (
  raised (driver 7),
  after close (after rollback (after update_call (after connect (world (fails_at 1))))),
)
unfolding call
transaction-raised_example =
    transaction-raised plain_client (call update_call) (world (fails_at 1))
      (after connect (world (fails_at 1))) (after update_call (after connect (world (fails_at 1))))
      [] refl (driver 7) refl

transaction-returned_example : transaction plain_client (call update_call) (world (fails_at 9)) ≡ (
  returned [],
  after close (after commit (after update_call (after connect (world (fails_at 9))))),
)
unfolding call
transaction-returned_example =
    transaction-returned plain_client (call update_call) (world (fails_at 9))
      (after connect (world (fails_at 9))) (after update_call (after connect (world (fails_at 9))))
      [] refl [] [] [] refl refl refl

transaction-commit_failed_example :
    transaction plain_client (call update_call) (world (fails_at 2)) ≡ (
      raised (driver 7),
      after close
          (after rollback (after commit (after update_call (after connect (world (fails_at 2)))))),
    )
unfolding call
transaction-commit_failed_example =
    transaction-commit_failed plain_client (call update_call) (world (fails_at 2))
      (after connect (world (fails_at 2))) (after update_call (after connect (world (fails_at 2))))
      [] refl [] 7 refl refl refl

abbrev production : DatabaseSettings
production = record {
  driver = chars "mysql";
  host = chars "db";
  port = 3306;
  name = chars "n";
  username = chars "u";
  compress = false;
  read_only = true;
}

abbrev production_client : Client ℕ
production_client = record { connection_factory = mysql_factory production; read_only = true }

read_only_client-Silent_example :
    Silent is_commit (client_execute production_client (chars "SELECT 1") none)
    × Silent is_commit (fetch_one production_client (chars "SELECT 1") none)
    × Silent is_commit (fetch_all production_client (chars "SELECT 1") none)
unfolding from_settings
read_only_client-Silent_example =
    read_only_client-Silent production production_client (chars "SELECT 1") none refl refl

refused_query-Silent_example :
    Silent (is_execute {V = ℕ}) (transaction_execute true (chars "SELECT 1 INTO t") none)
    × Silent (is_execute {V = ℕ}) (transaction_fetch_one true (chars "SELECT 1 INTO t") none)
    × Silent (is_execute {V = ℕ}) (transaction_fetch_all true (chars "SELECT 1 INTO t") none)
unfolding require_read_only_sql
refused_query-Silent_example = refused_query-Silent (chars "SELECT 1 INTO t") modifying refl none
