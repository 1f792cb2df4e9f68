-- ===== src/Db/Client/Traces.antt =====
-- How a transaction ends: its outcome and the last calls, on success and on every exception.
use quest_test.Prelude.{
  ℕ, ◌≡◌, refl, ◌++◌, List, [], ◌∷◌, Bool, true, false, if◌then◌else◌, length, arith,
}
use quest_test.Effect.{returned, raised, raise, ◌>>◌}
use quest_test.Db.Client.{
  Row, Call, commit, rollback, close, Error, driver, Reply, fails, answers, World, Db, call,
  cleanup_during_error, cleanup_after, Client, transaction,
}

module _ {V : Type 0} where
  -- The world after a call, whatever the driver did.
  abbrev pub after : Call V → World V → World V
  after c w = record w { log = w.log ++ (c ∷ []) }

  -- What the driver does at the next call.
  abbrev pub next_reply : World V → Reply V
  next_reply w = w.script (length w.log)

  call-answers :
      (c : Call V) (w : World V) (rows : List (Row V))
      → next_reply w ≡ answers rows
      → call c w ≡ (returned rows, after c w)
  unfolding call
  call-answers c w rows h = rw h

  call-fails :
      (c : Call V) (w : World V) (n : ℕ)
      → next_reply w ≡ fails n
      → call c w ≡ (raised (driver n), after c w)
  unfolding call
  call-fails c w n h = rw h

  call-if :
      (b : Bool) (c d : Call V) (w : World V)
      → (if b then call c else call d) w ≡ call (if b then c else d) w
  call-if true c d w = refl
  call-if false c d w = refl

  module _ {A : Type 0} where
    swallowed :
        (c : Call V) (e : Error) (w : World V)
        → (cleanup_during_error (call c) >> raise {A = A} e) w ≡ (raised e, after c w)
    unfolding cleanup_during_error call
    swallowed c e w = ground arith

  module _ {A : Type 0} (client : Client V) (body : Db V A) (w w1 w2 : World V)
      (rows : List (Row V)) (connected : client.connection_factory w ≡ (returned rows, w1)) where
    -- If the body raises, the transaction raises the same exception, after a rollback and then the
    -- close of the connection, and no other call; what these two raise is not seen.
    pub transaction-raised :
        (e : Error)
        → body w1 ≡ (raised e, w2)
        → transaction client body w ≡ (raised e, after close (after rollback w2))
    unfolding transaction cleanup_after
    transaction-raised e failed =
        rw (connected, failed)
          (rw (swallowed rollback e w2) (swallowed close e (after rollback w2)))

    -- If the body returns and the driver accepts the last two calls, the body's value is returned,
    -- after a commit, or a rollback in a read-only client, and then the close.
    pub transaction-returned :
        (a : A) (r s : List (Row V))
        → body w1 ≡ (returned a, w2)
        → next_reply w2 ≡ answers r
        → next_reply (after (if client.read_only then rollback else commit) w2) ≡ answers s
        → transaction client body w
          ≡ (returned a, after close (after (if client.read_only then rollback else commit) w2))
    unfolding transaction cleanup_after
    transaction-returned a r s done settled closed =
        let last = if client.read_only then rollback else commit in
        rw (
          connected,
          done,
          call-if client.read_only rollback commit w2,
          call-answers last w2 r settled,
          call-answers close (after last w2) s closed,
        )

    -- If the commit fails, its exception is raised, after a rollback and the close.
    pub transaction-commit_failed :
        (a : A) (n : ℕ)
        → client.read_only ≡ false
        → body w1 ≡ (returned a, w2)
        → next_reply w2 ≡ fails n
        → transaction client body w
          ≡ (raised (driver n), after close (after rollback (after commit w2)))
    unfolding transaction cleanup_after
    transaction-commit_failed a n mode done failed = rw (
      connected,
      done,
      call-if client.read_only rollback commit w2,
      mode,
      call-fails commit w2 n failed,
      swallowed rollback (driver n) (after commit w2),
      swallowed close (driver n) (after rollback (after commit w2)),
    )
