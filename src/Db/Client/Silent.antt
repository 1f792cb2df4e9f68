-- ===== src/Db/Client/Silent.antt =====
-- Calls that an operation does not make: one rule for each way to build an operation.
use quest_test.Prelude.{
  ℕ, ◌+◌, ◌≡◌, refl, ◌++◌, List, [], ◌∷◌, Bool, true, false, if◌then◌else◌, ◌∙◌, Option, none, some,
  String,
}
use quest_test.Effect.{Outcome, returned, raised, go_on, handle, pure, raise, try_except, ◌>>=◌}
use quest_test.Db.SqlGuard.{Checked, ok, refused}
use quest_test.Db.Client.{
  Row, mapping, keyed, plain, leave, Call, Error, permission, World, Db, call, cleanup_during_error,
  cleanup_after, to_mapping, to_mappings, or_value_error, allow, first_row,
}

module _ {V : Type 0} (p : Call V → Bool) where
  -- How often the log holds a call that passes the test.
  abbrev pub count : List (Call V) → ℕ
  count [] = 0
  count (c ∷ cs) = (if p c then 1 else 0) + count cs

  count-append : (cs : List (Call V)) (c : Call V) → p c ≡ false → count (cs ++ (c ∷ [])) ≡ count cs
  count-append [] c h = rw h
  count-append (d ∷ cs) c h = rw (count-append cs c h)

  -- The operation makes no call that passes the test, whether it returns or raises.
  pub record Silent {A : Type 0} (m : Db V A) : Type 0 where
    pub at : (w : World V) → count (m w).1.log ≡ count w.log

  pub Silent-call : (c : Call V) → p c ≡ false → Silent (call c)
  unfolding call
  Silent-call c h = record { at = λ w. count-append w.log c h }

  pub Silent-pure : {A : Type 0} (a : A) → Silent (pure a)
  Silent-pure a = record { at = λ w. refl }

  pub Silent-raise : {A : Type 0} (e : Error) → Silent {A = A} (raise e)
  Silent-raise e = record { at = λ w. refl }

  pub Silent-allow : (g : Checked (Unit {0})) → Silent (allow g)
  Silent-allow (ok u) = Silent-pure tt
  Silent-allow (refused r) = Silent-raise (permission r)

  pub Silent-if :
      {A : Type 0} (b : Bool) (m n : Db V A) → Silent m → Silent n → Silent (if b then m else n)
  Silent-if true m n km kn = km
  Silent-if false m n km kn = kn

  module _ {A B : Type 0} where
    go_on-count :
        (f : A → Db V B) (r : Outcome Error A × World V)
        → ((a : A) → Silent (f a))
        → count (go_on r f).1.log ≡ count r.1.log
    go_on-count f (returned a, w) kf = (kf a).at w
    go_on-count f (raised e, w) kf = refl

    pub Silent-bind :
        (m : Db V A) (f : A → Db V B) → Silent m → ((a : A) → Silent (f a)) → Silent (m >>= f)
    Silent-bind m f km kf = record { at = λ w. go_on-count f (m w) kf ∙ km.at w }

  handle-count :
      {A : Type 0} (handler : Error → Db V A) (r : Outcome Error A × World V)
      → ((e : Error) → Silent (handler e))
      → count (handle r handler).1.log ≡ count r.1.log
  handle-count handler (returned a, w) kh = refl
  handle-count handler (raised e, w) kh = (kh e).at w

  pub Silent-try :
      {A : Type 0} (m : Db V A) (handler : Error → Db V A)
      → Silent m
      → ((e : Error) → Silent (handler e))
      → Silent (try_except m handler)
  Silent-try m handler km kh = record { at = λ w. handle-count handler (m w) kh ∙ km.at w }

  pub Silent-during_error : (m : Db V (List (Row V))) → Silent m → Silent (cleanup_during_error m)
  unfolding cleanup_during_error
  Silent-during_error m km = Silent-try m _ km (λ e. Silent-pure [])

  leave-count :
      {A : Type 0} (cleanup : Db V (List (Row V))) (r : Outcome Error A × World V)
      → Silent cleanup
      → count (leave cleanup r).1.log ≡ count r.1.log
  leave-count cleanup (returned a, w) k =
      (Silent-bind cleanup (λ _. pure a) k (λ _. Silent-pure a)).at w
  leave-count cleanup (raised e, w) k =
      (Silent-bind (cleanup_during_error cleanup) (λ _. raise e) (Silent-during_error cleanup k)
          (λ _. Silent-raise e)).at
        w

  pub Silent-cleanup_after :
      {A : Type 0} (cleanup : Db V (List (Row V))) (body : Db V A)
      → Silent cleanup
      → Silent body
      → Silent (cleanup_after cleanup body)
  unfolding cleanup_after
  Silent-cleanup_after cleanup body kc kb = record {
    at = λ w. leave-count cleanup (body w) kc ∙ kb.at w;
  }

  pub Silent-to_mapping : (r : Row V) → Silent (to_mapping r)
  unfolding to_mapping
  Silent-to_mapping (mapping d) = record { at = λ w. refl }
  Silent-to_mapping (keyed d) = record { at = λ w. refl }
  Silent-to_mapping (plain row) = record { at = λ w. or_value_error-count w _ }
    where
      or_value_error-count :
          (w : World V) (o : Option (List (String × V)))
          → count (or_value_error o w).1.log ≡ count w.log
      or_value_error-count w none = refl
      or_value_error-count w (some d) = refl

  pub Silent-to_mappings : (rows : List (Row V)) → Silent (to_mappings rows)
  unfolding to_mappings
  Silent-to_mappings [] = Silent-pure []
  Silent-to_mappings (r ∷ rows) =
      Silent-bind (to_mapping r) _ (Silent-to_mapping r)
        λ d. Silent-bind (to_mappings rows) _ (Silent-to_mappings rows) (λ ds. Silent-pure (d ∷ ds))

  pub Silent-first_row : (rows : List (Row V)) → Silent (first_row rows)
  unfolding first_row
  Silent-first_row [] = Silent-pure none
  Silent-first_row (r ∷ rows) =
      Silent-bind (to_mapping r) _ (Silent-to_mapping r) (λ d. Silent-pure (some d))

pub ruleset silent_rules = (
  Silent-call, Silent-pure, Silent-raise, Silent-allow, Silent-if, Silent-bind, Silent-try,
  Silent-during_error, Silent-cleanup_after, Silent-to_mappings, Silent-first_row,
)
