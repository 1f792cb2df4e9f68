-- ===== src/Service/Flow/Refresh/Judging.antt =====
-- What an answer that polling accepts is.
use quest_test.Prelude.{
  ◌≡◌, ◌≢◌, refl, subst, Bool, true, false, not, [], ◌∷◌, Text, chars, text_eq, text_eq_sound,
  strip, lower, if◌then◌else◌, any, ◌==◌,
}
use quest_test.Effect.{returned, raised}
use quest_test.Json.{Value, Fields, get}
use quest_test.Service.Flow.{
  Flow, failure, fail_contract, fail_refresh, Response, request_exception, response, is_transient,
  require_flow_data,
}
use quest_test.Service.Flow.Refresh.{
  again, stop, accept, is_active, is_failed, accept_if, judge_status, text_or_empty, judge_data,
  judge, validate_completed_refresh,
}
use quest_test.Service.Flow.Refresh.Completed.{Complete, validate_completed_refresh-Complete}

pass_if :
    {A : Type 0} (b : Bool) (x y z : A) → x ≢ z → (if b then x else y) ≡ z → (b ≡ false) × (y ≡ z)
pass_if true x y z ne h = absurd (ne h)
pass_if false x y z ne h = (refl, h)

module _ (show : Value → Text) (task_id name : Text) where
  -- The answer is about the task, its status is `completed`, and the refresh is finished.
  pub record Accepted (data' : Fields) : Type 0 where
    pub same_task : strip (text_or_empty show (get "task_id" data')) ≡ task_id
    pub completed : lower (strip (text_or_empty show (get "status" data'))) ≡ chars "completed"
    pub complete : Complete data' name

  accept_if-valid :
      (d e : Fields) (r : Flow (Unit {0})) → accept_if d r ≡ accept e → (r ≡ returned tt) × (d ≡ e)
  accept_if-valid d e (returned u) h = (refl, cc)
  accept_if-valid d e (raised x) h = cc

  judge_status-Complete :
      (d e : Fields) (status : Text)
      → judge_status name d status ≡ accept e
      → (d ≡ e) × (status ≡ chars "completed") × Complete d name
  unfolding judge_status
  judge_status-Complete d e status h =
      let (a, h1) = pass_if (text_eq status []) _ _ _ (λ k. cc) h in
      let (b, h2) = pass_if (is_active status) _ _ _ (λ k. cc) h1 in
      let (c, h3) = pass_if (is_failed status) _ _ _ (λ k. cc) h2 in
      last (text_eq status (chars "completed")) refl h3
    where
      last :
          (b : Bool)
          → text_eq status (chars "completed") ≡ b
          → (if b
              then accept_if d (validate_completed_refresh d name)
              else stop (failure fail_contract "Performance Refresh returned unknown status"))
            ≡ accept e
          → (d ≡ e) × (status ≡ chars "completed") × Complete d name
      last true q k =
          let (valid, same) = accept_if-valid d e _ k in
          (
            same,
            text_eq_sound status (chars "completed") q,
            validate_completed_refresh-Complete d name valid,
          )
      last false q k = cc

  judge_data-Accepted :
      (r : Flow Fields) (e : Fields) → judge_data show task_id name r ≡ accept e → Accepted e
  unfolding judge_data
  judge_data-Accepted (raised x) e h = cc
  judge_data-Accepted (returned d) e h =
      let (a, h1) =
        pass_if (not (text_eq (strip (text_or_empty show (get "task_id" d))) task_id)) _ _ _
          (λ k. cc) h in
      let (same, completed, complete) =
        judge_status-Complete d e (lower (strip (text_or_empty show (get "status" d)))) h1 in
      subst Accepted same (record {
        same_task = text_eq_sound _ _ (not_false _ a);
        completed = completed;
        complete = complete;
      })
    where
      not_false : (b : Bool) → not b ≡ false → b ≡ true
      not_false true h = refl
      not_false false h = cc

  pub judge-Accepted :
      (answer : Response) (e : Fields) → judge show task_id name answer ≡ accept e → Accepted e
  unfolding judge
  judge-Accepted request_exception e h = cc
  judge-Accepted (response code body) e h = first (code == 200) h
    where
      first :
          (b : Bool)
          → (if b
              then judge_data show task_id name (require_flow_data (200 ∷ []) code body)
              else if is_transient code
              then again true
              else if any (λ c. code == c) (400 ∷ 401 ∷ 403 ∷ 422 ∷ [])
              then stop (failure fail_contract "Performance Refresh query was refused")
              else stop (failure fail_refresh "Performance Refresh query failed"))
            ≡ accept e
          → Accepted e
      first true k = judge_data-Accepted _ e k
      first false k =
          let (a, k1) = pass_if (is_transient code) _ _ _ (λ q. cc) k in
          let (b, k2) =
            pass_if (any (λ c. code == c) (400 ∷ 401 ∷ 403 ∷ 422 ∷ [])) _ _ _ (λ q. cc) k1 in
          cc
