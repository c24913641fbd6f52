-- ===== src/Queue/Guards.antt =====
-- When the administration of the queue gives a job another try or takes it away.
use gov_flow.Prelude.{
  ℕ, suc, String, true, ◌≡◌, refl, ◌∙◌, ap, List, [], ◌∷◌, Option, some, ◌⊎◌, arith, ◌==◌, eq_iff,
}
use gov_flow.Runtime.{Env, World, ok, QueueCall, get_job, get_state, retry_job, remove_job, pure}
use gov_flow.Runtime.Both.{Both, Both-after_some, Both-after_require, Both-after_valid}
use gov_flow.Queue.{QueueService, Job, queue_get_job, queue_get_state, queue_retry, queue_remove}
use gov_flow.Queue.Admin.{
  is_deletable, retry_failed_job, delete_finished_job, retry_job_by_id, delete_job_by_id,
}
use gov_flow.Queue.Calls.{called, Both-after_call, Traces, two, three, four, none_yet}

deletable_state : (s : String) → is_deletable s ≡ true → (s ≡ "completed") ⊎ (s ≡ "failed")
deletable_state s h = ground (arith, eq_iff s "completed", eq_iff s "failed")

module _ (q : QueueService) where
  -- The calls of a request to delete a job: it looks the job up, asks for its state, and removes it
  -- if the state that it was told is one of those of a finished job.
  pub data DeleteCalls (n : ℕ) (id : String) : List QueueCall → Type 0 where
    nothing_asked : DeleteCalls n id []
    not_found : DeleteCalls n id (get_job id ∷ [])
    kept :
        (j : Job)
        → q.on_get_job n id ≡ ok (some j)
        → DeleteCalls n id (get_job id ∷ get_state j.id ∷ [])
    removed :
        (j : Job) (s : String)
        → q.on_get_job n id ≡ ok (some j)
        → q.on_get_state (suc n) j.id ≡ ok s
        → (s ≡ "completed") ⊎ (s ≡ "failed")
        → DeleteCalls n id (get_job id ∷ get_state j.id ∷ remove_job j.id ∷ [])

  -- The calls of a request to retry a job
  pub data RetryCalls (n : ℕ) (id : String) : List QueueCall → Type 0 where
    nothing_asked : RetryCalls n id []
    not_found : RetryCalls n id (get_job id ∷ [])
    kept :
        (j : Job)
        → q.on_get_job n id ≡ ok (some j)
        → RetryCalls n id (get_job id ∷ get_state j.id ∷ [])
    retried :
        (j : Job)
        → q.on_get_job n id ≡ ok (some j)
        → q.on_get_state (suc n) j.id ≡ ok "failed"
        → RetryCalls n id (get_job id ∷ get_state j.id ∷ retry_job j.id ∷ [])
    told :
        (j : Job)
        → q.on_get_job n id ≡ ok (some j)
        → q.on_get_state (suc n) j.id ≡ ok "failed"
        → RetryCalls n id (get_job id ∷ get_state j.id ∷ retry_job j.id ∷ get_state j.id ∷ [])

  module _ (env : Env) (id : String) (w : World) where
    delete_finished_job-Traces :
        Both
          (λ r v. Traces (DeleteCalls w.ticks id) w v)
          (Traces (DeleteCalls w.ticks id) w)
          (delete_finished_job env q id w)
    unfolding delete_finished_job queue_get_job queue_get_state queue_remove pure
    delete_finished_job-Traces =
        Both-after_call _ _ w (get_job id) _ _
          (λ row found.
            Both-after_some _ _ (called (get_job id) w) row _ _
              (λ j e.
                let there = found ∙ ap (λ (o : Option Job). ok o) e in
                Both-after_call _ _ _ (get_state j.id) _ _
                  (λ s told_state.
                    Both-after_require _ _ _ (is_deletable s) _ _
                      (λ b.
                        let all = removed j s there told_state (deletable_state s b) in
                        let calls = three (get_job id) (get_state j.id) (remove_job j.id) w in
                        Both-after_call _ _ _ (remove_job j.id) _ _ (λ x e2. (_, all, calls))
                          (_, all, calls))
                      (_, kept j there, two (get_job id) (get_state j.id) w))
                  (_, kept j there, two (get_job id) (get_state j.id) w))
              (_, not_found, refl))
          (_, not_found, refl)

    -- Whatever the queue answers, and whether the request returns or throws: the calls of a request
    -- to delete a job are none, a lookup of the job, the lookup and the question for its state, or
    -- these two and then the removal of that job; the removal is called only if the job was found
    -- and the state that the queue told was completed or failed.
    pub delete_job_by_id-Traces :
        Both
          (λ r v. Traces (DeleteCalls w.ticks id) w v)
          (Traces (DeleteCalls w.ticks id) w)
          (delete_job_by_id env q id w)
    unfolding delete_job_by_id
    delete_job_by_id-Traces =
        Both-after_valid _ _ w _ _ _ delete_finished_job-Traces (_, nothing_asked, none_yet w)

    retry_failed_job-Traces :
        Both
          (λ r v. Traces (RetryCalls w.ticks id) w v)
          (Traces (RetryCalls w.ticks id) w)
          (retry_failed_job env q id w)
    unfolding retry_failed_job queue_get_job queue_get_state queue_retry pure
    retry_failed_job-Traces =
        Both-after_call _ _ w (get_job id) _ _
          (λ row found.
            Both-after_some _ _ (called (get_job id) w) row _ _
              (λ j e.
                let there = found ∙ ap (λ (o : Option Job). ok o) e in
                Both-after_call _ _ _ (get_state j.id) _ _
                  (λ s told_state.
                    Both-after_require _ _ _ (s == "failed") _ _
                      (λ b.
                        let failed =
                          told_state ∙ ap (λ (t : String). ok t) ((eq_iff s "failed").0 b) in
                        let calls = three (get_job id) (get_state j.id) (retry_job j.id) w in
                        let asked =
                          four (get_job id) (get_state j.id) (retry_job j.id) (get_state j.id) w in
                        Both-after_call _ _ _ (retry_job j.id) _ _
                          (λ x e2.
                            Both-after_call _ _ _ (get_state j.id) _ _
                              (λ t e3. (_, told j there failed, asked))
                              (_, told j there failed, asked))
                          (_, retried j there failed, calls))
                      (_, kept j there, two (get_job id) (get_state j.id) w))
                  (_, kept j there, two (get_job id) (get_state j.id) w))
              (_, not_found, refl))
          (_, not_found, refl)

    -- Whatever the queue answers, and whether the request returns or throws: a request to retry a
    -- job calls the retry only of the job that it found, and only if the state that the queue told
    -- was failed.
    pub retry_job_by_id-Traces :
        Both
          (λ r v. Traces (RetryCalls w.ticks id) w v)
          (Traces (RetryCalls w.ticks id) w)
          (retry_job_by_id env q id w)
    unfolding retry_job_by_id
    retry_job_by_id-Traces =
        Both-after_valid _ _ w _ _ _ retry_failed_job-Traces (_, nothing_asked, none_yet w)
