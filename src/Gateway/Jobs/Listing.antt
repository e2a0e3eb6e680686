-- ===== src/Gateway/Jobs/Listing.antt =====
-- `handle_list_channel_jobs` of liveclaw-gateway/src/server.rs and the jobs that are registered.
use liveclaw.Prelude.{
  ℕ, ◌+◌, ◌≡◌, refl, Bool, List, [], ◌∷◌, String, str_eq, arith, ◌∙◌, ok, Bool-cases, inl, inr,
  if◌then◌else◌, some,
}
use liveclaw.Prelude.Map.{Map}
use liveclaw.Gateway.Protocol.{ChannelJob, channel_jobs}
use liveclaw.Gateway.State.{World, ChannelJobRuntime}
use liveclaw.Gateway.Handler.{respond, actions}
use liveclaw.Gateway.Handler.Rules.{respond-end}
use liveclaw.Gateway.Jobs.{insert_job, sort_jobs, jobs_of, comes_after, handle_list_channel_jobs}

-- How many jobs of a list satisfy a test.
abbrev pub count : (ChannelJob → Bool) → List ChannelJob → ℕ
count p [] = 0
count p (j ∷ js) = (if p j then 1 else 0) + count p js

count-insert_job :
    (p : ChannelJob → Bool) (j : ChannelJob) (js : List ChannelJob)
    → count p (insert_job j js) ≡ (if p j then 1 else 0) + count p js
unfolding insert_job
count-insert_job p j [] = refl
count-insert_job p j (k ∷ js) = elim (Bool-cases (comes_after j k)) [
  | inl after ↦ rw after (omega (arith, count-insert_job p j js))
  | inr before ↦ rw before refl
]

count-sort_jobs :
    (p : ChannelJob → Bool) (js : List ChannelJob) → count p (sort_jobs js) ≡ count p js
unfolding sort_jobs
count-sort_jobs p [] = refl
count-sort_jobs p (j ∷ js) =
    omega (arith, count-insert_job p j (sort_jobs js), count-sort_jobs p js)

-- The jobs that a map registers for an owner and that satisfy a test.
abbrev pub registered : (ChannelJob → Bool) → String → Map String ChannelJobRuntime → ℕ
registered p owner [] = 0
registered p owner ((id, runtime) ∷ jobs) =
    (if str_eq runtime.owner_principal_id owner then (if p runtime.job then 1 else 0) else 0)
    + registered p owner jobs

count-jobs_of :
    (p : ChannelJob → Bool) (owner : String) (jobs : Map String ChannelJobRuntime)
    → count p (jobs_of owner jobs) ≡ registered p owner jobs
unfolding jobs_of
count-jobs_of p owner [] = refl
count-jobs_of p owner ((id, runtime) ∷ jobs) =
    elim (Bool-cases (str_eq runtime.owner_principal_id owner)) [
      | inl own ↦ rw own (omega (arith, count-jobs_of p owner jobs))
      | inr other ↦ rw other (omega (arith, count-jobs_of p owner jobs))
    ]

module _ {S J : Type 0} where
  runs :
      (owner : String) (w : World S J)
      → w.conn.principal_id ≡ some owner
      → handle_list_channel_jobs w
        ≡ (w, ok (channel_jobs (sort_jobs (jobs_of owner w.app.channel_jobs))))
  unfolding actions handle_list_channel_jobs
  runs owner w here = simp here

  listed :
      (owner : String) (w : World S J)
      → w.conn.principal_id ≡ some owner
      → respond handle_list_channel_jobs w
        ≡ (w, channel_jobs (sort_jobs (jobs_of owner w.app.channel_jobs)))
  listed owner w here = respond-end handle_list_channel_jobs w w _ (inl (runs owner w here))

  -- For a connection with a principal, a listing answers the jobs that are registered for that
  -- principal, each as many times as it is registered, and no other job, and changes nothing.
  pub handle_list_channel_jobs-lists :
      (owner : String) (w : World S J)
      → w.conn.principal_id ≡ some owner
      → (js : List ChannelJob) × (respond handle_list_channel_jobs w ≡ (w, channel_jobs js))
        × ((p : ChannelJob → Bool) → count p js ≡ registered p owner w.app.channel_jobs)
  handle_list_channel_jobs-lists owner w here =
      let own = jobs_of owner w.app.channel_jobs in
      (
        sort_jobs own,
        listed owner w here,
        λ p. count-sort_jobs p own ∙ count-jobs_of p owner w.app.channel_jobs,
      )
