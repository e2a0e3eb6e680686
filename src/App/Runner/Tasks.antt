-- ===== src/App/Runner/Tasks.antt =====
-- The event loops of `RunnerAdapter`, liveclaw-app/src/main.rs, and its sessions belong together.
use liveclaw.Prelude.{
  ℕ, zero, suc, Bool, true, false, Option, none, some, List, [], ◌∷◌, ◌++◌, String, ◌≡◌, refl, ap,
  subst, inl, inr, arith, string_Key, ◌==◌, if◌then◌else◌, Bool-cases, nat_eq, unwrap_or, eq_iff,
}
use liveclaw.Prelude.Lists.{length}
use liveclaw.Prelude.Map.{Map, get, insert, contains_key, get-insert}
use liveclaw.App.Runner.{RealtimeSession, RuntimeTask}
use liveclaw.App.Runner.Sessions.{at_task, abort_task}

module _ {H : Type 0} where
  abbrev pub task_at : ℕ → List (RuntimeTask H) → Option (RuntimeTask H)
  task_at n [] = none
  task_at zero (task ∷ tasks) = some task
  task_at (suc n) (task ∷ tasks) = task_at n tasks

  abbrev pub changed :
      Bool → (RuntimeTask H → RuntimeTask H) → Option (RuntimeTask H) → Option (RuntimeTask H)
  changed b f none = none
  changed b f (some task) = if b then some (f task) else some task

  pub task_at-at_task :
      (f : RuntimeTask H → RuntimeTask H) (k n : ℕ) (tasks : List (RuntimeTask H))
      → task_at n (at_task f k tasks) ≡ changed (nat_eq k n) f (task_at n tasks)
  task_at-at_task f k n [] = refl
  task_at-at_task f zero zero (task ∷ tasks) = refl
  task_at-at_task f zero (suc n) (task ∷ tasks) = ground arith
  task_at-at_task f (suc k) zero (task ∷ tasks) = ground arith
  task_at-at_task f (suc k) (suc n) (task ∷ tasks) = ground (arith, task_at-at_task f k n tasks)

  -- A place of a list with one more element.
  pub task_at-append :
      (n : ℕ) (tasks : List (RuntimeTask H)) (new : RuntimeTask H)
      → task_at n (tasks ++ new ∷ [])
        ≡ (if nat_eq (length tasks) n then some new else task_at n tasks)
  task_at-append zero [] new = refl
  task_at-append (suc n) [] new = ground arith
  task_at-append zero (task ∷ tasks) new = ground arith
  task_at-append (suc n) (task ∷ tasks) new = ground (arith, task_at-append n tasks new)

  abbrev pub is_aborted : Option (RuntimeTask H) → Bool
  is_aborted none = false
  is_aborted (some task) = task.aborted

  task_at-length : (tasks : List (RuntimeTask H)) → task_at (length tasks) tasks ≡ none
  task_at-length [] = refl
  task_at-length (task ∷ tasks) = task_at-length tasks

  pub aborted_append :
      (n : ℕ) (tasks : List (RuntimeTask H)) (new : RuntimeTask H)
      → task_at n (at_task abort_task (length tasks) (tasks ++ new ∷ []))
        ≡ (if nat_eq (length tasks) n then some (abort_task new) else task_at n tasks)
  aborted_append n tasks new = ground (
    arith,
    task_at-at_task abort_task (length tasks) n (tasks ++ new ∷ []),
    task_at-append n tasks new,
    task_at-length tasks,
  )

  -- A task that is there does not stand past the end.
  pub before_end :
      (n : ℕ) (tasks : List (RuntimeTask H)) (task : RuntimeTask H)
      → task_at n tasks ≡ some task
      → nat_eq (length tasks) n ≡ false
  before_end n tasks task h = ground (arith, task_at-length tasks)

module _ {H T : Type 0} where
  -- The loop of a session runs for it and its runtime, and was not told to stop.
  pub record Serves (session_id : String) (session : RealtimeSession H T) (task : RuntimeTask H)
      : Type 0 where
    pub same_session : task.session_id ≡ session_id
    pub same_runtime : task.runtime ≡ session.runtime
    pub no_shutdown : task.shutdown ≡ false
    pub not_aborted : task.aborted ≡ false

  -- Each session has its loop, and a loop that was not aborted has its session.
  pub record Matched (sessions : Map String (RealtimeSession H T)) (tasks : List (RuntimeTask H))
      : Type 0 where
    pub served :
        (session_id : String) (session : RealtimeSession H T)
        → get session_id sessions ≡ some session
        → (task : RuntimeTask H) × (task_at session.run_task tasks ≡ some task)
          × Serves session_id session task
    pub owned :
        (n : ℕ) (task : RuntimeTask H)
        → task_at n tasks ≡ some task
        → task.aborted ≡ false
        → (session : RealtimeSession H T) × (get task.session_id sessions ≡ some session)
          × (session.run_task ≡ n)

  -- A loop that is started and aborted at once changes nothing.
  pub Matched-aborted :
      (sessions : Map String (RealtimeSession H T)) (tasks : List (RuntimeTask H))
      (new : RuntimeTask H)
      → Matched sessions tasks
      → Matched sessions (at_task abort_task (length tasks) (tasks ++ new ∷ []))
  Matched-aborted sessions tasks new m = record {
    served = λ session_id session h.
        let (task, place, serves) = m.served session_id session h in
        (
          task,
          ground (arith, aborted_append session.run_task tasks new, before_end _ tasks task place),
          serves,
        );
    owned = λ n task place live. elim (Bool-cases (nat_eq (length tasks) n)) [
      | inl last ↦
          let e : some (abort_task new) ≡ some task =
            ground (arith, aborted_append n tasks new, last, place) in
          let clash : true ≡ task.aborted = ap is_aborted e in cc (clash, live)
      | inr other ↦ m.owned n task (ground (arith, aborted_append n tasks new)) live
    ];
  }

  pub Matched-insert :
      (session_id : String) (session : RealtimeSession H T)
      (sessions : Map String (RealtimeSession H T)) (tasks : List (RuntimeTask H))
      (new : RuntimeTask H)
      → contains_key session_id sessions ≡ false
      → session.run_task ≡ length tasks
      → Serves session_id session new
      → Matched sessions tasks
      → Matched (insert session_id session sessions) (tasks ++ new ∷ [])
  Matched-insert session_id session sessions tasks new free run serves m = record {
    served = λ sid other h. elim (Bool-cases (session_id == sid)) [
      | inl same ↦
          let e : some session ≡ some other =
            ground (arith, get-insert session_id sid session sessions) in
          let place : task_at session.run_task (tasks ++ new ∷ []) ≡ some new =
            ground (arith, task_at-append session.run_task tasks new, run) in
          subst
            (λ x.
              (task : RuntimeTask H) × (task_at x.run_task (tasks ++ new ∷ []) ≡ some task)
              × Serves sid x task)
            (ap (λ o. unwrap_or o session) e)
            (new, place, subst (λ k. Serves k session new) ((eq_iff session_id sid).0 same) serves)
      | inr different ↦
          let (task, place, old) =
            m.served sid other (ground (arith, get-insert session_id sid session sessions)) in
          (
            task,
            ground (arith, task_at-append other.run_task tasks new, before_end _ tasks task place),
            old,
          )
    ];
    owned = λ n task place live. elim (Bool-cases (nat_eq (length tasks) n)) [
      | inl last ↦
          let e : some new ≡ some task = ground (arith, task_at-append n tasks new) in
          subst
            (λ t.
              (x : RealtimeSession H T) × (get t.session_id (insert session_id session sessions)
                ≡ some x)
              × (x.run_task ≡ n))
            (ap (λ o. unwrap_or o new) e)
            (
              session,
              ground (
                arith,
                get-insert session_id new.session_id session sessions,
                eq_iff session_id new.session_id,
                serves.same_session,
              ),
              ground (arith, run, last),
            )
      | inr earlier ↦
          let (x, old, at) = m.owned n task (ground (arith, task_at-append n tasks new)) live in
          (
            x,
            ground (
              arith,
              get-insert session_id task.session_id session sessions,
              free,
              eq_iff session_id task.session_id,
              old,
            ),
            at,
          )
    ];
  }
