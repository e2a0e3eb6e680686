-- ===== src/App/Runner/Loops.antt =====
-- Every request keeps the sessions and the event loops of `RunnerAdapter`, liveclaw-app/src/main.rs,
-- together.
use liveclaw.Prelude.{
  ℕ, Bool, true, false, Option, none, some, List, String, ◌≡◌, refl, sym, ap, ◌∙◌, arith,
  string_Key, ◌==◌, nat_eq, nat_eq_iff, eq_iff, unwrap_or,
}
use liveclaw.Prelude.Map.{Map, get, remove, get-remove}
use liveclaw.App.Runner.{RealtimeSession, RuntimeTask}
use liveclaw.App.Runner.Sessions.{at_task, abort_task, shut_task}
use liveclaw.App.Runner.Ending.{stopped}
use liveclaw.App.Runner.Tasks.{task_at, Matched, changed, task_at-at_task, is_aborted}

module _ {H : Type 0} where
  task_at-stopped :
      (k n : ℕ) (tasks : List (RuntimeTask H))
      → task_at n (stopped k tasks)
        ≡ changed (nat_eq k n) (λ task. abort_task (shut_task task)) (task_at n tasks)
  task_at-stopped k n tasks = ground (
    arith,
    task_at-at_task abort_task k n (at_task shut_task k tasks),
    task_at-at_task shut_task k n tasks,
  )

  -- A task of those that is still live is an old one, and not the one that was stopped.
  live_after :
      (k n : ℕ) (tasks : List (RuntimeTask H)) (task : RuntimeTask H)
      → task_at n (stopped k tasks) ≡ some task
      → task.aborted ≡ false
      → (task_at n tasks ≡ some task) × (nat_eq k n ≡ false)
  live_after k n tasks task place live =
      after_change (nat_eq k n) (task_at n tasks) (sym (task_at-stopped k n tasks) ∙ place) live
    where
      after_change :
          (b : Bool) (o : Option (RuntimeTask H))
          → changed b (λ task. abort_task (shut_task task)) o ≡ some task
          → task.aborted ≡ false
          → (o ≡ some task) × (b ≡ false)
      after_change b none e l = cc
      after_change false (some t) e l = (e, refl)
      after_change true (some t) e l =
          let clash : true ≡ task.aborted = ap is_aborted e in cc (clash, l)

  unstopped :
      (k n : ℕ) (tasks : List (RuntimeTask H)) (task : RuntimeTask H)
      → task_at n tasks ≡ some task
      → nat_eq k n ≡ false
      → task_at n (stopped k tasks) ≡ some task
  unstopped k n tasks task place differs =
      task_at-stopped k n tasks ∙ unchanged (nat_eq k n) _ place differs
    where
      unchanged :
          (b : Bool) (o : Option (RuntimeTask H))
          → o ≡ some task
          → b ≡ false
          → changed b (λ task. abort_task (shut_task task)) o ≡ some task
      unchanged b none e d = e
      unchanged false (some t) e d = e
      unchanged true (some t) e d = cc

not_true : (b : Bool) → ¬ (b ≡ true) → b ≡ false
not_true true h = elim (h refl) [ ]
not_true false h = refl

module _ {H T : Type 0} where
  -- Two sessions do not share a loop.
  same_loop :
      (sessions : Map String (RealtimeSession H T)) (tasks : List (RuntimeTask H)) (a b : String)
      (x y : RealtimeSession H T)
      → Matched sessions tasks
      → get a sessions ≡ some x
      → get b sessions ≡ some y
      → x.run_task ≡ y.run_task
      → a ≡ b
  same_loop sessions tasks a b x y m at_a at_b same =
      let (s, place, serves) = m.served a x at_a in
      let (t, other, serves') = m.served b y at_b in
      let e : some s ≡ some t = sym place ∙ ap (λ n. task_at n tasks) same ∙ other in
      sym serves.same_session ∙ ap (λ o. (unwrap_or o s).session_id) e ∙ serves'.same_session

  -- The session that goes and its loop go together.
  pub Matched-remove :
      (session_id : String) (session : RealtimeSession H T)
      (sessions : Map String (RealtimeSession H T)) (tasks : List (RuntimeTask H))
      → get session_id sessions ≡ some session
      → Matched sessions tasks
      → Matched (remove session_id sessions) (stopped session.run_task tasks)
  Matched-remove session_id session sessions tasks there m = record {
    served = λ sid other h.
        let old : get sid sessions ≡ some other =
          ground (arith, get-remove session_id sid sessions) in
        let (task, place, serves) = m.served sid other old in
        let apart : nat_eq session.run_task other.run_task ≡ false = not_true _ λ same. ground (
          arith,
          get-remove session_id sid sessions,
          eq_iff session_id sid,
          same_loop sessions tasks session_id sid session other m there old
              ((nat_eq_iff _ _).0 same),
        ) in
        (task, unstopped session.run_task other.run_task tasks task place apart, serves);
    owned = λ n task place live.
        let (before, differs) = live_after session.run_task n tasks task place live in
        let (x, old, at) = m.owned n task before live in
        let apart : (session_id == task.session_id) ≡ false = not_true _ λ same.
          let e : some session ≡ some x =
            sym there ∙ ap (λ k. get k sessions) ((eq_iff _ _).0 same) ∙ old in
          ground (
            arith,
            ap (λ (o : Option (RealtimeSession H T)). (unwrap_or o session).run_task) e,
            at,
            differs,
          ) in
        (x, ground (arith, get-remove session_id task.session_id sessions, apart, old), at);
  }
