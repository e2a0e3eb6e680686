-- ===== src/App/Runner/Ending.antt =====
-- What `terminate_session` of `RunnerAdapter`, liveclaw-app/src/main.rs, does to the sessions, to the
-- tasks and to the memory of the sessions.
use liveclaw.Prelude.{ℕ, none, some, List, String, ◌≡◌, refl, string_Key}
use liveclaw.Prelude.Map.{Map, get, remove}
use liveclaw.App.Operation.Rules.{Ends, Ends-ok, or_bail_rule, read_rule, change_rule}
use liveclaw.App.Runner.{RunnerAdapter, RealtimeSession, RuntimeTask, AdapterState, Outside}
use liveclaw.App.Runner.Sessions.{
  at_task, abort_task, shut_task, hand_over_memory, terminate_session,
}
use liveclaw.App.Runner.Effects.{attempt-outside_rule, forget_same, hand_over_same}

-- What `terminate_session` makes of the tasks.
abbrev pub stopped : {H : Type 0} → (run_task : ℕ) → List (RuntimeTask H) → List (RuntimeTask H)
stopped run_task tasks = at_task abort_task run_task (at_task shut_task run_task tasks)

module _ {W H T J : Type 0} (env : Outside W H T J) (adapter : RunnerAdapter)
    (P : Map String (RealtimeSession H T) → List (RuntimeTask H) → Type 0) where
  -- A session that is there is taken out of the map, and its task is stopped; if there is none,
  -- nothing changes.
  pub terminate_keeps :
      (session_id : String) (s : AdapterState W H T)
      → ((session : RealtimeSession H T)
          → get session_id s.sessions ≡ some session
          → P (remove session_id s.sessions) (stopped session.run_task s.tasks))
      → Ends
          (λ _ t. P t.sessions t.tasks)
          (λ t. (get session_id s.sessions ≡ none) × (t ≡ s))
          (terminate_session env adapter session_id s)
  unfolding terminate_session hand_over_memory
  terminate_keeps session_id s found =
      let E : AdapterState W H T → Type 0 = λ t. (get session_id s.sessions ≡ none) × (t ≡ s) in
      let Q : Unit {0} → AdapterState W H T → Type 0 = λ _ t. P t.sessions t.tasks in
      read_rule E Q _ s (
        or_bail_rule E Q _ _ _ s (λ absent. (absent, refl))
          λ session there. change_rule E Q _ _ _ (
            change_rule E Q _ _ _ (
              attempt-outside_rule env adapter P E Q _ _ _ λ r w.
                let P' : Map String (RealtimeSession H T) → List (RuntimeTask H) → Type 0 =
                  λ sessions tasks. P sessions (at_task abort_task session.run_task tasks) in
                change_rule E Q _ _ _ (
                  Ends-ok Q E tt _ (
                    hand_over_same env adapter P' session.user_id session_id _ _
                      (forget_same env adapter P' session_id _ (found session there)))))))
