-- ===== src/App/Runner/Effects.antt =====
-- What the operations of `RunnerAdapter`, liveclaw-app/src/main.rs, do to the map of the sessions and
-- to the tasks.
use liveclaw.Prelude.{
  Bool, true, false, ◌∷◌, [], ◌++◌, Option, none, some, List, String, Result, ◌≡◌, string_Key,
  if◌then◌else◌,
}
use liveclaw.Prelude.Lists.{length}
use liveclaw.Prelude.Map.{Map, insert, contains_key}
use liveclaw.Gateway.Protocol.{SessionConfig}
use liveclaw.App.Operation.{Operation, ◌>>=◌, attempt}
use liveclaw.App.Operation.Rules.{
  Ends, Ends-ok, Ends-err, Ends-both, bind_rule, propagate_rule, attempt_rule, bail_if_rule,
  choose_rule, read_rule, change_rule,
}
use liveclaw.App.Compaction.{MemoryEntry}
use liveclaw.App.Lifecycle as lifecycle
use liveclaw.App.Runner.{RunnerAdapter, RealtimeSession, RuntimeTask, AdapterState, Outside}
use liveclaw.App.Runner.Sessions.{
  Prepared, at_task, abort_task, outside, start_lifecycle, prepare, hand_over, new_task,
  new_session, refuse_duplicate, register, admit, forget_tracking,
}

module _ {W H T J : Type 0} (env : Outside W H T J) (adapter : RunnerAdapter)
    (P : Map String (RealtimeSession H T) → List (RuntimeTask H) → Type 0) where
  abbrev pub At : AdapterState W H T → Type 0
  At s = P s.sessions s.tasks

  pub outside_keeps :
      {A : Type 0} (m : Operation W A) (s : AdapterState W H T)
      → At s
      → Ends (λ _. At) At (outside env adapter m s)
  unfolding outside
  outside_keeps m s h = Ends-both _ _ (m s.tracking.world).0 _ (λ _ _. h) (λ _ _. h)

  pub attempt-outside_rule :
      {A B : Type 0} (E : AdapterState W H T → Type 0) (R : B → AdapterState W H T → Type 0)
      (m : Operation W A) (f : Result A String → Operation (AdapterState W H T) B)
      (s : AdapterState W H T)
      → ((r : Result A String) (w : W)
          → Ends R E (f r (record s { tracking = record (s.tracking) { world = w } })))
      → Ends R E ((attempt (outside env adapter m) >>= f) s)
  unfolding outside ◌>>=◌
  attempt-outside_rule E R m f s h = h (m s.tracking.world).0 (m s.tracking.world).1

  start_lifecycle_keeps :
      (user_id session_id : String) (s : AdapterState W H T)
      → At s
      → Ends (λ _. At) At (start_lifecycle env adapter user_id session_id s)
  unfolding start_lifecycle
  start_lifecycle_keeps user_id session_id s h =
      choose_rule At _ _ _ _ s
        (λ _. attempt_rule At _ _ _ s (Ends-both _ _ _ _ (λ _ _. h) (λ _ _. h)))
        (λ _. Ends-ok _ _ tt s h)

  pub prepare_keeps :
      (user_id session_id : String) (config : Option SessionConfig) (s : AdapterState W H T)
      → At s
      → Ends (λ _. At) At (prepare env adapter user_id session_id config s)
  unfolding prepare
  prepare_keeps user_id session_id config s h =
      bail_if_rule At _ _ _ _ s (λ _. h)
        λ _.
          bind_rule At _ (λ _. At) _ _ s (start_lifecycle_keeps user_id session_id s h)
            λ _ s1 h1.
              bail_if_rule At _ _ _ _ s1 (λ _. h1)
                λ _. propagate_rule At _ _ _ s1 h1 λ role _.
                  bind_rule At _ (λ _. At) _ _ s1 (outside_keeps _ s1 h1)
                    λ tools s2 h2.
                      bind_rule At _ (λ _. At) _ _ s2 (outside_keeps _ s2 h2)
                        λ runtime s3 h3.
                          bind_rule At _ (λ _. At) _ _ s3 (outside_keeps _ s3 h3)
                            λ _ s4 h4. Ends-ok _ _ _ _ h4

  abbrev pub started : (session_id : String) → H → AdapterState W H T → AdapterState W H T
  started session_id runtime s = record s {
    tasks = s.tasks ++ new_task env adapter session_id runtime ∷ [];
  }

  -- A duplicate leaves the sessions as they are, with one more task, which is aborted; otherwise the
  -- session is entered with its task.
  pub admit_keeps :
      (Q : String → AdapterState W H T → Type 0) (user_id session_id : String)
      (config : Option SessionConfig) (prepared : Prepared H T) (s : AdapterState W H T)
      → (contains_key session_id s.sessions ≡ true
          → P s.sessions (
              at_task abort_task
                (length s.tasks)
                (s.tasks ++ new_task env adapter session_id prepared.runtime ∷ [])))
      → (contains_key session_id s.sessions ≡ false
          → Q session_id (record s {
            sessions =
                insert session_id
                  (new_session env adapter user_id config prepared (length s.tasks))
                  s.sessions;
            tasks = s.tasks ++ new_task env adapter session_id prepared.runtime ∷ [];
          }))
      → Ends Q At (admit env adapter user_id session_id config prepared s)
  unfolding admit refuse_duplicate register
  admit_keeps Q user_id session_id config prepared s duplicate entered = read_rule At Q _ s (
      change_rule At Q _ _ s (
        choose_rule At Q _ _ _ _
          (λ there.
            attempt-outside_rule At Q _ _ _
              λ r w. change_rule At Q _ _ _ (Ends-err _ _ _ _ (duplicate there)))
          (λ absent. change_rule At Q _ _ _ (Ends-ok _ _ _ _ (entered absent)))))

  pub hand_over_same :
      (user_id session_id : String) (entries : Option (List MemoryEntry)) (s : AdapterState W H T)
      → At s
      → At (hand_over env adapter user_id session_id entries s)
  unfolding outside
  hand_over_same user_id session_id none s h = h
  hand_over_same user_id session_id (some entries) s h = h

  pub forget_same :
      (session_id : String) (s : AdapterState W H T)
      → At s
      → At (forget_tracking env adapter session_id s)
  unfolding forget_tracking lifecycle.clear_tracking
  forget_same session_id s h = Bool-rule adapter.has_lifecycle
    where
      Bool-rule :
          (b : Bool)
          → At (
              if b
              then record s {
                tracking = lifecycle.clear_tracking env.service session_id s.tracking;
              }
              else s)
      Bool-rule true = h
      Bool-rule false = h
