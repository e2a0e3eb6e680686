-- ===== src/App/Runner/Invariant.antt =====
-- In every state that `RunnerAdapter`, liveclaw-app/src/main.rs, reaches, its sessions and its event
-- loops belong together.
use liveclaw.Prelude.{Option, List, [], ◌∷◌, String, Result, ok, err, refl, sym, subst, string_Key}
use liveclaw.Gateway.Protocol.{SessionConfig}
use liveclaw.App.Operation.Rules.{Ends, bind_rule, weaken, of_ok, of_err}
use liveclaw.App.Runner.{RunnerAdapter, AdapterState, Outside}
use liveclaw.App.Runner.Sessions.{create_session, terminate_session}
use liveclaw.App.Runner.Adapter.{runner_handle}
use liveclaw.App.Runner.ToolGraph.{JsonValues, GraphEngine}
use liveclaw.App.Runner.Effects.{prepare_keeps, admit_keeps}
use liveclaw.App.Runner.Ending.{terminate_keeps}
use liveclaw.App.Runner.Calls.{
  with_runtime-Used, send_audio-Used, send_text-Used, session_tool_call-Used,
}
use liveclaw.App.Runner.Registry.{
  Request, create, terminate, audio, commit, respond, interrupt, prompt, tool_call, perform,
  perform_all,
}
use liveclaw.App.Runner.Tasks.{Matched, Matched-aborted, Matched-insert}
use liveclaw.App.Runner.Loops.{Matched-remove}

-- A state of the adapter whose sessions and loops belong together.
abbrev pub IsMatched : {W H T : Type 0} → AdapterState W H T → Type 0
IsMatched s = Matched s.sessions s.tasks

module _ {W H T J : Type 0} (env : Outside W H T J) (adapter : RunnerAdapter) where
  create-IsMatched :
      (user_id session_id : String) (config : Option SessionConfig) (s : AdapterState W H T)
      → IsMatched s
      → Ends
          (λ _ t. IsMatched t)
          (λ t. IsMatched t)
          (create_session env adapter user_id session_id config s)
  unfolding create_session
  create-IsMatched user_id session_id config s m =
      bind_rule _ _ (λ _ t. IsMatched t) _ _ s
        (prepare_keeps env adapter Matched user_id session_id config s m)
        λ prepared t m'.
          admit_keeps env adapter Matched (λ _ t. IsMatched t) user_id session_id config prepared t
            (λ _. Matched-aborted _ _ _ m')
            (λ free.
              Matched-insert session_id _ _ _ _ free refl
                (record {
                  same_session = refl;
                  same_runtime = refl;
                  no_shutdown = refl;
                  not_aborted = refl;
                })
                m')

  terminate-IsMatched :
      (session_id : String) (s : AdapterState W H T)
      → IsMatched s
      → Ends (λ _ t. IsMatched t) (λ t. IsMatched t) (terminate_session env adapter session_id s)
  terminate-IsMatched session_id s m =
      weaken _ _ _ _ _
        (terminate_keeps env adapter Matched session_id s
          λ session there. Matched-remove session_id session s.sessions s.tasks there m)
        (λ _ t h. h) (λ t h. subst IsMatched (sym h.1) m)

  module _ (json : JsonValues J) (engine : GraphEngine W J) where
    settle :
        {A : Type 0} (E : AdapterState W H T → Type 0) (Q : A → AdapterState W H T → Type 0)
        (x : Result A String × AdapterState W H T)
        → Ends Q E x
        → ((a : A) → Q a x.1 → IsMatched x.1)
        → (E x.1 → IsMatched x.1)
        → IsMatched x.1
    settle E Q (ok a, t) h k j = k a (of_ok Q E (ok a, t) a h refl)
    settle E Q (err e, t) h k j = j (of_err Q E (err e, t) e h refl)

    perform-IsMatched :
        (request : Request J) (s : AdapterState W H T)
        → IsMatched s
        → IsMatched (perform (runner_handle env adapter json engine) request s).1
    perform-IsMatched (create user_id session_id config) s m =
        settle _ _ _ (create-IsMatched user_id session_id config s m) (λ _ h. h) (λ h. h)
    perform-IsMatched (terminate session_id) s m =
        settle _ _ _ (terminate-IsMatched session_id s m) (λ _ h. h) (λ h. h)
    perform-IsMatched (audio session_id bytes) s m =
        settle _ _ _ (send_audio-Used env adapter Matched session_id bytes s m) (λ _ h. h.1)
          (λ h. h.1)
    perform-IsMatched (commit session_id) s m =
        settle _ _ _ (with_runtime-Used env adapter Matched env.commit_audio session_id s m)
          (λ _ h. h.1) (λ h. h.1)
    perform-IsMatched (respond session_id) s m =
        settle _ _ _ (with_runtime-Used env adapter Matched env.create_response session_id s m)
          (λ _ h. h.1) (λ h. h.1)
    perform-IsMatched (interrupt session_id) s m =
        settle _ _ _ (with_runtime-Used env adapter Matched env.interrupt_response session_id s m)
          (λ _ h. h.1) (λ h. h.1)
    perform-IsMatched (prompt session_id text) s m =
        settle _ _ _ (send_text-Used env adapter Matched session_id text s m) (λ _ h. h.1)
          (λ h. h.1)
    perform-IsMatched (tool_call session_id tool_name arguments) s m =
        settle _ _ _
          (session_tool_call-Used env adapter Matched json engine session_id tool_name arguments s
            m)
          (λ _ h. h.1) (λ h. h.1)

    -- Every sequence of requests keeps the sessions and the event loops of `RunnerAdapter`
    -- together: each session has its own loop, for its identifier and its runtime, that was told
    -- neither to shut down nor aborted, and every loop that was not aborted is that of a session;
    -- so a refused duplicate and an ended session leave no loop behind.
    pub perform_all-IsMatched :
        (requests : List (Request J)) (s : AdapterState W H T)
        → IsMatched s
        → IsMatched (perform_all (runner_handle env adapter json engine) requests s).1
    perform_all-IsMatched [] s m = m
    perform_all-IsMatched (request ∷ requests) s m =
        perform_all-IsMatched requests _ (perform-IsMatched request s m)
