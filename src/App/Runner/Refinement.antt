-- ===== src/App/Runner/Refinement.antt =====
-- `RunnerAdapter` of liveclaw-app/src/main.rs keeps the promise of the sessions' registry.
use liveclaw.Prelude.{
  Bool, true, false, Option, none, some, List, [], ◌∷◌, String, Result, ok, err, is_ok, ◌≡◌, refl,
  sym, subst, ◌∙◌, ap, arith, string_Key, ◌==◌, if◌then◌else◌, fun_ext,
}
use liveclaw.Prelude.Map.{Map, insert, remove, contains_key, get-insert, get-remove}
use liveclaw.Gateway.Protocol.{SessionConfig}
use liveclaw.App.Operation.Rules.{Ends, bind_rule, weaken, of_ok, of_err}
use liveclaw.App.Runner.{RunnerAdapter, RealtimeSession, RuntimeTask, AdapterState, Outside}
use liveclaw.App.Runner.Sessions.{create_session, terminate_session}
use liveclaw.App.Runner.Adapter.{runner_handle}
use liveclaw.App.Runner.Effects.{prepare_keeps, admit_keeps}
use liveclaw.App.Runner.Ending.{terminate_keeps}
use liveclaw.App.Runner.Calls.{
  owned-present, with_runtime-Used, send_audio-Used, send_text-Used, session_tool_call-Used,
}
use liveclaw.App.Runner.ToolGraph.{JsonValues, GraphEngine}
use liveclaw.App.Runner.Registry.{
  Registry, Request, create, terminate, audio, commit, respond, interrupt, prompt, tool_call,
  perform, perform_all, after, Allowed, Refusable, Follows, owner_of, registry,
}

module _ {W H T J : Type 0} (env : Outside W H T J) (adapter : RunnerAdapter) where
  abbrev reg : AdapterState W H T → Registry
  reg s = registry s.sessions

  abbrev Promise :
      {A : Type 0} → Request J → AdapterState W H T → Result A String × AdapterState W H T → Type 0
  Promise request s =
      Ends (λ _ t. Allowed request (reg s) × (reg t ≡ after request (reg s)))
        (λ t. Refusable request (reg s) × (reg t ≡ reg s))

  abbrev Same :
      AdapterState W H T → Map String (RealtimeSession H T) → List (RuntimeTask H) → Type 0
  Same s sessions tasks = registry sessions ≡ reg s

  registry-insert :
      (session_id : String) (session : RealtimeSession H T)
      (sessions : Map String (RealtimeSession H T)) (k : String)
      → registry (insert session_id session sessions) k
        ≡ (if session_id == k then some session.user_id else registry sessions k)
  registry-insert session_id session sessions k =
      ground (arith, get-insert session_id k session sessions)

  registry-remove :
      (session_id : String) (sessions : Map String (RealtimeSession H T)) (k : String)
      → registry (remove session_id sessions) k
        ≡ (if session_id == k then none else registry sessions k)
  registry-remove session_id sessions k = ground (arith, get-remove session_id k sessions)

  absent :
      (session_id : String) (sessions : Map String (RealtimeSession H T))
      → contains_key session_id sessions ≡ false
      → registry sessions session_id ≡ none
  absent session_id sessions h = ground arith

  create-Promise :
      (user_id session_id : String) (config : Option SessionConfig) (s : AdapterState W H T)
      → Promise
          (create user_id session_id config)
          s
          (create_session env adapter user_id session_id config s)
  unfolding create_session
  create-Promise user_id session_id config s =
      let E : AdapterState W H T → Type 0 = λ t. Unit {0} × (reg t ≡ reg s) in
      let Q : String → AdapterState W H T → Type 0 = λ _ t.
        (reg s session_id ≡ none)
        × (reg t ≡ after {J = J} (create user_id session_id config) (reg s)) in
      let P : Map String (RealtimeSession H T) → List (RuntimeTask H) → Type 0 =
        λ sessions tasks. Unit {0} × (registry sessions ≡ reg s) in
      bind_rule E Q (λ _ t. Unit {0} × (reg t ≡ reg s)) _ _ s
        (prepare_keeps env adapter P user_id session_id config s (tt, refl))
        λ prepared t same.
          admit_keeps env adapter P Q user_id session_id config prepared t (λ there. same)
            (λ free. (
              ap (λ (r : Registry). r session_id) (sym same.1) ∙ absent session_id t.sessions free,
              fun_ext (registry-insert session_id _ t.sessions)
                  ∙ ap (after {J = J} (create user_id session_id config)) same.1,
            ))

  terminate-Promise :
      (session_id : String) (s : AdapterState W H T)
      → Promise (terminate session_id) s (terminate_session env adapter session_id s)
  terminate-Promise session_id s =
      let P : Map String (RealtimeSession H T) → List (RuntimeTask H) → Type 0 = λ sessions tasks.
        ¬ (reg s session_id ≡ none)
        × (registry sessions ≡ after {J = J} (terminate session_id) (reg s)) in
      weaken _ _ _ _ _
        (terminate_keeps env adapter P session_id s λ session there. (
          owned-present env adapter P session_id s.sessions session there,
          fun_ext (registry-remove session_id s.sessions),
        ))
        (λ _ t h. h) (λ t h. (ap owner_of h.0, ap reg h.1))

  module _ (json : JsonValues J) (engine : GraphEngine W J) where
    abbrev StepFollows : Request J → AdapterState W H T → Bool × AdapterState W H T → Type 0
    StepFollows request s (true, t) = Allowed request (reg s) × (reg t ≡ after request (reg s))
    StepFollows request s (false, t) = Refusable request (reg s) × (reg t ≡ reg s)

    settle :
        {A : Type 0} (request : Request J) (s : AdapterState W H T) (r : Result A String)
        (t : AdapterState W H T)
        → Promise request s (r, t)
        → StepFollows request s (is_ok r, t)
    settle request s (ok a) t h = of_ok _ _ (ok a, t) a h refl
    settle request s (err e) t h = of_err _ _ (err e, t) e h refl

    perform-StepFollows :
        (request : Request J) (s : AdapterState W H T)
        → StepFollows request s (perform (runner_handle env adapter json engine) request s)
    perform-StepFollows (create user_id session_id config) s =
        settle (create user_id session_id config) s _ _ (create-Promise user_id session_id config s)
    perform-StepFollows (terminate session_id) s =
        settle (terminate session_id) s _ _ (terminate-Promise session_id s)
    perform-StepFollows (audio session_id bytes) s =
        settle (audio session_id bytes) s _ _
          (send_audio-Used env adapter (Same s) session_id bytes s refl)
    perform-StepFollows (commit session_id) s =
        settle (commit session_id) s _ _
          (with_runtime-Used env adapter (Same s) env.commit_audio session_id s refl)
    perform-StepFollows (respond session_id) s =
        settle (respond session_id) s _ _
          (with_runtime-Used env adapter (Same s) env.create_response session_id s refl)
    perform-StepFollows (interrupt session_id) s =
        settle (interrupt session_id) s _ _
          (with_runtime-Used env adapter (Same s) env.interrupt_response session_id s refl)
    perform-StepFollows (prompt session_id text) s =
        settle (prompt session_id text) s _ _
          (send_text-Used env adapter (Same s) session_id text s refl)
    perform-StepFollows (tool_call session_id tool_name arguments) s =
        settle (tool_call session_id tool_name arguments) s _ _ (
          session_tool_call-Used env adapter (Same s) json engine session_id tool_name arguments s
            refl)

    Follows-step :
        (request : Request J) (s t : AdapterState W H T) (b : Bool)
        (outcomes : List (Request J × Bool)) (end : Registry)
        → StepFollows request s (b, t)
        → Follows (reg t) outcomes end
        → Follows (reg s) ((request, b) ∷ outcomes) end
    Follows-step request s t true outcomes end (allowed, e) h =
        (allowed, subst (λ r. Follows r outcomes end) e h)
    Follows-step request s t false outcomes end (refusable, e) h =
        (refusable, subst (λ r. Follows r outcomes end) e h)

    -- Whatever sequence of requests `RunnerAdapter` gets from whatever state, its sessions follow
    -- the registry that the trait promises: a session is created only under a free identifier and
    -- then belongs to the user that asked, a session ends exactly when there is one, any other
    -- request is accepted only for a session that is there and changes no owner, and a refused
    -- request changes no owner.
    pub perform_all-Follows :
        (requests : List (Request J)) (s : AdapterState W H T)
        → Follows
            (registry s.sessions)
            (perform_all (runner_handle env adapter json engine) requests s).0
            (registry (perform_all (runner_handle env adapter json engine) requests s).1.sessions)
    perform_all-Follows [] s = refl
    perform_all-Follows (request ∷ requests) s =
        let (b, t) = perform (runner_handle env adapter json engine) request s in
        Follows-step request s t b _ _ (perform-StepFollows request s)
          (perform_all-Follows requests t)
