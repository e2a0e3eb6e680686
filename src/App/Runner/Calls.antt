-- ===== src/App/Runner/Calls.antt =====
-- The operations of `RunnerAdapter`, liveclaw-app/src/main.rs, on a session that is there.
use liveclaw.Prelude.{ℕ, none, some, List, String, Result, ◌≡◌, refl, sym, subst, ap, string_Key}
use liveclaw.Prelude.Map.{Map, get}
use liveclaw.App.Operation.{Operation, ◌>>=◌}
use liveclaw.App.Operation.Rules.{
  Ends, Ends-ok, Ends-option, bind_rule, bail_if_rule, read_rule, weaken,
}
use liveclaw.App.Runner.{RunnerAdapter, RealtimeSession, RuntimeTask, AdapterState, Outside}
use liveclaw.App.Runner.Sessions.{outside}
use liveclaw.App.Runner.Adapter.{
  find_session, runtime_for_session, with_runtime, send_audio, send_text, session_tool_call,
}
use liveclaw.App.Runner.Effects.{outside_keeps}
use liveclaw.App.Runner.ToolGraph.{JsonValues, GraphEngine}
use liveclaw.App.Runner.Registry.{owner_of, registry}

module _ {W H T J : Type 0} (env : Outside W H T J) (adapter : RunnerAdapter)
    (P : Map String (RealtimeSession H T) → List (RuntimeTask H) → Type 0) where
  pub owned-present :
      (session_id : String) (sessions : Map String (RealtimeSession H T))
      (session : RealtimeSession H T)
      → get session_id sessions ≡ some session
      → ¬ (registry sessions session_id ≡ none)
  owned-present session_id sessions session there missing = cc (ap owner_of there, missing)

  -- Accepted only if there is a session; and what holds of the sessions and the tasks stays.
  abbrev pub Used :
      {A : Type 0} → String → AdapterState W H T → Result A String × AdapterState W H T → Type 0
  Used session_id s =
      Ends (λ _ t. ¬ (registry s.sessions session_id ≡ none) × P t.sessions t.tasks)
        (λ t. Unit {0} × P t.sessions t.tasks)

  find-rule :
      {B : Type 0} (E : AdapterState W H T → Type 0) (Q : B → AdapterState W H T → Type 0)
      (session_id : String) (f : RealtimeSession H T → Operation (AdapterState W H T) B)
      (s : AdapterState W H T)
      → E s
      → ((session : RealtimeSession H T)
          → get session_id s.sessions ≡ some session
          → Ends Q E (f session s))
      → Ends Q E ((find_session env adapter session_id >>= f) s)
  find-rule E Q session_id f s e h =
      let F : RealtimeSession H T → AdapterState W H T → Type 0 =
        λ session t. (get session_id s.sessions ≡ some session) × (t ≡ s) in
      bind_rule E Q F _ f s
        (read_rule E F _ s (Ends-option _ _ _ _ s (λ session there. (there, refl)) e))
        λ session t found. subst (λ t. Ends Q E (f session t)) (sym found.1) (h session found.0)

  outside-Used :
      {A : Type 0} (session_id : String) (m : Operation W A) (s : AdapterState W H T)
      → P s.sessions s.tasks
      → ¬ (registry s.sessions session_id ≡ none)
      → Used session_id s (outside env adapter m s)
  outside-Used session_id m s h present =
      weaken _ _ _ _ _ (outside_keeps env adapter P m s h) (λ _ t same. (present, same))
        (λ t same. (tt, same))

  pub with_runtime-Used :
      (op : H → Operation W (Unit {0})) (session_id : String) (s : AdapterState W H T)
      → P s.sessions s.tasks
      → Used session_id s (with_runtime env adapter op session_id s)
  unfolding runtime_for_session
  with_runtime-Used op session_id s h =
      let E : AdapterState W H T → Type 0 = λ t. Unit {0} × P t.sessions t.tasks in
      let F : H → AdapterState W H T → Type 0 =
        λ _ t. ¬ (registry s.sessions session_id ≡ none) × (t ≡ s) in
      bind_rule E _ F _ _ s
        (find-rule E F session_id _ s (tt, h)
          λ session there.
            Ends-ok F E _ s (owned-present session_id s.sessions session there, refl))
        λ runtime t found.
          subst (λ t. Used session_id s (outside env adapter (op runtime) t)) (sym found.1)
            (outside-Used session_id _ s h found.0)

  pub session_tool_call-Used :
      (json : JsonValues J) (engine : GraphEngine W J) (session_id tool_name : String)
      (arguments : J) (s : AdapterState W H T)
      → P s.sessions s.tasks
      → Used session_id s
          (session_tool_call env adapter json engine session_id tool_name arguments s)
  unfolding session_tool_call
  session_tool_call-Used json engine session_id tool_name arguments s h =
      find-rule _ _ session_id _ s (tt, h)
        λ session there.
          outside-Used session_id _ s h (owned-present session_id s.sessions session there)

  pub send_audio-Used :
      (session_id : String) (bytes : List ℕ) (s : AdapterState W H T)
      → P s.sessions s.tasks
      → Used session_id s (send_audio env adapter session_id bytes s)
  unfolding send_audio
  send_audio-Used session_id bytes s h =
      bail_if_rule _ _ _ _ _ s (λ _. (tt, h)) λ _. with_runtime-Used _ session_id s h

  pub send_text-Used :
      (session_id text : String) (s : AdapterState W H T)
      → P s.sessions s.tasks
      → Used session_id s (send_text env adapter session_id text s)
  unfolding send_text
  send_text-Used session_id text s h =
      bail_if_rule _ _ _ _ _ s (λ _. (tt, h)) λ _. with_runtime-Used _ session_id s h
