-- ===== src/App/Runner/Poll.antt =====
-- The gateway of liveclaw-gateway/src/server.rs over the runner of liveclaw-app/src/main.rs: what the
-- gateway assumes of its runner holds of `RunnerAdapter`.
use liveclaw.Prelude.{ℕ, Option, String, ◌≡◌, refl, List}
use liveclaw.Prelude.Lists.{All}
use liveclaw.Prelude.Map.{Map}
use liveclaw.Gateway.Pairing.{PairingGuard}
use liveclaw.Gateway.State.{Sender, ConnectionState, Linked, JsonApi}
use liveclaw.Gateway.Isolation.{OwnedBy, Isolated}
use liveclaw.Gateway.Isolation.Handlers.{CreatesAsAsked}
use liveclaw.Gateway.Handler.Rules.{Ensures}
use liveclaw.Gateway.Channels.{drain_channel_outbox}
use liveclaw.Gateway.System.{Server, Reachable, started}
use liveclaw.Gateway.System.Invariant.{Reachable-poll}
use liveclaw.App.Operation.Rules.{bind_rule, of_ok}
use liveclaw.App.Runner.{RunnerAdapter, RealtimeSession, RuntimeTask, AdapterState, Outside}
use liveclaw.App.Runner.Sessions.{create_session}
use liveclaw.App.Runner.Adapter.{runner_handle}
use liveclaw.App.Runner.Effects.{prepare_keeps, admit_keeps}
use liveclaw.App.Runner.ToolGraph.{JsonValues, GraphEngine}

module _ {W H T J : Type 0} (env : Outside W H T J) (adapter : RunnerAdapter) (json : JsonValues J)
    (engine : GraphEngine W J) where
  pub adapter-CreatesAsAsked : CreatesAsAsked (runner_handle env adapter json engine)
  unfolding create_session
  adapter-CreatesAsAsked user_id session_id config s sid e =
      let P : Map String (RealtimeSession H T) → List (RuntimeTask H) → Type 0 = λ _ _. Unit {0} in
      let Q : String → AdapterState W H T → Type 0 = λ found _. found ≡ session_id in
      of_ok Q (λ _. Unit {0}) (create_session env adapter user_id session_id config s) sid
        (bind_rule (λ _. Unit {0}) Q (λ _ _. Unit {0}) _ _ s
          (prepare_keeps env adapter P user_id session_id config s tt)
          λ prepared t _.
            admit_keeps env adapter P Q user_id session_id config prepared t (λ _. tt) (λ _. refl))
        e

  module _ (api : JsonApi J) (sha256 : String → List ℕ) where
    -- What the server links against, with `RunnerAdapter` as its runner.
    abbrev pub deployed : Linked (AdapterState W H T) J
    deployed = record {
      runner = runner_handle env adapter json engine;
      json = api;
      sha256 = sha256;
    }

    -- With `RunnerAdapter` as its runner, in every state that the gateway reaches by its steps,
    -- whose generated UUIDs are new, the principals are isolated, and a poll of an outbox hands out
    -- only items of sessions that no other principal owns, or is refused without a change; nothing
    -- is assumed of the runtimes, tools and services below the adapter.
    pub deployed-poll :
        (guard : PairingGuard) (s0 : AdapterState W H T) (now : ℕ) (audio : Map String Sender)
        (s : Server (AdapterState W H T) J) (conn : ConnectionState)
        (principal_id channel account_id external_user_id : String) (max_items : Option ℕ)
        → Reachable deployed (started guard s0 now audio) s
        → Isolated s.app
          × Ensures
              (λ found v. All (λ i. OwnedBy s.app.session_owners i.session_id principal_id) found.1)
              (λ v. v ≡ record { app = s.app; conn = conn })
              (drain_channel_outbox principal_id channel account_id external_user_id max_items
                (record { app = s.app; conn = conn }))
    deployed-poll guard s0 now audio s conn principal_id channel account_id external_user_id
          max_items r =
        Reachable-poll deployed adapter-CreatesAsAsked guard s0 now audio s conn principal_id
          channel account_id external_user_id max_items r
