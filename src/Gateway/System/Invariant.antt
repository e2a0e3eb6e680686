-- ===== src/Gateway/System/Invariant.antt =====
-- The isolation of principals along the steps of the gateway.
use liveclaw.Prelude.{ℕ, Option, none, String, ◌≡◌}
use liveclaw.Prelude.Map.{Map}
use liveclaw.Prelude.Lists.{All}
use liveclaw.Gateway.Pairing.{PairingGuard}
use liveclaw.Gateway.Protocol.{GatewayMessage}
use liveclaw.Gateway.State.{AppState, ConnectionState, World, Linked, Moment, Sender, JobTask}
use liveclaw.Gateway.Handler.Rules.{Ensures, respond_rule}
use liveclaw.Gateway.Dispatch.{
  handle_message, close_connection, route_message, handle_transcript_output, handle_audio_output,
}
use liveclaw.Gateway.Channels.{handle_channel_inbound, drain_channel_outbox}
use liveclaw.Gateway.Channels.Outbox.{drain_channel_outbox-OwnedBy}
use liveclaw.Gateway.Jobs.{run_channel_job_tick, stop_job, job_request, job_connection}
use liveclaw.Gateway.Isolation.{OwnedBy, Isolated, Fresh}
use liveclaw.Gateway.Isolation.Handlers.{CreatesAsAsked}
use liveclaw.Gateway.Isolation.Inbound.{inbound_keeps}
use liveclaw.Gateway.Isolation.Channels.{queue_keeps}
use liveclaw.Gateway.Isolation.Dispatch.{route_keeps}
use liveclaw.Gateway.Isolation.Http.{handle_http-Isolated}
use liveclaw.Gateway.System.{
  Server, started, Step, opened, handled, requested, transcribed, ticked, heard, job_ended, closed,
  Reachable, here, next,
}

started-Isolated :
    {S : Type 0} (J : Type 0) (guard : PairingGuard) (s : S) (now : ℕ) (audio : Map String Sender)
    → Isolated {S = S} {J = J} (started guard s now audio).app
unfolding started
started-Isolated J guard s now audio = record { routed = tt; reversed = tt; queued = tt }

module _ {S J : Type 0} (env : Linked S J) (as_asked : CreatesAsAsked env.runner) where
  -- Any message that one connection sends keeps the principals isolated, on every way out of its
  -- handler: routes, reverse routes and queued transcripts of a session name the principal that
  -- owns the session, if it has an owner. It assumes that the runner creates a session under the
  -- identifier it is given and that the UUID of the step is new.
  pub handle_message-Isolated :
      (m : Moment) (tx ptx : Sender) (msg : GatewayMessage J) (w : World S J)
      → Isolated w.app
      → Fresh m.uuid w.app
      → Isolated (handle_message env m tx ptx msg w).0.app
  unfolding handle_message
  handle_message-Isolated m tx ptx msg w i f =
      respond_rule (λ v. Isolated v.app) (route_message env m tx ptx msg) w
        (route_keeps env m as_asked tx ptx msg w i f)

  tick_keeps :
      (m : Moment) (task : JobTask) (app : AppState S J)
      → Isolated app
      → Fresh m.uuid app
      → Isolated (run_channel_job_tick env m task app)
  unfolding run_channel_job_tick
  tick_keeps m task app i f =
      respond_rule (λ v. Isolated v.app) (handle_channel_inbound env m (job_request task) none none)
        (record { app = app; conn = job_connection task })
        (inbound_keeps env m as_asked (job_request task) none none
          (record { app = app; conn = job_connection task }) i f)

  Step-keeps : (s t : Server S J) → Step env s t → Isolated s.app → Isolated t.app
  unfolding close_connection stop_job handle_transcript_output handle_audio_output
  Step-keeps _ _ (opened id s) i = i
  Step-keeps _ _ (handled m id tx ptx msg conn s at f) i =
      handle_message-Isolated m tx ptx msg _ i f
  Step-keeps _ _ (requested m authorization query tx ptx route s f) i =
      handle_http-Isolated env m as_asked authorization query tx ptx route s.app i f
  Step-keeps _ _ (transcribed m output s) i = queue_keeps m output _ i
  Step-keeps _ _ (heard m output s) i = i
  Step-keeps _ _ (ticked m task s is_task f) i = tick_keeps m task s.app i f
  Step-keeps _ _ (job_ended task s is_task cancelled) i = i
  Step-keeps _ _ (closed id conn s at) i = i

  pub Reachable-Isolated :
      (start s : Server S J) → Reachable env start s → Isolated start.app → Isolated s.app
  Reachable-Isolated start _ here i = i
  Reachable-Isolated start _ (next u t r step) i =
      Step-keeps u t step (Reachable-Isolated start u r i)

  -- In every state that the gateway reaches from its start by connections that open, send any
  -- messages and close, by HTTP requests, by audio and transcripts of the runner and by ticks and
  -- ends of jobs, in any order, the principals are isolated, and a poll of an outbox hands out only
  -- items of sessions that no other principal owns, or is refused without a change; provided that
  -- the runner creates a session under the identifier it is given and that generated UUIDs are new.
  pub Reachable-poll :
      (guard : PairingGuard) (s0 : S) (now : ℕ) (audio : Map String Sender) (s : Server S J)
      (conn : ConnectionState) (principal_id channel account_id external_user_id : String)
      (max_items : Option ℕ)
      → Reachable env (started guard s0 now audio) s
      → Isolated s.app
        × Ensures
            (λ found v. All (λ i. OwnedBy s.app.session_owners i.session_id principal_id) found.1)
            (λ v. v ≡ record { app = s.app; conn = conn })
            (drain_channel_outbox principal_id channel account_id external_user_id max_items
              (record { app = s.app; conn = conn }))
  Reachable-poll guard s0 now audio s conn principal_id channel account_id external_user_id
        max_items r =
      let i = Reachable-Isolated _ s r (started-Isolated J guard s0 now audio) in
      (
        i,
        drain_channel_outbox-OwnedBy principal_id channel account_id external_user_id max_items _ i,
      )
