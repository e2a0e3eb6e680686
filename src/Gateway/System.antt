-- ===== src/Gateway/System.antt =====
-- The gateway as a transition system: the state that its tasks share, the connections that are
-- open, and what the tasks of liveclaw-gateway/src/server.rs do with them, one step at a time and
-- in any order: `handle_ws` opens a connection, handles a message or closes; an HTTP route serves a request; the loops of
-- `Gateway::start` pass on audio and transcripts; a job task ticks or ends.
pub mod Invariant
use liveclaw.Prelude.{
  ℕ, Bool, true, Option, none, some, List, [], ◌∷◌, String, ◌≡◌, nat_Key, string_Key, Mem,
}
use liveclaw.Prelude.Map.{Map, get, insert, remove}
use liveclaw.Gateway.Pairing.{PairingGuard}
use liveclaw.Gateway.Protocol.{GatewayMessage, GatewayResponse}
use liveclaw.Gateway.State.{AppState, ConnectionState, World, Linked, Moment, Sender, JobTask}
use liveclaw.Gateway.Dispatch.{
  handle_message, open_connection, close_connection, SessionAudioOutput, handle_audio_output,
  handle_transcript_output,
}
use liveclaw.Gateway.Channels.{SessionTranscriptOutput}
use liveclaw.Gateway.Http.Payloads.{ChannelIngressQuery}
use liveclaw.Gateway.Http.Router.{HttpRoute, handle_http}
use liveclaw.Gateway.Jobs.{run_channel_job_tick, stop_job}
use liveclaw.Gateway.Isolation.{Fresh}

pub record Server (S J : Type 0) : Type 0 where
  pub app : AppState S J
  pub clients : Map ℕ ConnectionState

-- `Gateway::start`: every map but that of the audio senders is empty.
unfoldable pub started : {S J : Type 0} → PairingGuard → S → ℕ → Map String Sender → Server S J
started guard s now audio_senders = record {
  app = record {
    pairing = guard;
    runner_state = s;
    started_at = now;
    audio_senders = audio_senders;
    session_owners = [];
    ws_response_senders = [];
    ws_priority_senders = [];
    channel_routes = [];
    session_channel_routes = [];
    channel_outbox = [];
    channel_jobs = [];
    tasks = [];
    sent = [];
  };
  clients = [];
}

module _ {S J : Type 0} (env : Linked S J) where
  abbrev pub on_open : ℕ → Server S J → Server S J
  on_open id s = record s { clients = insert id (open_connection env s.app) s.clients }

  abbrev pub on_message :
      Moment
      → ℕ
      → (ws_tx ws_priority_tx : Sender) → GatewayMessage J
      → ConnectionState
      → Server S J
      → Server S J
  on_message m id tx ptx msg conn s =
      let (w, resp) = handle_message env m tx ptx msg (record { app = s.app; conn = conn }) in
      record { app = w.app; clients = insert id w.conn s.clients }

  abbrev pub on_transcript : Moment → SessionTranscriptOutput → Server S J → Server S J
  on_transcript m output s = record s { app = handle_transcript_output m output s.app }

  abbrev pub on_audio : Moment → SessionAudioOutput → Server S J → Server S J
  on_audio m output s = record s { app = handle_audio_output m output s.app }

  abbrev pub on_tick : Moment → JobTask → Server S J → Server S J
  on_tick m task s = record s { app = run_channel_job_tick env m task s.app }

  abbrev pub on_stop : JobTask → Server S J → Server S J
  on_stop task s = record s { app = stop_job task s.app }

  abbrev pub on_request :
      Moment
      → (authorization : Option String) → ChannelIngressQuery
      → (ws_tx ws_priority_tx : Sender) → HttpRoute J
      → Server S J
      → Server S J
  on_request m authorization query tx ptx route s = record s {
    app = (handle_http env m authorization query tx ptx route s.app).0;
  }

  abbrev pub on_close : ℕ → ConnectionState → Server S J → Server S J
  on_close id conn s = record { app = close_connection conn s.app; clients = remove id s.clients }

  -- A UUID that a step may use for a session is new.
  pub data Step : Server S J → Server S J → Type 0 where
    opened : (id : ℕ) (s : Server S J) → Step s (on_open id s)
    handled :
        (m : Moment) (id : ℕ) (tx ptx : Sender) (msg : GatewayMessage J) (conn : ConnectionState)
        (s : Server S J)
        → get id s.clients ≡ some conn
        → Fresh m.uuid s.app
        → Step s (on_message m id tx ptx msg conn s)
    requested :
        (m : Moment) (authorization : Option String) (query : ChannelIngressQuery) (tx ptx : Sender)
        (route : HttpRoute J) (s : Server S J)
        → Fresh m.uuid s.app
        → Step s (on_request m authorization query tx ptx route s)
    transcribed :
        (m : Moment) (output : SessionTranscriptOutput) (s : Server S J)
        → Step s (on_transcript m output s)
    heard :
        (m : Moment) (output : SessionAudioOutput) (s : Server S J) → Step s (on_audio m output s)
    ticked :
        (m : Moment) (task : JobTask) (s : Server S J)
        → Mem task s.app.tasks
        → Fresh m.uuid s.app
        → Step s (on_tick m task s)
    job_ended :
        (task : JobTask) (s : Server S J)
        → Mem task s.app.tasks
        → task.cancelled ≡ true
        → Step s (on_stop task s)
    closed :
        (id : ℕ) (conn : ConnectionState) (s : Server S J)
        → get id s.clients ≡ some conn
        → Step s (on_close id conn s)

  pub data Reachable (start : Server S J) : Server S J → Type 0 where
    here : Reachable start start
    next : (s t : Server S J) → Reachable start s → Step s t → Reachable start t
