-- ===== src/Gateway/Jobs.antt =====
-- The background channel jobs of liveclaw-gateway/src/server.rs. A job runs in a task of its own,
-- which a cancellation signals; the steps of a task are functions here.
pub mod Listing
use Prim.Native.String
use Prim.Native.Nat.{compare as nat_compare, Ordering}
use liveclaw.Prelude.{
  ℕ, Bool, true, false, not, Option, none, some, List, [], ◌∷◌, ◌++◌, map, String, str_eq,
  string_Key, nat_eq, if◌then◌else◌,
}
use Prim.Native.String.{compare}
use liveclaw.Prelude.Lists.{retain}
use liveclaw.Prelude.Map.{Map, get, insert, remove}
use liveclaw.Gateway.Protocol.{
  ChannelJob, GatewayResponse, error, channel_job_created, channel_job_canceled, channel_jobs,
}
use liveclaw.Gateway.State.{
  AppState, ConnectionState, Linked, Moment, ChannelJobRuntime, JobTask, auth_required_error,
  new_connection,
}
use liveclaw.Gateway.Handler.{
  Action, ◌>>=◌, ◌>>◌, pure, stop, read_app, read_conn, change_app, or_stop, unless_stop, respond,
}
use liveclaw.Gateway.Channels.{
  ChannelInboundRequest, route_key, normalize_channel_component, text_missing,
  handle_channel_inbound,
}

pub record ChannelJobCreateRequest : Type 0 where
  pub channel : String
  pub account_id : String
  pub external_user_id : String
  pub text : String
  pub interval_seconds : ℕ
  pub create_response : Bool

abbrev pub job_not_found : {J : Type 0} → String → GatewayResponse J
job_not_found job_id =
    error "channel_job_not_found" (String.◌++◌ "Channel job '" (String.◌++◌ job_id "' not found"))

abbrev pub forbidden_job : {J : Type 0} → GatewayResponse J
forbidden_job =
    error "forbidden_channel_job" "Channel job is not owned by the authenticated principal"

-- The order of a listing: by time of creation, then by id.
abbrev is_after : Ordering → Bool → Bool
is_after Ordering.lt tie = false
is_after Ordering.eq tie = tie
is_after Ordering.gt tie = true

abbrev is_gt : Ordering → Bool
is_gt Ordering.gt = true
is_gt other = false

abbrev pub comes_after : ChannelJob → ChannelJob → Bool
comes_after a b =
    is_after (nat_compare a.created_at_unix_ms b.created_at_unix_ms)
      (is_gt (compare a.job_id b.job_id))

-- A stable sort by that order.
unfoldable pub insert_job : ChannelJob → List ChannelJob → List ChannelJob
insert_job j [] = j ∷ []
insert_job j (k ∷ ks) =
    let rest = insert_job j ks in if comes_after j k then k ∷ rest else j ∷ k ∷ ks

unfoldable pub sort_jobs : List ChannelJob → List ChannelJob
unfolding insert_job
sort_jobs [] = []
sort_jobs (j ∷ js) = insert_job j (sort_jobs js)

-- The jobs of one owner.
unfoldable pub jobs_of : String → Map String ChannelJobRuntime → List ChannelJob
jobs_of principal_id [] = []
jobs_of principal_id ((id, runtime) ∷ jobs) =
    let rest = jobs_of principal_id jobs in
    if str_eq runtime.owner_principal_id principal_id then runtime.job ∷ rest else rest

-- The cancel signal reaches the task of the job.
unfoldable pub signal : String → List JobTask → List JobTask
signal job_id tasks =
    map (λ t. if str_eq t.job.job_id job_id then record t { cancelled = true } else t) tasks

-- What a job sends, and the connection of its own that it sends it on.
abbrev pub job_request : JobTask → ChannelInboundRequest
job_request task = record {
  channel = task.job.channel;
  account_id = task.job.account_id;
  external_user_id = task.job.external_user_id;
  text = task.job.text;
  create_response = task.job.create_response;
  session_config_on_create = none;
  force_session_recreate = false;
}

abbrev pub job_connection : JobTask → ConnectionState
job_connection task = record new_connection {
  authenticated = true;
  principal_id = some task.owner_principal_id;
}

module _ {S J : Type 0} where
  unfoldable pub handle_create_channel_job :
      Moment → ChannelJobCreateRequest → Action S J (GatewayResponse J)
  handle_create_channel_job m request = do
    conn ← read_conn
    owner_principal_id ← or_stop conn.principal_id auth_required_error
    key ← route_key owner_principal_id request.channel request.account_id request.external_user_id
    text ← or_stop (normalize_channel_component request.text) text_missing
    unless_stop (not (nat_eq request.interval_seconds 0))
        (error "invalid_channel_job" "interval_seconds must be greater than 0")
    let job : ChannelJob = record {
      job_id = m.uuid;
      channel = key.channel;
      account_id = key.account_id;
      external_user_id = key.external_user_id;
      text = text;
      interval_seconds = request.interval_seconds;
      create_response = request.create_response;
      created_at_unix_ms = m.unix_ms;
    }
    change_app (λ app. record app {
      channel_jobs =
          insert m.uuid
            (record { owner_principal_id = owner_principal_id; job = job; cancel_tx = true })
            app.channel_jobs;
      tasks =
          app.tasks
          ++ record { job = job; owner_principal_id = owner_principal_id; cancelled = false } ∷ [];
    })
    pure (channel_job_created job)

  -- The lookup and the check of `handle_cancel_channel_job`.
  unfoldable pub cancellable :
      String → String → Option ChannelJobRuntime → Action S J ChannelJobRuntime
  cancellable job_id principal_id none = stop (job_not_found job_id)
  cancellable job_id principal_id (some existing) = do
    unless_stop (str_eq existing.owner_principal_id principal_id) forbidden_job
    pure existing

  unfoldable pub handle_cancel_channel_job : String → Action S J (GatewayResponse J)
  handle_cancel_channel_job job_id = do
    conn ← read_conn
    principal_id ← or_stop conn.principal_id auth_required_error
    app ← read_app
    runtime ← cancellable job_id principal_id (get job_id app.channel_jobs)
    change_app (λ app. record app {
      channel_jobs = remove job_id app.channel_jobs;
      tasks = if runtime.cancel_tx then signal job_id app.tasks else app.tasks;
    })
    pure (channel_job_canceled job_id)

  unfoldable pub handle_list_channel_jobs : Action S J (GatewayResponse J)
  handle_list_channel_jobs = do
    conn ← read_conn
    principal_id ← or_stop conn.principal_id auth_required_error
    app ← read_app
    pure (channel_jobs (sort_jobs (jobs_of principal_id app.channel_jobs)))

  -- One tick of a job: an inbound message, whose response is only logged.
  unfoldable pub run_channel_job_tick : Linked S J → Moment → JobTask → AppState S J → AppState S J
  run_channel_job_tick env m task app =
      (respond (handle_channel_inbound env m (job_request task) none none)
        (record { app = app; conn = job_connection task })).0.app

  -- The end of a task that was cancelled.
  unfoldable pub stop_job : JobTask → AppState S J → AppState S J
  stop_job task app = record app {
    channel_jobs = remove task.job.job_id app.channel_jobs;
    tasks = retain (λ t. not (str_eq t.job.job_id task.job.job_id)) app.tasks;
  }
