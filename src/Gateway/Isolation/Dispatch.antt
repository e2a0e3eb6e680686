-- ===== src/Gateway/Isolation/Dispatch.antt =====
-- The messages of a connection, `handle_message` of liveclaw-gateway/src/server.rs, and the isolation
-- of principals.
use liveclaw.Prelude.{String, some, string_Key}
use liveclaw.Gateway.Protocol.{GatewayResponse}
use liveclaw.Gateway.State.{World, Linked, Moment, Sender, route_Key}
use liveclaw.Gateway.Handler.{Action}
use liveclaw.Gateway.Handler.Rules.{
  Ensures, Ensures-ok, weaken, bind_rule, unless_rule, read_app_rule, read_conn_rule,
  change_app_rule, change_conn_rule,
}
use liveclaw.Gateway.Isolation.Messages.{
  Kept, terminate_keeps, audio_keeps, commit_keeps, response_create_keeps, interrupt_keeps,
  tool_call_keeps, get_diagnostics_keeps, prompt_keeps,
}
use liveclaw.Gateway.Isolation.Channels.{
  outbound_keeps, create_job_keeps, cancel_job_keeps, list_jobs_keeps,
}
use liveclaw.Gateway.Dispatch.{
  route_message, handle_get_gateway_health, handle_priority_probe, authenticated_only, send,
}
use liveclaw.Gateway.Access.{handle_pair, handle_authenticate}
use liveclaw.Gateway.Protocol.{
  GatewayMessage, pair, authenticate, create_session, terminate_session, session_audio,
  session_audio_commit, session_response_create, session_response_interrupt, session_prompt,
  channel_inbound, get_channel_outbound, create_channel_job, cancel_channel_job, list_channel_jobs,
  session_tool_call, priority_probe, get_gateway_health, get_diagnostics, ping,
}
use liveclaw.Gateway.Isolation.Inbound.{inbound_keeps}
use liveclaw.Gateway.Isolation.{IsIsolated, Isolated, Fresh}
use liveclaw.Gateway.Isolation.Handlers.{CreatesAsAsked, At, Created-keeps}

module _ {S J : Type 0} where
  send_keeps :
      (m : Moment) (tx : Sender) (resp : GatewayResponse J) (w : World S J)
      → Isolated w.app
      → Ensures (λ _. At IsIsolated) (At IsIsolated) (send m tx resp w)
  send_keeps m tx resp w i = change_app_rule _ _ _ _ w (Ensures-ok _ _ _ _ i)

module _ {S J : Type 0} (env : Linked S J) (m : Moment) (as_asked : CreatesAsAsked env.runner) where
  guarded_keeps :
      (handler : Action S J (GatewayResponse J)) (w : World S J)
      → Isolated w.app
      → Kept (handler w)
      → Kept (authenticated_only handler w)
  guarded_keeps handler w i h = read_conn_rule _ _ _ w (unless_rule _ _ _ _ _ w i λ _. h)

  pair_keeps : (given : String) (w : World S J) → Isolated w.app → Kept (handle_pair env m given w)
  unfolding handle_pair
  pair_keeps given w i = Ensures-ok _ _ _ _ i

  authenticate_keeps :
      (token : String) (w : World S J) → Isolated w.app → Kept (handle_authenticate env m token w)
  unfolding handle_authenticate
  authenticate_keeps token w i =
      read_app_rule _ _ _ w
        (unless_rule _ _ _ _ _ w i λ _. change_conn_rule _ _ _ _ w (Ensures-ok _ _ _ _ i))

  probe_keeps :
      (tx ptx : Sender) (w : World S J)
      → Isolated w.app
      → Kept (handle_priority_probe env m tx ptx w)
  unfolding handle_priority_probe
  probe_keeps tx ptx w i = read_conn_rule _ _ _ w (
      bind_rule _ (λ _. At IsIsolated) _ _ _ w (send_keeps m tx _ w i)
        λ _ v k.
          bind_rule _ (λ _. At IsIsolated) _ _ _ v (send_keeps m ptx _ v k)
            λ _ u l. Ensures-ok _ _ _ u l)

  health_keeps : (w : World S J) → Isolated w.app → Kept (handle_get_gateway_health env m w)
  unfolding handle_get_gateway_health
  health_keeps w i = read_app_rule _ _ _ w (Ensures-ok _ _ _ w i)

  pub route_keeps :
      (tx ptx : Sender) (msg : GatewayMessage J) (w : World S J)
      → Isolated w.app
      → Fresh m.uuid w.app
      → Kept (route_message env m tx ptx msg w)
  unfolding route_message
  route_keeps tx ptx ping w i f = Ensures-ok _ _ _ w i
  route_keeps tx ptx (pair given) w i f = pair_keeps given w i
  route_keeps tx ptx (authenticate token) w i f = authenticate_keeps token w i
  route_keeps tx ptx priority_probe w i f = guarded_keeps _ w i (probe_keeps tx ptx w i)
  route_keeps tx ptx get_gateway_health w i f = health_keeps w i
  route_keeps tx ptx (create_session config) w i f =
      guarded_keeps _ w i (
        weaken _ _ _ _ (Created-keeps env m as_asked config (some tx) (some ptx) w i f)
          λ _ v c. c.0)
  route_keeps tx ptx (terminate_session session_id) w i f =
      guarded_keeps _ w i (terminate_keeps env m session_id w i)
  route_keeps tx ptx (session_audio session_id audio) w i f =
      guarded_keeps _ w i (audio_keeps env m session_id audio tx ptx w i)
  route_keeps tx ptx (session_audio_commit session_id) w i f =
      guarded_keeps _ w i (commit_keeps env m session_id tx ptx w i)
  route_keeps tx ptx (session_response_create session_id) w i f =
      guarded_keeps _ w i (response_create_keeps env m session_id tx ptx w i)
  route_keeps tx ptx (session_response_interrupt session_id) w i f =
      guarded_keeps _ w i (interrupt_keeps env m session_id tx ptx w i)
  route_keeps tx ptx (session_prompt session_id prompt create_response) w i f =
      guarded_keeps _ w i (prompt_keeps env m session_id prompt _ tx ptx w i)
  route_keeps tx ptx (channel_inbound channel account_id external_user_id text create_response) w i
        f =
      guarded_keeps _ w i (inbound_keeps env m as_asked _ (some tx) (some ptx) w i f)
  route_keeps tx ptx (get_channel_outbound channel account_id external_user_id max_items) w i f =
      guarded_keeps _ w i (outbound_keeps channel account_id external_user_id max_items w i)
  route_keeps tx ptx (create_channel_job channel account user text interval create_response) w i f =
      guarded_keeps _ w i (create_job_keeps m _ w i)
  route_keeps tx ptx (cancel_channel_job job_id) w i f =
      guarded_keeps _ w i (cancel_job_keeps job_id w i)
  route_keeps tx ptx list_channel_jobs w i f = guarded_keeps _ w i (list_jobs_keeps w i)
  route_keeps tx ptx (session_tool_call session_id tool_name arguments) w i f =
      guarded_keeps _ w i (tool_call_keeps env m session_id tool_name arguments tx ptx w i)
  route_keeps tx ptx get_diagnostics w i f = guarded_keeps _ w i (get_diagnostics_keeps env m w i)
