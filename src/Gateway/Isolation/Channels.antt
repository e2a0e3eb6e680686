-- ===== src/Gateway/Isolation/Channels.antt =====
-- The messages about outboxes and jobs, and the steps of background tasks, of
-- liveclaw-gateway/src/server.rs, and the isolation of principals.
use liveclaw.Prelude.{
  ℕ, String, Option, none, some, List, [], ◌∷◌, ◌++◌, ◌≡◌, refl, string_Key, inl, inr, Bool-cases,
  Option-cases, unwrap_or,
}
use liveclaw.Prelude.Lists.{All, All-drop, All-append, drop, is_empty as is_empty_list}
use liveclaw.Prelude.Map.{get, get-All}
use liveclaw.Text.{is_empty, trim}
use liveclaw.Gateway.Protocol.{ChannelOutboundItem}
use liveclaw.Gateway.State.{AppState, World, Moment, ChannelRouteKey, route_Key, ChannelJobRuntime}
use liveclaw.Gateway.Handler.Rules.{
  Ensures, Ensures-ok, Ensures-err, bind_rule, or_stop_rule, unless_rule, read_app_rule,
  read_conn_rule, change_app_rule,
}
use liveclaw.Gateway.Channels.{
  SessionTranscriptOutput, drop_items, drain_channel_outbox, handle_get_channel_outbound,
  queue_channel_outbound_transcript, outbound_item,
}
use liveclaw.Gateway.Jobs.{
  ChannelJobCreateRequest, handle_create_channel_job, handle_cancel_channel_job,
  handle_list_channel_jobs, cancellable,
}
use liveclaw.Gateway.Http.Handlers.{drain_response}
use liveclaw.Gateway.Isolation.Messages.{Kept}
use liveclaw.Gateway.Isolation.Inbound.{route_key_keeps}
use liveclaw.Gateway.Isolation.{OwnedBy, ItemOf, Isolated}
use liveclaw.Gateway.Isolation.Rules.{with_queue, without_queue}

module _ {S J : Type 0} where
  drain_keeps :
      (key : ChannelRouteKey) (n : ℕ) (app : AppState S J)
      → Isolated app
      → Isolated (drop_items key n app)
  unfolding drop_items
  drain_keeps key n app i = elim (Option-cases (get key app.channel_outbox)) [
    | inl e ↦ rw (e, drop_items) i
    | inr (queue, e) ↦ elim (Bool-cases (is_empty_list (drop n queue))) [
      | inl emptied ↦ rw (e, emptied, drop_items) (without_queue i key)
      | inr left ↦
          rw (e, left, drop_items)
            (with_queue i key (drop n queue) (
              All-drop (ItemOf app.session_owners key) n queue (
                get-All (λ b. All (ItemOf app.session_owners b.0) b.1) key queue app.channel_outbox
                  i.queued e)))
    ]
  ]

  drain_outbox_keeps :
      (principal_id channel account_id external_user_id : String) (max_items : Option ℕ)
      (w : World S J)
      → Isolated w.app
      → Ensures
          (λ _ v. Isolated v.app)
          (λ v. Isolated v.app)
          (drain_channel_outbox principal_id channel account_id external_user_id max_items w)
  unfolding drain_channel_outbox
  drain_outbox_keeps principal_id channel account_id external_user_id max_items w i =
      bind_rule _ _ _ _ _ w
        (route_key_keeps (λ v. Isolated v.app) principal_id channel account_id external_user_id w i)
        λ key v q.
          read_app_rule _ _ _ v
            (change_app_rule _ _ _ _ v (Ensures-ok _ _ _ _ (drain_keeps key _ v.app (rw q.0 i))))

  pub outbound_keeps :
      (channel account_id external_user_id : String) (max_items : Option ℕ) (w : World S J)
      → Isolated w.app
      → Kept (handle_get_channel_outbound channel account_id external_user_id max_items w)
  unfolding handle_get_channel_outbound
  outbound_keeps channel account_id external_user_id max_items w i = read_conn_rule _ _ _ w (
      or_stop_rule _ _ _ _ _ w i λ principal_id _.
        bind_rule _ (λ _ v. Isolated v.app) _ _ _ w
          (drain_outbox_keeps principal_id channel account_id external_user_id max_items w i)
          λ found v k. Ensures-ok _ _ _ v k)

  pub drain_response_keeps :
      (principal_id channel account_id external_user_id : String) (max_items : Option ℕ)
      (w : World S J)
      → Isolated w.app
      → Kept (drain_response principal_id channel account_id external_user_id max_items w)
  unfolding drain_response
  drain_response_keeps principal_id channel account_id external_user_id max_items w i =
      bind_rule _ (λ _ v. Isolated v.app) _ _ _ w
        (drain_outbox_keeps principal_id channel account_id external_user_id max_items w i)
        λ found v k. Ensures-ok _ _ _ v k

  pub create_job_keeps :
      (m : Moment) (request : ChannelJobCreateRequest) (w : World S J)
      → Isolated w.app
      → Kept (handle_create_channel_job m request w)
  unfolding handle_create_channel_job
  create_job_keeps m request w i = read_conn_rule _ _ _ w (
      or_stop_rule _ _ _ _ _ w i λ principal_id _.
        bind_rule _ _ _ _ _ w
          (route_key_keeps (λ v. Isolated v.app) principal_id request.channel request.account_id
            request.external_user_id w i)
          λ key v q. or_stop_rule _ _ _ _ _ v (rw q.0 i) λ text _.
            unless_rule _ _ _ _ _ v (rw q.0 i)
              λ _. change_app_rule _ _ _ _ v (Ensures-ok _ _ _ _ (rw q.0 i)))

  cancellable_keeps :
      (job_id principal_id : String) (found : Option ChannelJobRuntime) (w : World S J)
      → Isolated w.app
      → Kept (cancellable job_id principal_id found w)
  unfolding cancellable
  cancellable_keeps job_id principal_id none w i = Ensures-err _ _ _ w i
  cancellable_keeps job_id principal_id (some existing) w i =
      unless_rule _ _ _ _ _ w i λ _. Ensures-ok _ _ _ w i

  pub cancel_job_keeps :
      (job_id : String) (w : World S J) → Isolated w.app → Kept (handle_cancel_channel_job job_id w)
  unfolding handle_cancel_channel_job
  cancel_job_keeps job_id w i = read_conn_rule _ _ _ w (
      or_stop_rule _ _ _ _ _ w i λ principal_id _. read_app_rule _ _ _ w (
        bind_rule _ (λ _ v. Isolated v.app) _ _ _ w (cancellable_keeps job_id principal_id _ w i)
          λ runtime v k. change_app_rule _ _ _ _ v (Ensures-ok _ _ _ _ k)))

  pub list_jobs_keeps : (w : World S J) → Isolated w.app → Kept (handle_list_channel_jobs w)
  unfolding handle_list_channel_jobs
  list_jobs_keeps w i =
      read_conn_rule _ _ _ w
        (or_stop_rule _ _ _ _ _ w i λ principal_id _. read_app_rule _ _ _ w (Ensures-ok _ _ _ w i))

  pub queue_keeps :
      (m : Moment) (output : SessionTranscriptOutput) (app : AppState S J)
      → Isolated app
      → Isolated (queue_channel_outbound_transcript m output app)
  unfolding queue_channel_outbound_transcript
  queue_keeps m output app i = elim (Bool-cases output.is_final) [
    | inr partial ↦ rw partial i
    | inl final ↦ elim (Bool-cases (is_empty (trim output.text))) [
      | inl blank ↦ rw (final, blank) i
      | inr filled ↦ elim (Option-cases (get output.session_id app.session_channel_routes)) [
        | inl e ↦ rw (final, filled, e, queue_channel_outbound_transcript) i
        | inr (key, e) ↦
            rw (final, filled, e, queue_channel_outbound_transcript)
              (with_queue i key _ (pushed key (reversed_owner key e)))
      ]
    ]
  ]
    where
      reversed_owner :
          (key : ChannelRouteKey)
          → get output.session_id app.session_channel_routes ≡ some key
          → OwnedBy app.session_owners output.session_id key.principal_id
      reversed_owner key e =
          get-All (λ b. OwnedBy app.session_owners b.0 b.1.principal_id) output.session_id key
            app.session_channel_routes i.reversed e

      queue : ChannelRouteKey → List ChannelOutboundItem
      queue key = unwrap_or (get key app.channel_outbox) []

      old :
          (key : ChannelRouteKey) (o : Option (List ChannelOutboundItem))
          → get key app.channel_outbox ≡ o
          → All (ItemOf app.session_owners key) (unwrap_or o [])
      old key none e = tt
      old key (some items) e =
          get-All (λ b. All (ItemOf app.session_owners b.0) b.1) key items app.channel_outbox
            i.queued e

      pushed :
          (key : ChannelRouteKey)
          → OwnedBy app.session_owners output.session_id key.principal_id
          → All (ItemOf app.session_owners key) (queue key ++ outbound_item m output ∷ [])
      pushed key owned =
          All-append (ItemOf app.session_owners key) (queue key) _ (old key _ refl) (owned, tt)
