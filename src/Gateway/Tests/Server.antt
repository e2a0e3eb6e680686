-- ===== src/Gateway/Tests/Server.antt =====
-- Runs of the server with a runner that accepts everything.
use liveclaw.Prelude.{
  ℕ, true, none, some, [], ◌∷◌, ◌++◌, ◌≡◌, refl, String, str_ne, string_Key, nat_Key, if◌then◌else◌,
}
use liveclaw.Prelude.Lists.{All}
use liveclaw.Prelude.Map.{get, insert}
use liveclaw.Gateway.Protocol.{session_audio_commit, list_channel_jobs, create_session}
use liveclaw.Gateway.State.{World, route_Key, auth_required_error}
use liveclaw.Gateway.Handler.Rules.{Ensures}
use liveclaw.Gateway.Channels.{
  SessionTranscriptOutput, queue_channel_outbound_transcript, drain_channel_outbox, outbound_item,
}
use liveclaw.Gateway.Channels.Route.{IsUnroutable}
use liveclaw.Gateway.Channels.Outbox.{
  queue_of, is_awaited, queue-transcript, Polled, drain_channel_outbox-Polled,
}
use liveclaw.Gateway.Sessions.{handle_terminate_session}
use liveclaw.Gateway.Sessions.Termination.{Forgotten, SameMaps, terminate-Forgotten}
use liveclaw.Gateway.Dispatch.{handle_message, open_connection}
use liveclaw.Gateway.Dispatch.Guards.{
  handle_message-refuses, handle_message-refuses_foreign, refusal, is_foreign,
}
use liveclaw.Gateway.Handler.{respond}
use liveclaw.Gateway.Protocol.{ChannelJob, channel_jobs}
use liveclaw.Gateway.Jobs.{handle_list_channel_jobs}
use liveclaw.Gateway.Jobs.Listing.{count, registered, handle_list_channel_jobs-lists}
use liveclaw.Prelude.{List, Bool}
use liveclaw.Gateway.Isolation.{OwnedBy, Isolated, Fresh}
use liveclaw.Gateway.Isolation.Handlers.{At}
use liveclaw.Gateway.Http.Router.{handle_http}
use liveclaw.Gateway.Isolation.Http.{handle_http-Isolated}
use liveclaw.Gateway.Tests.Http.{no_query, slack_message}
use liveclaw.Gateway.System.{
  Server, started, opened, handled, Reachable, here, next, on_open, on_message,
}
use liveclaw.Gateway.System.Invariant.{handle_message-Isolated, Reachable-poll}
use liveclaw.Gateway.Tests.Setting.{
  linked, counting_as_asked, moment, open_guard, route, busy, alice, at_alice, at_bob, at_stranger,
}

busy_owner : (p : String) → get "s1" busy.session_owners ≡ some p → p ≡ "alice"
unfolding get
busy_owner p e = cc

busy-Isolated : Isolated busy
busy-Isolated = record {
  routed = (busy_owner, tt);
  reversed = (busy_owner, tt);
  queued = ((busy_owner, tt), tt);
}

busy-Fresh : Fresh moment.uuid busy
busy-Fresh = record {
  unrouted = (str_ne "s1" "session-1" refl, tt);
  unreversed = (str_ne "s1" "session-1" refl, tt);
  unqueued = ((str_ne "s1" "session-1" refl, tt), tt);
}

handle_message-refuses_example :
    handle_message linked moment 1 2 list_channel_jobs at_stranger
    ≡ (at_stranger, auth_required_error)
handle_message-refuses_example =
    handle_message-refuses linked moment 1 2 list_channel_jobs at_stranger refl refl

bob_is_foreign : is_foreign "bob" (get "s1" busy.session_owners) ≡ true
unfolding get
bob_is_foreign = refl

handle_message-refuses_foreign_example :
    handle_message linked moment 1 2 (session_audio_commit "s1") at_bob
    ≡ (at_bob, refusal "s1" (get "s1" busy.session_owners))
handle_message-refuses_foreign_example =
    handle_message-refuses_foreign linked moment 1 2 at_bob "bob" refl refl
      (session_audio_commit "s1") "s1" refl refl bob_is_foreign

abbrev said : SessionTranscriptOutput
said = record { session_id = "s1"; text = " again "; is_final = true }

queue-transcript_example : queue_of route (queue_channel_outbound_transcript moment said busy) ≡ (
    if is_awaited route said busy
    then queue_of route busy ++ outbound_item moment said ∷ []
    else queue_of route busy)
queue-transcript_example = queue-transcript moment said route busy

drain_channel_outbox-Polled_example :
    Ensures
      (λ found v. Polled "alice" " Slack" "team" "u1" (some 7) at_alice found v)
      (λ v. (v ≡ at_alice) × IsUnroutable " Slack" "team" "u1")
      (drain_channel_outbox "alice" " Slack" "team" "u1" (some 7) at_alice)
drain_channel_outbox-Polled_example =
    drain_channel_outbox-Polled "alice" " Slack" "team" "u1" (some 7) at_alice

terminate-Forgotten_example :
    Ensures
      (λ _ v. Forgotten "s1" at_alice v)
      (At (SameMaps linked moment "s1" at_alice))
      (handle_terminate_session linked moment "s1" at_alice)
terminate-Forgotten_example = terminate-Forgotten linked moment "s1" at_alice

handle_message-Isolated_example :
    Isolated (handle_message linked moment 1 2 (create_session none) at_bob).0.app
handle_message-Isolated_example =
    handle_message-Isolated linked counting_as_asked moment 1 2 (create_session none) at_bob
      busy-Isolated busy-Fresh

handle_http-Isolated_example :
    Isolated (handle_http linked moment (some "Bearer tok") no_query 7 8 slack_message busy).0
handle_http-Isolated_example =
    handle_http-Isolated linked moment counting_as_asked (some "Bearer tok") no_query 7 8
      slack_message busy busy-Isolated busy-Fresh

-- The server opens connection 0, which creates a session.
abbrev beginning : Server ℕ String
beginning = started open_guard 0 0 []

abbrev opened_server : Server ℕ String
opened_server = on_open linked 0 beginning

anonymous_client : get 0 opened_server.clients ≡ some (open_connection linked beginning.app)
unfolding get insert
anonymous_client = refl

nothing_yet : Fresh moment.uuid opened_server.app
unfolding started
nothing_yet = record { unrouted = tt; unreversed = tt; unqueued = tt }

abbrev with_session : Server ℕ String
with_session =
    on_message linked moment 0 1 2 (create_session none) (open_connection linked beginning.app)
      opened_server

with_session_reached : Reachable linked beginning with_session
with_session_reached = next opened_server _ (next beginning _ here (opened 0 beginning)) (
    handled moment 0 1 2 (create_session none) (open_connection linked beginning.app) opened_server
      anonymous_client nothing_yet)

Reachable-poll_example :
    Isolated with_session.app
    × Ensures
        (λ found v. All (λ i. OwnedBy with_session.app.session_owners i.session_id "alice") found.1)
        (λ v. v ≡ record { app = with_session.app; conn = alice })
        (drain_channel_outbox "alice" "slack" "team" "u1" none
          (record { app = with_session.app; conn = alice }))
Reachable-poll_example =
    Reachable-poll linked counting_as_asked open_guard 0 0 [] with_session alice "alice" "slack"
      "team" "u1" none with_session_reached

abbrev daily : ChannelJob
daily = record {
  job_id = "j1";
  channel = "slack";
  account_id = "team";
  external_user_id = "u1";
  text = "good morning";
  interval_seconds = 86400;
  create_response = true;
  created_at_unix_ms = 1;
}

abbrev at_alice_daily : World ℕ String
at_alice_daily = record {
  app = record busy {
    channel_jobs =
        ("j1", record { owner_principal_id = "alice"; job = daily; cancel_tx = true }) ∷ [];
  };
  conn = alice;
}

handle_list_channel_jobs-lists_example :
    (js : List ChannelJob) × (respond handle_list_channel_jobs at_alice_daily
      ≡ (at_alice_daily, channel_jobs js))
    × ((p : ChannelJob → Bool) → count p js ≡ registered p "alice" at_alice_daily.app.channel_jobs)
handle_list_channel_jobs-lists_example = handle_list_channel_jobs-lists "alice" at_alice_daily refl
