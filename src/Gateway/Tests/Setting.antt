-- ===== src/Gateway/Tests/Setting.antt =====
-- A concrete server for the runs: a runner that accepts everything, and a session of Alice's.
use liveclaw.Prelude.{
  ℕ, suc, true, false, none, some, [], ◌∷◌, String, ok, err, string_Key, nat_Key,
}
use liveclaw.Prelude.Lists.{length}
use liveclaw.Text.{codes}
use liveclaw.Gateway.Pairing.{PairingGuard, hash_token}
use liveclaw.Gateway.Protocol.{ChannelOutboundItem}
use liveclaw.Gateway.State.{
  AppState, ConnectionState, World, Linked, Moment, ChannelRouteKey, route_Key, RunnerHandle,
  JsonApi, new_connection,
}
use liveclaw.Gateway.Isolation.Handlers.{CreatesAsAsked}

-- A runner that counts its calls and creates what it is asked for.
abbrev pub counting : RunnerHandle ℕ String
counting = record {
  create_session = λ principal_id session_id config n. (ok session_id, suc n);
  terminate_session = λ session_id n. (ok tt, suc n);
  send_audio = λ session_id audio n. (ok tt, suc n);
  commit_audio = λ session_id n. (ok tt, suc n);
  create_response = λ session_id n. (ok tt, suc n);
  interrupt_response = λ session_id n. (ok tt, suc n);
  send_text = λ session_id prompt n. (ok tt, suc n);
  session_tool_call = λ session_id tool_name arguments n. (err "no such tool", suc n);
  diagnostics = λ n. (err "no diagnostics", suc n);
}

abbrev pub text_json : JsonApi String
text_json = record {
  get_field = λ value name. none;
  as_str = λ value. some value;
  as_bool = λ value. none;
  read_arguments = λ path max_bytes. path;
}

abbrev pub linked : Linked ℕ String
linked = record { runner = counting; json = text_json; sha256 = λ s. length (codes s) ∷ [] }

pub counting_as_asked : CreatesAsAsked linked.runner
counting_as_asked principal_id session_id config n sid e = cc

abbrev pub moment : Moment
moment = record { now = 5; later = 6; unix_ms = 1700; uuid = "session-1"; is_open = λ tx. true }

-- Pairing is off: a connection is that of the anonymous principal as soon as it opens.
abbrev pub open_guard : PairingGuard
open_guard = record {
  require_pairing = false;
  pairing_code = none;
  token_hashes = [];
  failed_attempts = 0;
  max_attempts = 5;
  lockout_duration = 300000000000;
  lockout_until = none;
}

abbrev pub route : ChannelRouteKey
route = record {
  principal_id = "alice";
  channel = "slack";
  account_id = "team";
  external_user_id = "u1";
}

abbrev pub item : ChannelOutboundItem
item = record { id = "i1"; session_id = "s1"; text = "hello"; created_at_unix_ms = 1 }

-- Alice's session, reached by her route, with one item in its outbox. The server
-- requires pairing, and has issued one token.
abbrev pub busy : AppState ℕ String
busy = record {
  pairing = record open_guard {
    require_pairing = true;
    token_hashes = hash_token linked.sha256 "tok" ∷ [];
  };
  runner_state = 0;
  started_at = 0;
  audio_senders = [];
  session_owners = ("s1", "alice") ∷ [];
  ws_response_senders = ("s1", 1) ∷ [];
  ws_priority_senders = ("s1", 2) ∷ [];
  channel_routes = (route, "s1") ∷ [];
  session_channel_routes = ("s1", route) ∷ [];
  channel_outbox = (route, item ∷ []) ∷ [];
  channel_jobs = [];
  tasks = [];
  sent = [];
}

abbrev pub alice : ConnectionState
alice = record new_connection { authenticated = true; principal_id = some "alice" }

abbrev pub bob : ConnectionState
bob = record new_connection { authenticated = true; principal_id = some "bob" }

abbrev pub at_alice : World ℕ String
at_alice = record { app = busy; conn = alice }

abbrev pub at_bob : World ℕ String
at_bob = record { app = busy; conn = bob }

abbrev pub at_stranger : World ℕ String
at_stranger = record { app = busy; conn = new_connection }
