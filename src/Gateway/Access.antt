-- ===== src/Gateway/Access.antt =====
-- `authorize_session_access`, and the handlers `handle_pair` and `handle_authenticate`, of
-- liveclaw-gateway/src/server.rs.
use Prim.Native.String
use liveclaw.Prelude.{
  ℕ, Bool, true, Option, none, some, List, [], ◌∷◌, ◌++◌, String, Result, ok, err, str_eq, nat_eq,
  string_Key, if◌then◌else◌,
}
use liveclaw.Prelude.Lists.{any}
use liveclaw.Prelude.Map.{Map, get, insert}
use liveclaw.Text.{show}
use liveclaw.Gateway.Pairing.{try_pair, is_authenticated, hex_encode}
use liveclaw.Gateway.Protocol.{GatewayResponse, error, pair_success, pair_failure, authenticated}
use liveclaw.Gateway.State.{AppState, ConnectionState, Linked, Moment, Sender, auth_required_error}
use liveclaw.Gateway.Handler.{
  Action, ◌>>=◌, ◌>>◌, pure, stop, read_app, read_conn, change_app, change_conn, or_stop,
  unless_stop, choose,
}

-- `principal_from_token`: `{:x}` of a digest prints what `hex_encode` does.
unfoldable pub principal_from_token : (String → List ℕ) → String → String
principal_from_token sha256 token = hex_encode (sha256 token)

abbrev pub insert_if : Option Sender → String → Map String Sender → Map String Sender
insert_if none session_id senders = senders
insert_if (some tx) session_id senders = insert session_id tx senders

abbrev pub owns : ConnectionState → String → Bool
owns conn session_id = any (λ sid. str_eq sid session_id) conn.owned_sessions

abbrev pub push_owned : String → ConnectionState → ConnectionState
push_owned session_id conn = record conn { owned_sessions = conn.owned_sessions ++ session_id ∷ [] }

module _ {S J : Type 0} where
  -- The session's pushed responses go to these channels from now on.
  abbrev pub bind_senders : String → Option Sender → Option Sender → AppState S J → AppState S J
  bind_senders session_id ws_tx ws_priority_tx app = record app {
    ws_response_senders = insert_if ws_tx session_id app.ws_response_senders;
    ws_priority_senders = insert_if ws_priority_tx session_id app.ws_priority_senders;
  }

  -- The second half: the connection does not hold the session, and the registered owner decides.
  unfoldable pub authorize_by_owner :
      (session_id principal_id : String)
      → (ws_tx ws_priority_tx : Option Sender) → Option String
      → Action S J (Unit {0})
  authorize_by_owner session_id principal_id ws_tx ws_priority_tx none =
      stop
        (error "session_not_found" (String.◌++◌ "Session '" (String.◌++◌ session_id "' not found")))
  authorize_by_owner session_id principal_id ws_tx ws_priority_tx (some owner_id) = do
    unless_stop (str_eq owner_id principal_id)
        (error "forbidden_session" "Session is not owned by the authenticated principal")
    change_conn (push_owned session_id)
    change_app (bind_senders session_id ws_tx ws_priority_tx)

  unfoldable pub authorize_session_access :
      String → (ws_tx ws_priority_tx : Option Sender) → Action S J (Unit {0})
  authorize_session_access session_id ws_tx ws_priority_tx = do
    conn ← read_conn
    principal_id ← or_stop conn.principal_id auth_required_error
    app ← read_app
    choose (owns conn session_id) (change_app (bind_senders session_id ws_tx ws_priority_tx)) (
        authorize_by_owner session_id principal_id ws_tx ws_priority_tx
          (get session_id app.session_owners))

  module _ (env : Linked S J) (m : Moment) where
    -- The connection after `try_pair` answered, and the response.
    unfoldable pub pair_result :
        Result (Option String) ℕ → ConnectionState → ConnectionState × GatewayResponse J
    pair_result (ok (some token)) conn = (
      record conn {
        authenticated = true;
        token = some token;
        principal_id = some (principal_from_token env.sha256 token);
      },
      pair_success token,
    )
    pair_result (ok none) conn = (
      record conn { authenticated = true; principal_id = some "anonymous" },
      pair_success "no-auth-required",
    )
    pair_result (err secs) conn = (
      conn,
      pair_failure (
          if nat_eq secs 0
          then "Invalid pairing code"
          else String.◌++◌ "Locked out for " (String.◌++◌ (show secs) " seconds")),
    )

    unfoldable pub handle_pair : String → Action S J (GatewayResponse J)
    handle_pair given w =
        let (guard, r) = try_pair env.sha256 w.app.pairing given m.now m.later m.uuid in
        let (conn, resp) = pair_result r w.conn in
        (record { app = record (w.app) { pairing = guard }; conn = conn }, ok resp)

    unfoldable pub handle_authenticate : String → Action S J (GatewayResponse J)
    handle_authenticate token = do
      app ← read_app
      unless_stop (is_authenticated env.sha256 app.pairing token)
          (error "invalid_token" "Token authentication failed")
      let principal_id =
          if is_authenticated env.sha256 app.pairing ""
          then "anonymous"
          else principal_from_token env.sha256 token
      change_conn (λ conn. record conn {
        authenticated = true;
        token = some token;
        principal_id = some principal_id;
      })
      pure (authenticated principal_id)
