-- ===== src/Gateway/Isolation/Messages.antt =====
-- The session messages of liveclaw-gateway/src/server.rs and the isolation of principals.
use liveclaw.Prelude.{String, Bool, not, Option, none, some, string_Key, Result, ok, err, str_eq}
use liveclaw.Text.{trim}
use liveclaw.Gateway.Protocol.{GraphExecutionReport, RuntimeDiagnostics, GatewayResponse}
use liveclaw.Gateway.State.{AppState, World, Linked, Moment, Sender, route_Key}
use liveclaw.Gateway.Handler.{Action, ◌>>=◌, forward}
use liveclaw.Gateway.Handler.Rules.{
  Ensures, Ensures-ok, Ensures-err, bind_rule, or_stop_rule, unless_rule, choose_rule, call_rule,
  settle_rule, change_app_rule, change_conn_rule,
}
use liveclaw.Gateway.Access.{authorize_session_access}
use liveclaw.Gateway.Sessions.{
  forget_session, keys_to, handle_terminate_session, handle_session_audio,
  handle_session_audio_commit, handle_session_response_create, handle_session_response_interrupt,
  handle_session_tool_call, tool_response, handle_get_diagnostics, diagnostics_response,
  handle_session_prompt, bridge_prompt, bridge_result,
}
use liveclaw.Gateway.Isolation.{IsIsolated, Isolated}
use liveclaw.Gateway.Isolation.Handlers.{At, authorize_keeps, require_keeps}
use liveclaw.Gateway.Isolation.Rules.{
  without_owner, without_reverse, retaining_routes, without_queues,
}

pub forget_session_keeps :
    {S J : Type 0} (session_id : String) (app : AppState S J)
    → Isolated app
    → Isolated (forget_session session_id app)
unfolding forget_session
forget_session_keeps session_id app i = without_queues (keys_to session_id app.channel_routes) (
    without_reverse
      (retaining_routes (without_owner i session_id) (λ b. not (str_eq b.1 session_id))) session_id)

module _ {S J : Type 0} where
  abbrev pub Kept : {A : Type 0} → World S J × Result A (GatewayResponse J) → Type 0
  Kept = Ensures (λ _ v. Isolated v.app) (λ v. Isolated v.app)

  -- An action after authorisation.
  authorized_keeps :
      {A : Type 0} (session_id : String) (tx ptx : Option Sender) (rest : Unit {0} → Action S J A)
      (w : World S J)
      → Isolated w.app
      → ((v : World S J) → Isolated v.app → Kept (rest tt v))
      → Kept ((authorize_session_access session_id tx ptx >>= rest) w)
  authorized_keeps session_id tx ptx rest w i k =
      bind_rule _ (λ _. At IsIsolated) _ _ _ w (authorize_keeps IsIsolated session_id tx ptx w i)
        λ _. k

  forward_keeps :
      (op : S → Result (Unit {0}) String × S) (accepted : GatewayResponse J) (code text : String)
      (w : World S J)
      → Isolated w.app
      → Kept (forward op accepted code text w)
  forward_keeps op accepted code text w i =
      call_rule _ _ _ _ w λ r s _. settle_rule _ _ accepted code text r _ (λ _. i)

  module _ (env : Linked S J) (m : Moment) where
    pub terminate_keeps :
        (session_id : String) (w : World S J)
        → Isolated w.app
        → Kept (handle_terminate_session env m session_id w)
    unfolding handle_terminate_session
    terminate_keeps session_id w i = authorized_keeps session_id none none _ w i λ v k.
        change_app_rule _ _ _ _ v (
          change_conn_rule _ _ _ _ _
            (forward_keeps _ _ _ _ _ (forget_session_keeps session_id v.app k)))

    pub audio_keeps :
        (session_id audio : String) (tx ptx : Sender) (w : World S J)
        → Isolated w.app
        → Kept (handle_session_audio env m session_id audio tx ptx w)
    unfolding handle_session_audio
    audio_keeps session_id audio tx ptx w i =
        authorized_keeps session_id (some tx) (some ptx) _ w i
          λ v k. or_stop_rule _ _ _ _ _ v k λ bytes _. forward_keeps _ _ _ _ v k

    pub commit_keeps :
        (session_id : String) (tx ptx : Sender) (w : World S J)
        → Isolated w.app
        → Kept (handle_session_audio_commit env m session_id tx ptx w)
    unfolding handle_session_audio_commit
    commit_keeps session_id tx ptx w i =
        authorized_keeps session_id (some tx) (some ptx) _ w i λ v k. forward_keeps _ _ _ _ v k

    pub response_create_keeps :
        (session_id : String) (tx ptx : Sender) (w : World S J)
        → Isolated w.app
        → Kept (handle_session_response_create env m session_id tx ptx w)
    unfolding handle_session_response_create
    response_create_keeps session_id tx ptx w i =
        authorized_keeps session_id (some tx) (some ptx) _ w i λ v k. forward_keeps _ _ _ _ v k

    pub interrupt_keeps :
        (session_id : String) (tx ptx : Sender) (w : World S J)
        → Isolated w.app
        → Kept (handle_session_response_interrupt env m session_id tx ptx w)
    unfolding handle_session_response_interrupt
    interrupt_keeps session_id tx ptx w i =
        authorized_keeps session_id (some tx) (some ptx) _ w i λ v k. forward_keeps _ _ _ _ v k

    tool_response_keeps :
        (session_id tool_name : String) (r : Result (J × GraphExecutionReport J) String)
        (w : World S J)
        → Isolated w.app
        → Kept (tool_response session_id tool_name r w)
    unfolding tool_response
    tool_response_keeps session_id tool_name (ok _) w i = Ensures-ok _ _ _ w i
    tool_response_keeps session_id tool_name (err e) w i = Ensures-ok _ _ _ w i

    pub tool_call_keeps :
        (session_id tool_name : String) (arguments : J) (tx ptx : Sender) (w : World S J)
        → Isolated w.app
        → Kept (handle_session_tool_call env m session_id tool_name arguments tx ptx w)
    unfolding handle_session_tool_call
    tool_call_keeps session_id tool_name arguments tx ptx w i =
        authorized_keeps session_id (some tx) (some ptx) _ w i
          λ v k. call_rule _ _ _ _ v λ r s _. tool_response_keeps session_id tool_name r _ k

    diagnostics_response_keeps :
        (r : Result RuntimeDiagnostics String) (w : World S J)
        → Isolated w.app
        → Kept (diagnostics_response r w)
    unfolding diagnostics_response
    diagnostics_response_keeps (ok _) w i = Ensures-ok _ _ _ w i
    diagnostics_response_keeps (err e) w i = Ensures-ok _ _ _ w i

    pub get_diagnostics_keeps :
        (w : World S J) → Isolated w.app → Kept (handle_get_diagnostics env m w)
    unfolding handle_get_diagnostics
    get_diagnostics_keeps w i = call_rule _ _ _ _ w λ r s _. diagnostics_response_keeps r _ i

    bridge_result_keeps :
        (session_id trimmed : String) (tx : Sender) (r : Result (J × GraphExecutionReport J) String)
        (w : World S J)
        → Isolated w.app
        → Kept (bridge_result env m session_id trimmed tx r w)
    unfolding bridge_result
    bridge_result_keeps session_id trimmed tx (ok _) w i =
        change_app_rule _ _ _ _ w (Ensures-ok _ _ _ _ i)
    bridge_result_keeps session_id trimmed tx (err e) w i = Ensures-err _ _ _ w i

    bridge_keeps :
        (session_id trimmed : String) (tx : Sender) (path : Option String) (w : World S J)
        → Isolated w.app
        → Kept (bridge_prompt env m session_id trimmed tx path w)
    unfolding bridge_prompt
    bridge_keeps session_id trimmed tx none w i = Ensures-ok _ _ _ w i
    bridge_keeps session_id trimmed tx (some path) w i =
        call_rule _ _ _ _ w λ r s _. bridge_result_keeps session_id trimmed tx r _ i

    pub prompt_keeps :
        (session_id prompt : String) (create_response : Bool) (tx ptx : Sender) (w : World S J)
        → Isolated w.app
        → Kept (handle_session_prompt env m session_id prompt create_response tx ptx w)
    unfolding handle_session_prompt
    prompt_keeps session_id prompt create_response tx ptx w i =
        authorized_keeps session_id (some tx) (some ptx) _ w i λ v k. unless_rule _ _ _ _ _ v k λ _.
          bind_rule _ (λ _ u. Isolated u.app) _ _ _ v
            (bridge_keeps session_id (trim prompt) tx _ v k)
            λ outbound u l.
              bind_rule _ (λ _. At IsIsolated) _ _ _ u (require_keeps IsIsolated _ _ _ u l)
                λ _ t n.
                  bind_rule _ (λ _. At IsIsolated) _ _ _ t
                    (choose_rule _ _ _ _ _ t (λ _. require_keeps IsIsolated _ _ _ t n)
                      (λ _. Ensures-ok _ _ tt t n))
                    λ _ y o. Ensures-ok _ _ _ y o
