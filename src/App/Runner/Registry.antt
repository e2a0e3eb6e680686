-- ===== src/App/Runner/Registry.antt =====
-- What a `RunnerHandle` promises the gateway about its sessions, and that `RunnerAdapter` of
-- liveclaw-app/src/main.rs keeps it. The abstract view of the adapter is its registry: who owns the
-- session of an identifier.
use liveclaw.Prelude.{
  ℕ, Bool, true, false, Option, none, some, List, [], ◌∷◌, String, Result, is_ok, ◌≡◌, string_Key,
  ◌==◌, if◌then◌else◌,
}
use liveclaw.Prelude.Map.{Map, get}
use liveclaw.Gateway.Protocol.{SessionConfig}
use liveclaw.Gateway.State.{RunnerHandle}
use liveclaw.App.Runner.{RealtimeSession}

abbrev pub Registry : Type 0
Registry = String → Option String

pub data Request (J : Type 0) : Type 0 where
  create : (user_id session_id : String) → Option SessionConfig → Request J
  terminate : (session_id : String) → Request J
  audio : (session_id : String) → List ℕ → Request J
  commit : (session_id : String) → Request J
  respond : (session_id : String) → Request J
  interrupt : (session_id : String) → Request J
  prompt : (session_id text : String) → Request J
  tool_call : (session_id tool_name : String) → J → Request J

module _ {S J : Type 0} (runner : RunnerHandle S J) where
  abbrev accepted : {A : Type 0} → Result A String × S → Bool × S
  accepted (r, s) = (is_ok r, s)

  -- One request of the gateway: whether it was accepted, and the runner's next state.
  abbrev pub perform : Request J → S → Bool × S
  perform (create user_id session_id config) s =
      accepted (runner.create_session user_id session_id config s)
  perform (terminate session_id) s = accepted (runner.terminate_session session_id s)
  perform (audio session_id bytes) s = accepted (runner.send_audio session_id bytes s)
  perform (commit session_id) s = accepted (runner.commit_audio session_id s)
  perform (respond session_id) s = accepted (runner.create_response session_id s)
  perform (interrupt session_id) s = accepted (runner.interrupt_response session_id s)
  perform (prompt session_id text) s = accepted (runner.send_text session_id text s)
  perform (tool_call session_id tool_name arguments) s =
      accepted (runner.session_tool_call session_id tool_name arguments s)

  -- A sequence of requests: what became of each, and the state in the end.
  abbrev pub perform_all : List (Request J) → S → List (Request J × Bool) × S
  perform_all [] s = ([], s)
  perform_all (request ∷ requests) s =
      let (b, t) = perform request s in
      let (outcomes, u) = perform_all requests t in ((request, b) ∷ outcomes, u)

module _ {J : Type 0} where
  abbrev pub session_of : Request J → String
  session_of (create user_id session_id config) = session_id
  session_of (terminate session_id) = session_id
  session_of (audio session_id bytes) = session_id
  session_of (commit session_id) = session_id
  session_of (respond session_id) = session_id
  session_of (interrupt session_id) = session_id
  session_of (prompt session_id text) = session_id
  session_of (tool_call session_id tool_name arguments) = session_id

  -- The registry after an accepted request.
  abbrev pub after : Request J → Registry → Registry
  after (create user_id session_id config) reg k = if session_id == k then some user_id else reg k
  after (terminate session_id) reg k = if session_id == k then none else reg k
  after request reg k = reg k

  -- When a request may be accepted: a new session needs a free identifier, all else a session.
  abbrev pub Allowed : Request J → Registry → Type 0
  Allowed (create user_id session_id config) reg = reg session_id ≡ none
  Allowed request reg = ¬ (reg (session_of request) ≡ none)

  -- When it may be refused: the end of a session only if there is none.
  abbrev pub Refusable : Request J → Registry → Type 0
  Refusable (terminate session_id) reg = reg session_id ≡ none
  Refusable request reg = Unit {0}

  -- The outcomes of a sequence of requests are those that the promise allows, and lead from one
  -- registry to the other.
  abbrev pub Follows : Registry → List (Request J × Bool) → Registry → Type 0
  Follows reg [] end = reg ≡ end
  Follows reg ((request, true) ∷ outcomes) end =
      Allowed request reg × Follows (after request reg) outcomes end
  Follows reg ((request, false) ∷ outcomes) end = Refusable request reg × Follows reg outcomes end

abbrev pub owner_of : {H T : Type 0} → Option (RealtimeSession H T) → Option String
owner_of none = none
owner_of (some session) = some session.user_id

abbrev pub registry : {H T : Type 0} → Map String (RealtimeSession H T) → Registry
registry sessions k = owner_of (get k sessions)
