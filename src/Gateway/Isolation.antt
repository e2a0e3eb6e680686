-- ===== src/Gateway/Isolation.antt =====
-- Isolation of principals: what the four maps of `AppState`, of liveclaw-gateway/src/server.rs, about
-- sessions and channel routes promise one another.
pub mod Rules
pub mod Handlers
pub mod Inbound
pub mod Messages
pub mod Channels
pub mod Dispatch
pub mod Http
use liveclaw.Prelude.{
  ℕ, String, Bool, Option, none, some, List, [], ◌∷◌, ◌≡◌, ◌≢◌, refl, arith, string_Key, eq_iff,
  if◌then◌else◌,
}
use liveclaw.Prelude.Lists.{All}
use liveclaw.Prelude.Map.{Map, get}
use liveclaw.Gateway.Protocol.{ChannelOutboundItem}
use liveclaw.Gateway.State.{AppState, ChannelRouteKey}

-- If the session has an owner, it is this principal.
abbrev pub OwnedBy : Map String String → String → String → Type 0
OwnedBy owners session_id principal_id =
    (p : String) → get session_id owners ≡ some p → p ≡ principal_id

abbrev pub ItemOf : Map String String → ChannelRouteKey → ChannelOutboundItem → Type 0
ItemOf owners key item = OwnedBy owners item.session_id key.principal_id

pub record IsIsolated (owners : Map String String) (routes : Map ChannelRouteKey String)
    (reverse_routes : Map String ChannelRouteKey)
    (outbox : Map ChannelRouteKey (List ChannelOutboundItem)) : Type 0 where
  pub routed : All (λ b. OwnedBy owners b.1 b.0.principal_id) routes
  pub reversed : All (λ b. OwnedBy owners b.0 b.1.principal_id) reverse_routes
  pub queued : All (λ b. All (ItemOf owners b.0) b.1) outbox

abbrev pub Isolated : {S J : Type 0} → AppState S J → Type 0
Isolated app =
    IsIsolated app.session_owners app.channel_routes app.session_channel_routes app.channel_outbox

-- No entry speaks of the session: what a new UUID gives.
pub record IsFresh (session_id : String) (routes : Map ChannelRouteKey String)
    (reverse_routes : Map String ChannelRouteKey)
    (outbox : Map ChannelRouteKey (List ChannelOutboundItem)) : Type 0 where
  pub unrouted : All (λ b. b.1 ≢ session_id) routes
  pub unreversed : All (λ b. b.0 ≢ session_id) reverse_routes
  pub unqueued : All (λ b. All (λ (i : ChannelOutboundItem). i.session_id ≢ session_id) b.1) outbox

abbrev pub Fresh : {S J : Type 0} → String → AppState S J → Type 0
Fresh session_id app =
    IsFresh session_id app.channel_routes app.session_channel_routes app.channel_outbox
