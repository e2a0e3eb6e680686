-- ===== src/Gateway/Sessions/Termination.antt =====
-- `handle_terminate_session` of liveclaw-gateway/src/server.rs and what it leaves in the maps.
use liveclaw.Prelude.{
  Bool, true, false, not, none, some, List, [], ◌∷◌, ◌≡◌, ◌≢◌, refl, arith, String, string_Key,
  str_eq, eq_iff, Bool-cases, inl, inr, ◌==◌,
}
use liveclaw.Prelude.Lists.{All, retain, any}
use liveclaw.Prelude.Map.{Map, get, remove, get-remove_self, get-remove}
use liveclaw.Gateway.State.{World, Linked, Moment, ChannelRouteKey, route_Key}
use liveclaw.Gateway.Handler.Rules.{
  Ensures, bind_rule, call_rule, settle_rule, change_app_rule, change_conn_rule,
}
use liveclaw.Gateway.Access.{owns}
use liveclaw.Gateway.Sessions.{handle_terminate_session, forget_session, keys_to, remove_all}
use liveclaw.Gateway.Isolation.Handlers.{Maps, At, authorize_keeps}

retain-not_to :
    (session_id : String) (routes : Map ChannelRouteKey String)
    → All (λ b. b.1 ≢ session_id) (retain (λ b. not (str_eq b.1 session_id)) routes)
retain-not_to session_id [] = tt
retain-not_to session_id ((key, sid) ∷ routes) =
    go (str_eq sid session_id) refl (retain-not_to session_id routes)
  where
    left : Bool → Map ChannelRouteKey String
    left b =
        let rest = retain (λ b. not (str_eq b.1 session_id)) routes in
        elim (not b) [ true ↦ (key, sid) ∷ rest | false ↦ rest ]

    go :
        (b : Bool)
        → str_eq sid session_id ≡ b
        → All (λ b. b.1 ≢ session_id) (retain (λ b. not (str_eq b.1 session_id)) routes)
        → All (λ b. b.1 ≢ session_id) (left b)
    go true e h = h
    go false e h = (λ same. ground (arith, eq_iff sid session_id), h)

any-retain-not :
    (session_id : String) (ids : List String)
    → any (λ sid. str_eq sid session_id) (retain (λ s. not (str_eq s session_id)) ids) ≡ false
any-retain-not session_id [] = refl
any-retain-not session_id (sid ∷ ids) = ground (arith, any-retain-not session_id ids)

get-remove-none :
    {V : Type 0} (key k : ChannelRouteKey) (m : Map ChannelRouteKey V)
    → get key m ≡ none
    → get key (remove k m) ≡ none
get-remove-none key k m h = ground (arith, get-remove k key m)

remove_all-none :
    {V : Type 0} (key : ChannelRouteKey) (ks : List ChannelRouteKey) (m : Map ChannelRouteKey V)
    → get key m ≡ none
    → get key (remove_all ks m) ≡ none
unfolding remove_all
remove_all-none key [] m h = h
remove_all-none key (k ∷ ks) m h = remove_all-none key ks (remove k m) (get-remove-none key k m h)

-- The outbox of every route that led to the session is gone.
remove_all-keys_to :
    {V : Type 0} (session_id : String) (key : ChannelRouteKey) (routes : Map ChannelRouteKey String)
    (m : Map ChannelRouteKey V)
    → get key routes ≡ some session_id
    → get key (remove_all (keys_to session_id routes) m) ≡ none
unfolding remove_all keys_to get
remove_all-keys_to session_id key [] m h = cc
remove_all-keys_to session_id key ((k, sid) ∷ routes) m h = elim (Bool-cases (k == key)) [
  | inl here ↦
      let arrives : sid ≡ session_id = ground (arith) in
      rw ((eq_iff sid session_id).1 arrives) (
        remove_all-none key (keys_to session_id routes) (remove k m)
          (rw ((route_Key.equals_iff k key).0 here) (get-remove_self key m)))
  | inr other ↦ elim (Bool-cases (str_eq sid session_id)) [
    | inl too ↦ rw too (remove_all-keys_to session_id key routes (remove k m) (rw other at h))
    | inr not_it ↦ rw not_it (remove_all-keys_to session_id key routes m (rw other at h))
  ]
]

-- No map knows the session, and the routes that led to it have no outbox.
pub record Forgotten {S J : Type 0} (session_id : String) (w v : World S J) : Type 0 where
  pub unowned : get session_id v.app.session_owners ≡ none
  pub unheard : get session_id v.app.audio_senders ≡ none
  pub unbound : get session_id v.app.ws_response_senders ≡ none
  pub unnoticed : get session_id v.app.ws_priority_senders ≡ none
  pub unreversed : get session_id v.app.session_channel_routes ≡ none
  pub unrouted : All (λ b. b.1 ≢ session_id) v.app.channel_routes
  pub unqueued :
      (key : ChannelRouteKey)
      → get key w.app.channel_routes ≡ some session_id
      → get key v.app.channel_outbox ≡ none
  pub unheld : owns v.conn session_id ≡ false

module _ {S J : Type 0} (env : Linked S J) (m : Moment) (session_id : String) where
  -- The four maps are those of `w`.
  abbrev pub SameMaps : World S J → Maps
  SameMaps w owners routes reverse_routes outbox =
      (owners ≡ w.app.session_owners)
      × (routes ≡ w.app.channel_routes)
      × (reverse_routes ≡ w.app.session_channel_routes)
      × (outbox ≡ w.app.channel_outbox)

  -- A termination that is authorised leaves no entry of the session in any map, no route to it, no
  -- outbox of a route that led to it, and no hold of the connection on it, whether or not the
  -- runner reports an error; one that is refused leaves owners, routes, reverse routes and outbox
  -- as they were.
  pub terminate-Forgotten :
      (w : World S J)
      → Ensures
          (λ _ v. Forgotten session_id w v)
          (At (SameMaps w))
          (handle_terminate_session env m session_id w)
  unfolding handle_terminate_session forget_session
  terminate-Forgotten w =
      bind_rule _ (λ _. At (SameMaps w)) _ _ _ w
        (authorize_keeps (SameMaps w) session_id none none w (refl, refl, refl, refl))
        λ _ v same. change_app_rule _ _ _ _ v (
          change_conn_rule _ _ _ _ _ (
            call_rule _ _ _ _ _ λ r s _. settle_rule _ _ _ _ _ _ _ λ resp. record {
              unowned = get-remove_self session_id v.app.session_owners;
              unheard = get-remove_self session_id v.app.audio_senders;
              unbound = get-remove_self session_id v.app.ws_response_senders;
              unnoticed = get-remove_self session_id v.app.ws_priority_senders;
              unreversed = get-remove_self session_id v.app.session_channel_routes;
              unrouted = retain-not_to session_id v.app.channel_routes;
              unqueued = λ key here.
                  remove_all-keys_to session_id key v.app.channel_routes v.app.channel_outbox
                    (rw (same.1) here);
              unheld = any-retain-not session_id v.conn.owned_sessions;
            }))
