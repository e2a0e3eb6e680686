-- ===== src/Gateway/Channels/Outbox.antt =====
-- The outbox of the channels of liveclaw-gateway/src/server.rs, as a queue for each route.
use liveclaw.Prelude.{
  ℕ, zero, suc, min, Bool, false, not, ◌&&◌, Option, none, some, List, [], ◌∷◌, ◌++◌, ◌≡◌, refl,
  sym, ap, String, string_Key, ◌==◌, arith, if◌then◌else◌, unwrap_or, Bool-cases, Option-cases, inl,
  inr,
}
use liveclaw.Prelude.Lists.{
  All, All-take, length, take, drop, take-append-drop, length-take, is_empty as is_empty_list,
}
use liveclaw.Prelude.Map.{Map, get, insert, remove, get-insert, get-remove, get-All}
use liveclaw.Text.{trim, is_empty}
use liveclaw.Gateway.Protocol.{ChannelOutboundItem}
use liveclaw.Gateway.State.{AppState, World, Moment, ChannelRouteKey, route_Key}
use liveclaw.Gateway.Handler.Rules.{Ensures, Ensures-ok, bind_rule, read_app_rule, change_app_rule}
use liveclaw.Gateway.Isolation.{OwnedBy, ItemOf, Isolated}
use liveclaw.Gateway.Isolation.Inbound.{route_key_keeps}
use liveclaw.Gateway.Channels.Route.{IsRouteOf, IsUnroutable, route_key-IsRouteOf}
use liveclaw.Gateway.Channels.{
  SessionTranscriptOutput, outbound_item, push_item, queue_channel_outbound_transcript, drop_items,
  drain_channel_outbox, bounded_max_items,
}

queue-push_item :
    (k j : ChannelRouteKey) (item : ChannelOutboundItem)
    (outbox : Map ChannelRouteKey (List ChannelOutboundItem))
    → unwrap_or (get j (push_item k item outbox)) []
      ≡ (if k == j then unwrap_or (get j outbox) [] ++ item ∷ [] else unwrap_or (get j outbox) [])
queue-push_item k j item outbox = elim (Bool-cases (k == j)) [
  | inl same ↦
      rw (get-insert k j (unwrap_or (get k outbox) [] ++ item ∷ []) outbox, same)
        (ap (λ i. unwrap_or (get i outbox) [] ++ item ∷ []) ((route_Key.equals_iff k j).0 same))
  | inr other ↦ rw (get-insert k j (unwrap_or (get k outbox) [] ++ item ∷ []) outbox, other) refl
]

length-taken :
    (k : ℕ) (queue : List ChannelOutboundItem)
    → length (take (min k (length queue)) queue) ≡ min k (length queue)
length-taken k queue = grind (arith, length-take (min k (length queue)) queue)

drop_empty : (n : ℕ) → drop {A = ChannelOutboundItem} n [] ≡ []
drop_empty zero = refl
drop_empty (suc n) = refl

queue-put :
    (k j : ChannelRouteKey) (queue : List ChannelOutboundItem)
    (outbox : Map ChannelRouteKey (List ChannelOutboundItem))
    → unwrap_or (get j (if is_empty_list queue then remove k outbox else insert k queue outbox)) []
      ≡ (if k == j then queue else unwrap_or (get j outbox) [])
queue-put k j [] outbox = elim (Bool-cases (k == j)) [
  | inl same ↦ rw (get-remove k j outbox, same) refl
  | inr other ↦ rw (get-remove k j outbox, other) refl
]
queue-put k j (i ∷ is) outbox = elim (Bool-cases (k == j)) [
  | inl same ↦ rw (get-insert k j (i ∷ is) outbox, same) refl
  | inr other ↦ rw (get-insert k j (i ∷ is) outbox, other) refl
]

module _ {S J : Type 0} where
  -- The queue of a route.
  abbrev pub queue_of : ChannelRouteKey → AppState S J → List ChannelOutboundItem
  queue_of key app = unwrap_or (get key app.channel_outbox) []

  -- Is this transcript one that the route waits for?
  abbrev pub is_awaited : ChannelRouteKey → SessionTranscriptOutput → AppState S J → Bool
  is_awaited key output app =
      output.is_final
      && (not (is_empty (trim output.text))
          && (elim (get output.session_id app.session_channel_routes) [
            | none ↦ false
            | some k ↦ k == key
          ]))

  -- A transcript joins the end of the queue of a route exactly when it is final, not blank, and of
  -- a session whose reverse route is that one; otherwise the queue stays as it is.
  pub queue-transcript :
      (m : Moment) (output : SessionTranscriptOutput) (key : ChannelRouteKey) (app : AppState S J)
      → queue_of key (queue_channel_outbound_transcript m output app) ≡ (
          if is_awaited key output app
          then queue_of key app ++ outbound_item m output ∷ []
          else queue_of key app)
  unfolding queue_channel_outbound_transcript
  queue-transcript m output key app =
      elim (Option-cases (get output.session_id app.session_channel_routes)) [
        | inl unrouted ↦ ground (arith, unrouted)
        | inr (k, routed) ↦ elim (Bool-cases output.is_final) [
          | inr partial ↦ rw partial refl
          | inl final ↦ elim (Bool-cases (is_empty (trim output.text))) [
            | inl blank ↦ rw (final, blank) refl
            | inr said ↦
                rw (final, said, routed)
                  (queue-push_item k key (outbound_item m output) app.channel_outbox)
          ]
        ]
      ]

  drop_items-empty :
      (key : ChannelRouteKey) (n : ℕ) (app : AppState S J)
      → get key app.channel_outbox ≡ none
      → drop_items key n app ≡ app
  unfolding drop_items
  drop_items-empty key n app empty = rw (drop_items, empty) refl

  drop_items-found :
      (key j : ChannelRouteKey) (n : ℕ) (queue : List ChannelOutboundItem) (app : AppState S J)
      → get key app.channel_outbox ≡ some queue
      → queue_of j (drop_items key n app) ≡ (if key == j then drop n queue else queue_of j app)
  unfolding drop_items
  drop_items-found key j n queue app found =
      rw (drop_items, found) (queue-put key j (drop n queue) app.channel_outbox)

  pub queue-drop_items :
      (key j : ChannelRouteKey) (n : ℕ) (app : AppState S J)
      → queue_of j (drop_items key n app)
        ≡ (if key == j then drop n (queue_of key app) else queue_of j app)
  queue-drop_items key j n app = elim (Option-cases (get key app.channel_outbox)) [
    | inr (queue, found) ↦ rw found (drop_items-found key j n queue app found)
    | inl empty ↦ rw (drop_items-empty key n app empty) (elim (Bool-cases (key == j)) [
      | inl same ↦ rw (same, sym ((route_Key.equals_iff key j).0 same), empty, drop_empty n) refl
      | inr other ↦ rw other refl
    ])
  ]

  -- The queue of a route is what a poll took and what it left.
  taken-append-left :
      (key : ChannelRouteKey) (n : ℕ) (app : AppState S J)
      → take n (queue_of key app) ++ queue_of key (drop_items key n app) ≡ queue_of key app
  taken-append-left key n app =
      rw (queue-drop_items key key n app, (route_Key.equals_iff key key).1 refl)
        (take-append-drop n (queue_of key app))

  left_by_poll :
      (key other : ChannelRouteKey) (n : ℕ) (app : AppState S J)
      → length (take n (queue_of key app)) ≡ n
      → queue_of other (drop_items key n app) ≡ (
          if key == other
          then drop (length (take n (queue_of key app))) (queue_of key app)
          else queue_of other app)
  left_by_poll key other n app whole = rw whole (queue-drop_items key other n app)

  -- The items of a route's queue belong to the principal of the route.
  queue-OwnedBy :
      (key : ChannelRouteKey) (app : AppState S J)
      → Isolated app
      → All (ItemOf app.session_owners key) (queue_of key app)
  queue-OwnedBy key app i = elim (Option-cases (get key app.channel_outbox)) [
    | inl empty ↦ rw empty tt
    | inr (queue, found) ↦ rw found (
        get-All (λ b. All (ItemOf app.session_owners b.0) b.1) key queue app.channel_outbox i.queued
          found)
  ]

  -- What a poll of a route ends in: the first items of the route's queue.
  abbrev pub Polled :
      (principal_id channel account_id external_user_id : String)
      → Option ℕ
      → World S J
      → ChannelRouteKey × List ChannelOutboundItem
      → World S J
      → Type 0
  Polled principal_id channel account_id external_user_id max_items w (key, items) v =
      IsRouteOf principal_id channel account_id external_user_id key
      × (items ++ queue_of key v.app ≡ queue_of key w.app)
      × (length items ≡ min (bounded_max_items max_items) (length (queue_of key w.app)))
      × ((other : ChannelRouteKey)
          → queue_of other v.app ≡ (
              if key == other
              then drop (length items) (queue_of key w.app)
              else queue_of other w.app))

  module _ (principal_id channel account_id external_user_id : String) (max_items : Option ℕ) where
    abbrev taken_of : ChannelRouteKey → World S J → ℕ
    taken_of key w = min (bounded_max_items max_items) (length (queue_of key w.app))

    -- A poll that is answered is one of the route of the principal, of the channel in lower case,
    -- which is one of the six, and of the account and the user, which are not blank, all trimmed:
    -- it takes the first items of the route's queue in their order, as many as the bounded limit
    -- and the queue allow, and leaves the rest of that queue and all of every other queue. A poll
    -- that is refused changes nothing, and names an unknown channel, a blank account or a blank
    -- user.
    pub drain_channel_outbox-Polled :
        (w : World S J)
        → Ensures
            (λ found v. Polled principal_id channel account_id external_user_id max_items w found v)
            (λ v. (v ≡ w) × IsUnroutable channel account_id external_user_id)
            (drain_channel_outbox principal_id channel account_id external_user_id max_items w)
    unfolding drain_channel_outbox
    drain_channel_outbox-Polled w =
        bind_rule _ _ _ _ _ w
          (route_key-IsRouteOf principal_id channel account_id external_user_id w)
          λ key v q. read_app_rule _ _ _ v (
            change_app_rule _ _ _ _ v (
              Ensures-ok _ _ _ _ (
                rw q.0 (
                  q.1,
                  taken-append-left key (taken_of key w) w.app,
                  length-taken (bounded_max_items max_items) (queue_of key w.app),
                  λ other.
                      left_by_poll key other (taken_of key w) w.app
                        (length-taken (bounded_max_items max_items) (queue_of key w.app)),
                ))))

    pub drain_channel_outbox-OwnedBy :
        (w : World S J)
        → Isolated w.app
        → Ensures
            (λ found v. All (λ i. OwnedBy w.app.session_owners i.session_id principal_id) found.1)
            (λ v. v ≡ w)
            (drain_channel_outbox principal_id channel account_id external_user_id max_items w)
    unfolding drain_channel_outbox
    drain_channel_outbox-OwnedBy w i =
        bind_rule _ _ _ _ _ w
          (route_key_keeps (λ v. v ≡ w) principal_id channel account_id external_user_id w refl)
          λ key v q. read_app_rule _ _ _ v (
            change_app_rule _ _ _ _ v (
              Ensures-ok _ _ _ _
                (rw (q.0, sym q.1) (All-take _ (taken_of key w) _ (queue-OwnedBy key w.app i)))))
