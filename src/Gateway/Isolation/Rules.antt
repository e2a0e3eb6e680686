-- ===== src/Gateway/Isolation/Rules.antt =====
-- Single changes of the maps of `AppState` and the isolation of principals.
use liveclaw.Prelude.{String, Bool, List, [], ◌∷◌, ◌≢◌, arith, string_Key, eq_iff}
use liveclaw.Prelude.Lists.{All, All-imp, All-imp_two, retain}
use liveclaw.Prelude.Map.{
  Map, insert, remove, get-insert, get-remove, All-remove, All-insert, All-retain,
}
use liveclaw.Gateway.Protocol.{ChannelOutboundItem}
use liveclaw.Gateway.State.{ChannelRouteKey, route_Key}
use liveclaw.Gateway.Sessions.{remove_all}
use liveclaw.Gateway.Isolation.{OwnedBy, ItemOf, IsIsolated, IsFresh}

module _ (owners : Map String String) where
  OwnedBy-remove : (gone s p : String) → OwnedBy owners s p → OwnedBy (remove gone owners) s p
  OwnedBy-remove gone s p h q e = h q (ground (arith, get-remove gone s owners))

  OwnedBy-insert :
      (new q s p : String) → OwnedBy owners s p → s ≢ new → OwnedBy (insert new q owners) s p
  OwnedBy-insert new q s p h ne r e = h r (ground (arith, get-insert new s q owners, eq_iff new s))

  pub OwnedBy-insert_self : (new q : String) → OwnedBy (insert new q owners) new q
  OwnedBy-insert_self new q r e = ground (arith, get-insert new new q owners, eq_iff new new)

module _ {owners : Map String String} {routes : Map ChannelRouteKey String}
    {reverse_routes : Map String ChannelRouteKey}
    {outbox : Map ChannelRouteKey (List ChannelOutboundItem)}
    (i : IsIsolated owners routes reverse_routes outbox) where
  pub without_owner : (gone : String) → IsIsolated (remove gone owners) routes reverse_routes outbox
  without_owner gone = record {
    routed = All-imp _ _ routes (λ b. OwnedBy-remove owners gone b.1 b.0.principal_id) i.routed;
    reversed =
        All-imp _ _ reverse_routes (λ b. OwnedBy-remove owners gone b.0 b.1.principal_id)
          i.reversed;
    queued =
        All-imp _ _ outbox
          (λ b.
            All-imp _ _ b.1 (λ item. OwnedBy-remove owners gone item.session_id b.0.principal_id))
          i.queued;
  }

  pub with_owner :
      (new q : String)
      → IsFresh new routes reverse_routes outbox
      → IsIsolated (insert new q owners) routes reverse_routes outbox
  with_owner new q f = record {
    routed =
        All-imp_two _ _ _ routes (λ b. OwnedBy-insert owners new q b.1 b.0.principal_id) i.routed
          f.unrouted;
    reversed =
        All-imp_two _ _ _ reverse_routes (λ b. OwnedBy-insert owners new q b.0 b.1.principal_id)
          i.reversed f.unreversed;
    queued =
        All-imp_two _ _ _ outbox
          (λ b.
            All-imp_two _ _ _ b.1
              (λ item. OwnedBy-insert owners new q item.session_id b.0.principal_id))
          i.queued f.unqueued;
  }

  pub with_route :
      (key : ChannelRouteKey) (s : String)
      → OwnedBy owners s key.principal_id
      → IsIsolated owners (insert key s routes) reverse_routes outbox
  with_route key s h = record {
    routed = All-insert _ key s routes h i.routed;
    reversed = i.reversed;
    queued = i.queued;
  }

  pub with_reverse :
      (s : String) (key : ChannelRouteKey)
      → OwnedBy owners s key.principal_id
      → IsIsolated owners routes (insert s key reverse_routes) outbox
  with_reverse s key h = record {
    routed = i.routed;
    reversed = All-insert _ s key reverse_routes h i.reversed;
    queued = i.queued;
  }

  pub with_queue :
      (key : ChannelRouteKey) (items : List ChannelOutboundItem)
      → All (ItemOf owners key) items
      → IsIsolated owners routes reverse_routes (insert key items outbox)
  with_queue key items h = record {
    routed = i.routed;
    reversed = i.reversed;
    queued = All-insert _ key items outbox h i.queued;
  }

  -- Entries may always go.
  pub without_route :
      (key : ChannelRouteKey) → IsIsolated owners (remove key routes) reverse_routes outbox
  without_route key = record {
    routed = All-remove _ key routes i.routed;
    reversed = i.reversed;
    queued = i.queued;
  }

  pub retaining_routes :
      (p : ChannelRouteKey × String → Bool)
      → IsIsolated owners (retain p routes) reverse_routes outbox
  retaining_routes p = record {
    routed = All-retain _ p routes i.routed;
    reversed = i.reversed;
    queued = i.queued;
  }

  pub without_reverse : (s : String) → IsIsolated owners routes (remove s reverse_routes) outbox
  without_reverse s = record {
    routed = i.routed;
    reversed = All-remove _ s reverse_routes i.reversed;
    queued = i.queued;
  }

  pub without_queue :
      (key : ChannelRouteKey) → IsIsolated owners routes reverse_routes (remove key outbox)
  without_queue key = record {
    routed = i.routed;
    reversed = i.reversed;
    queued = All-remove _ key outbox i.queued;
  }

-- The queues of several routes may go.
pub without_queues :
    {owners : Map String String} {routes : Map ChannelRouteKey String}
    {reverse_routes : Map String ChannelRouteKey} (keys : List ChannelRouteKey)
    {outbox : Map ChannelRouteKey (List ChannelOutboundItem)}
    → IsIsolated owners routes reverse_routes outbox
    → IsIsolated owners routes reverse_routes (remove_all keys outbox)
unfolding remove_all
without_queues [] i = i
without_queues (key ∷ keys) i = without_queues keys (without_queue i key)

module _ {u : String} {routes : Map ChannelRouteKey String}
    {reverse_routes : Map String ChannelRouteKey}
    {outbox : Map ChannelRouteKey (List ChannelOutboundItem)}
    (f : IsFresh u routes reverse_routes outbox) where
  pub IsFresh-without :
      (key : ChannelRouteKey) (s : String)
      → IsFresh u (remove key routes) (remove s reverse_routes) outbox
  IsFresh-without key s = record {
    unrouted = All-remove _ key routes f.unrouted;
    unreversed = All-remove _ s reverse_routes f.unreversed;
    unqueued = f.unqueued;
  }

  pub IsFresh-without_queue :
      (key : ChannelRouteKey) → IsFresh u routes reverse_routes (remove key outbox)
  IsFresh-without_queue key = record {
    unrouted = f.unrouted;
    unreversed = f.unreversed;
    unqueued = All-remove _ key outbox f.unqueued;
  }
