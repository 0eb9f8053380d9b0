-- ===== src/Mqtt/Broker/Handlers/Steady.antt =====
-- The handlers of a connection, in the terms of Mqtt.Broker.Invariant.
use rethink.Common.{
  ℕ, ◌≤◌, ◌≡◌, refl, inl, inr, Bool, true, false, not, ◌&&◌, ◌||◌, Option, none, some, List, [],
  arith, if◌then◌else◌, Bool-cases,
}
use rethink.Mqtt.Topic.{Text}
use rethink.Mqtt.Topic.Matching.{text_eq_refl}
use rethink.Mqtt.Table.{lookup, put, delete, lookup-put}
use rethink.Mqtt.Broker.{
  Packet, Operation, publish_op, pubrel_op, subscribe_op, unsubscribe_op, pingreq_op, Client,
  Broker, Policy, Retained, Output, closed, Granting, grant_all, keep_retained, publish_allowed,
  max_deferred_packets, max_deferred_bytes, remove_all, keys, close_client, destroy, will_packet,
  is_active,
}
use rethink.Mqtt.Broker.Keeping.{IsKept, keep_retained-IsKept}
use rethink.Mqtt.Broker.Budget.{remove_all-IsHeld, remove_all-keys, grant_all-IsHeld}
use rethink.Mqtt.Broker.Handlers.{subscribe, unsubscribe, run_operation}
use rethink.Mqtt.Broker.Invariant.{
  HasDeferred, IsSteady, IsSteady-Holds, put-IsSteady, unpending-IsSteady, publish_allowed-IsSteady,
  delete-IsSteady,
}

lookup-put_same :
    {V : Type 0} (k : Text) (v : V) (m : List (Text × V)) → lookup k (put k v m) ≡ some v
lookup-put_same k v m = rw (lookup-put k k v m, text_eq_refl k) refl

pub no_deferred : (0 ≤ max_deferred_packets) × (◌≡◌ {A = ℕ} 0 0) × (0 ≤ max_deferred_bytes)
no_deferred = (omega arith, refl, omega arith)

module _ (byte_length : Text → ℕ) where
  abbrev Steady : Broker → Type 0
  Steady b = IsSteady byte_length b

  pub by_lookup :
      (o : Option Client) (b : Broker) (f : Client → Broker × List Output)
      → Steady b
      → ((client : Client) → o ≡ some client → Steady (f client).0)
      → let after : Broker × List Output = elim o [ none ↦ (b, []) | some client ↦ f client ] in
        Steady after.0
  by_lookup none b f h k = h
  by_lookup (some client) b f h k = k client refl

  pub by_test :
      (t : Bool) (x y : Broker × List Output)
      → (t ≡ true → Steady x.0)
      → (t ≡ false → Steady y.0)
      → Steady (if t then x else y).0
  by_test true x y p q = p refl
  by_test false x y p q = q refl

  close_client-IsSteady :
      (id : Text) (client : Client) (b : Broker)
      → Steady b
      → lookup id b.clients ≡ some client
      → Steady (close_client byte_length id client b)
  unfolding close_client
  close_client-IsSteady id client b h e =
      let removed =
        remove_all byte_length (keys client.subscriptions) (client.subscriptions, b.budget) in
      let held =
        remove_all-IsHeld byte_length _ _ (keys client.subscriptions) client.subscriptions b.budget
          (IsSteady-Holds byte_length id client b h e) in
      let emptied : Client = record client {
        subscriptions = removed.0;
        state = closed;
        deferred = [];
        deferred_bytes = 0;
      } in
      unpending-IsSteady byte_length id
        (record b { clients = put id emptied b.clients; budget = removed.1 })
        (put-IsSteady byte_length id emptied removed.1 b h held no_deferred)

  -- The state that the loop of `destroy` leaves, once its client is taken away.
  gone-IsSteady :
      (id : Text) (client : Client) (b : Broker) (retained : Retained)
      → Steady b
      → lookup id b.clients ≡ some client
      → IsKept byte_length retained
      → let gone = close_client byte_length id client b in
        Steady (record gone { clients = delete id gone.clients; retained = retained })
  unfolding close_client
  gone-IsSteady id client b retained h e kept =
      let gone = close_client byte_length id client b in
      let (table, all, budgeted, kept_before, few) =
        delete-IsSteady byte_length id _ gone (close_client-IsSteady id client b h e)
          (lookup-put_same id _ b.clients)
          (remove_all-keys byte_length client.subscriptions b.budget) in
      (table, all, budgeted, kept, few)

  last_will-IsSteady :
      (policy : Policy) (id : Text) (client : Client) (last : Option Packet) (graceful : Bool)
      (b : Broker)
      → Steady b
      → lookup id b.clients ≡ some client
      → let gone = close_client byte_length id client b in
        let left : Broker × List Output = elim last [
          | none ↦ (gone, [])
          | some will ↦
              if is_active client.state && (not graceful && policy.publish id (will_packet will))
              then publish_allowed byte_length policy (will_packet will) gone
              else (gone, [])
        ] in
        Steady (record left.0 { clients = delete id left.0.clients })
  unfolding publish_allowed close_client
  last_will-IsSteady policy id client none graceful b h e =
      gone-IsSteady id client b b.retained h e h.3
  last_will-IsSteady policy id client (some will) graceful b h e =
      elim (Bool-cases
        (is_active client.state && (not graceful && policy.publish id (will_packet will)))) [
          | inl f ↦ rw f (
              gone-IsSteady id client b (keep_retained byte_length (will_packet will) b.retained) h
                e (keep_retained-IsKept byte_length (will_packet will) b.retained h.3))
          | inr f ↦ rw f (gone-IsSteady id client b b.retained h e h.3)
        ]

  pub destroy-IsSteady :
      (policy : Policy) (id : Text) (graceful : Bool) (b : Broker)
      → Steady b
      → Steady (destroy byte_length policy id graceful b).0
  unfolding destroy publish_allowed
  destroy-IsSteady policy id graceful b h =
      by_lookup (lookup id b.clients) b _ h
        (λ client e. last_will-IsSteady policy id client client.will graceful b h e)

  subscribe-IsSteady :
      (policy : Policy) (id : Text) (client : Client) (topics : List Text) (message_id : ℕ)
      (b : Broker)
      → Steady b
      → lookup id b.clients ≡ some client
      → HasDeferred client
      → Steady (subscribe byte_length policy id client topics message_id b).0
  unfolding subscribe
  subscribe-IsSteady policy id client topics message_id b h e deferred =
      let start : Granting = record {
        subscriptions = client.subscriptions;
        budget = b.budget;
        added = [];
      } in
      let g = (grant_all byte_length (policy.subscribe id) start topics).0 in
      put-IsSteady byte_length id (record client { subscriptions = g.subscriptions }) g.budget b h
        (grant_all-IsHeld byte_length _ _ (policy.subscribe id) start topics
          (IsSteady-Holds byte_length id client b h e))
        deferred

  unsubscribe-IsSteady :
      (id : Text) (client : Client) (topics : List Text) (message_id : ℕ) (b : Broker)
      → Steady b
      → lookup id b.clients ≡ some client
      → HasDeferred client
      → Steady (unsubscribe byte_length id client topics message_id b).0
  unfolding unsubscribe
  unsubscribe-IsSteady id client topics message_id b h e deferred =
      let removed = remove_all byte_length topics (client.subscriptions, b.budget) in
      put-IsSteady byte_length id (record client { subscriptions = removed.0 }) removed.1 b h
        (remove_all-IsHeld byte_length _ _ topics client.subscriptions b.budget
          (IsSteady-Holds byte_length id client b h e))
        deferred

  pub run_operation-IsSteady :
      (policy : Policy) (id : Text) (client : Client) (op : Operation) (b : Broker)
      → Steady b
      → lookup id b.clients ≡ some client
      → HasDeferred client
      → Steady (run_operation byte_length policy id client op b).0
  unfolding run_operation
  run_operation-IsSteady policy id client (publish_op packet) b h e deferred =
      by_test (not (is_active client.state) || not (policy.publish id packet)) _ _
        (λ refused. destroy-IsSteady policy id false b h)
        (λ allowed. publish_allowed-IsSteady byte_length policy packet b h)
  run_operation-IsSteady policy id client (pubrel_op message_id) b h e deferred = h
  run_operation-IsSteady policy id client (subscribe_op topics message_id) b h e deferred =
      subscribe-IsSteady policy id client topics message_id b h e deferred
  run_operation-IsSteady policy id client (unsubscribe_op topics message_id) b h e deferred =
      unsubscribe-IsSteady id client topics message_id b h e deferred
  run_operation-IsSteady policy id client pingreq_op b h e deferred = h
