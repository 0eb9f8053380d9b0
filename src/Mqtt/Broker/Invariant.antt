-- ===== src/Mqtt/Broker/Invariant.antt =====
-- The invariant of a broker: its shared budget against what its clients hold, and the bounds of
-- cloud/mqtt-broker.ts.
use rethink.Common.{ℕ, ◌+◌, ◌≤◌, ◌≡◌, refl, some, List, [], ◌∷◌, arith, length}
use rethink.Mqtt.Topic.{Text}
use rethink.Mqtt.Table.{
  lookup, put, delete, IsTable, put-IsTable, delete-IsTable, weight, weight-put-delete,
  weight-lookup, length-delete_le, AllValues, AllValues-put, AllValues-delete, AllValues-lookup,
}
use rethink.Mqtt.Broker.{
  Packet, Operation, Client, Broker, Policy, SubscriptionBudget, publish_allowed, max_pending,
  max_subscriptions, max_filter_bytes, max_deferred_packets, max_deferred_bytes,
}
use rethink.Mqtt.Broker.Keeping.{IsKept, keep_retained-IsKept}
use rethink.Mqtt.Broker.Budget.{HasFilters, IsHeld, size_of}

abbrev pub total_bytes : List (ℕ × Operation) → ℕ
total_bytes [] = 0
total_bytes ((bytes, op) ∷ ops) = bytes + total_bytes ops

-- The operations that wait for admission, and their bytes.
abbrev pub HasDeferred : Client → Type 0
HasDeferred client =
    (length client.deferred ≤ max_deferred_packets)
    × (client.deferred_bytes ≡ total_bytes client.deferred)
    × (client.deferred_bytes ≤ max_deferred_bytes)

module _ (byte_length : Text → ℕ) where
  abbrev pub filters_of : Text → Client → ℕ
  filters_of id client = length client.subscriptions

  abbrev pub filter_bytes_of : Text → Client → ℕ
  filter_bytes_of id client = weight (size_of byte_length) client.subscriptions

  abbrev pub IsClient : Client → Type 0
  IsClient client = HasFilters byte_length client.subscriptions × HasDeferred client

  -- The budget is what one client has in it, and what the others have.
  abbrev pub Holds : Text → Client → SubscriptionBudget → List (Text × Client) → Type 0
  Holds id client budget clients =
      IsHeld byte_length (weight filters_of (delete id clients))
        (weight filter_bytes_of (delete id clients)) client.subscriptions budget

  abbrev pub IsBudgeted : List (Text × Client) → SubscriptionBudget → Type 0
  IsBudgeted clients budget =
      (budget.count ≡ weight filters_of clients)
      × (budget.bytes ≡ weight filter_bytes_of clients)
      × (budget.count ≤ max_subscriptions)
      × (budget.bytes ≤ max_filter_bytes)

  abbrev pub IsSteady : Broker → Type 0
  IsSteady b =
      IsTable b.clients
      × AllValues IsClient b.clients
      × IsBudgeted b.clients b.budget
      × IsKept byte_length b.retained
      × (length b.pending ≤ max_pending)

  pub IsSteady-Holds :
      (id : Text) (client : Client) (b : Broker)
      → IsSteady b
      → lookup id b.clients ≡ some client
      → Holds id client b.budget b.clients
  IsSteady-Holds id client b (table, all, (count, bytes, small, slim), kept, few) e = (
    (AllValues-lookup IsClient id b.clients client all e).0,
    omega (arith, count, weight-lookup filters_of id client b.clients e),
    omega (arith, bytes, weight-lookup filter_bytes_of id client b.clients e),
    small,
    slim,
  )

  -- A client and the budget may be replaced together.
  pub put-IsSteady :
      (id : Text) (client : Client) (budget : SubscriptionBudget) (b : Broker)
      → IsSteady b
      → Holds id client budget b.clients
      → HasDeferred client
      → IsSteady (record b { clients = put id client b.clients; budget = budget })
  put-IsSteady id client budget b (table, all, budgeted, kept, few) (own, count, bytes, small, slim)
        deferred =
      (
        put-IsTable id client b.clients table,
        AllValues-put IsClient id client b.clients all (own, deferred),
        (
          omega (arith, count, weight-put-delete filters_of id client b.clients),
          omega (arith, bytes, weight-put-delete filter_bytes_of id client b.clients),
          small,
          slim,
        ),
        kept,
        few,
      )

  -- A client that is replaced with the same subscriptions.
  pub same-IsSteady :
      (id : Text) (client changed : Client) (b : Broker)
      → IsSteady b
      → lookup id b.clients ≡ some client
      → changed.subscriptions ≡ client.subscriptions
      → HasDeferred changed
      → IsSteady (record b { clients = put id changed b.clients })
  same-IsSteady id client changed b h e same deferred =
      put-IsSteady id changed b.budget b h (simp same (IsSteady-Holds id client b h e)) deferred

  pub unpending-IsSteady :
      (id : Text) (b : Broker) → IsSteady b → IsSteady (record b { pending = delete id b.pending })
  unpending-IsSteady id b (table, all, budgeted, kept, few) =
      (table, all, budgeted, kept, omega (arith, few, length-delete_le id b.pending))

  pub publish_allowed-IsSteady :
      (policy : Policy) (packet : Packet) (b : Broker)
      → IsSteady b
      → IsSteady (publish_allowed byte_length policy packet b).0
  unfolding publish_allowed
  publish_allowed-IsSteady policy packet b (table, all, budgeted, kept, few) =
      (table, all, budgeted, keep_retained-IsKept byte_length packet b.retained kept, few)

  -- A client without subscriptions may go.
  pub delete-IsSteady :
      (id : Text) (client : Client) (b : Broker)
      → IsSteady b
      → lookup id b.clients ≡ some client
      → client.subscriptions ≡ []
      → IsSteady (record b { clients = delete id b.clients })
  delete-IsSteady id client b (table, all, (count, bytes, small, slim), kept, few) e empty =
      let none_held : length client.subscriptions ≡ 0 = rw empty refl in
      let no_bytes : weight (size_of byte_length) client.subscriptions ≡ 0 = rw empty refl in
      (
        delete-IsTable id b.clients table,
        AllValues-delete IsClient id b.clients all,
        (
          omega (arith, count, weight-lookup filters_of id client b.clients e),
          omega (arith, bytes, weight-lookup filter_bytes_of id client b.clients e),
          small,
          slim,
        ),
        kept,
        few,
      )
