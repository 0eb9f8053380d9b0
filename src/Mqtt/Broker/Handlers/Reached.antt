-- ===== src/Mqtt/Broker/Handlers/Reached.antt =====
-- The states that a broker reaches, in the terms of Mqtt.Broker.Invariant.
use rethink.Common.{
  ℕ, ◌+◌, ◌≤◌, ◌<◌, ◌≡◌, refl, inl, inr, Bool, true, false, not, ◌||◌, Option, none, List, [], ◌∷◌,
  ◌++◌, arith, ltb, leb, Bool-cases, Option-cases, length, length-append,
}
use rethink.Mqtt.Topic.{Text}
use rethink.Mqtt.Table.{
  lookup, put, put-IsTable, weight-new, length-put_le, AllValues-put, AllValues-lookup,
}
use rethink.Mqtt.Broker.{
  Packet, Operation, Client, Broker, Policy, max_pending, max_deferred_packets, max_deferred_bytes,
  is_active, is_pending, is_new,
}
use rethink.Mqtt.Broker.Budget.{has_key-none, has_key-some}
use rethink.Mqtt.Broker.Handlers.{
  fresh_client, new_broker, accept, Event, accepted, data_arrived, connect, admitted, arrived,
  ended, published, on_data, operation, run_deferred, on_connect, on_admitted, step, run,
}
use rethink.Mqtt.Broker.Invariant.{
  total_bytes, HasDeferred, IsClient, IsSteady, same-IsSteady, unpending-IsSteady,
  publish_allowed-IsSteady, filters_of, filter_bytes_of,
}
use rethink.Mqtt.Broker.Handlers.Steady.{
  no_deferred, by_lookup, by_test, destroy-IsSteady, run_operation-IsSteady,
}

total_bytes-snoc :
    (ops : List (ℕ × Operation)) (bytes : ℕ) (op : Operation)
    → total_bytes (ops ++ ((bytes, op) ∷ [])) ≡ total_bytes ops + bytes
total_bytes-snoc [] bytes op = omega arith
total_bytes-snoc ((n, first) ∷ ops) bytes op = omega (arith, total_bytes-snoc ops bytes op)

defer-HasDeferred :
    (client : Client) (op : Operation) (bytes : ℕ)
    → HasDeferred client
    → length client.deferred < max_deferred_packets
    → client.deferred_bytes + bytes ≤ max_deferred_bytes
    → HasDeferred (record client {
      deferred = client.deferred ++ ((bytes, op) ∷ []);
      deferred_bytes = client.deferred_bytes + bytes;
    })
defer-HasDeferred client op bytes (few, total, small) room fits = (
  omega (arith, length-append client.deferred ((bytes, op) ∷ [])),
  omega (arith, total_bytes-snoc client.deferred bytes op),
  fits,
)

module _ (byte_length : Text → ℕ) where
  abbrev Steady : Broker → Type 0
  Steady b = IsSteady byte_length b

  operation-IsSteady :
      (policy : Policy) (id : Text) (op : Operation) (b : Broker)
      → Steady b
      → Steady (operation byte_length policy id op b).0
  unfolding operation
  operation-IsSteady policy id op b h =
      by_lookup byte_length (lookup id b.clients) b _ h (λ client e.
        let deferred = (AllValues-lookup (IsClient byte_length) id b.clients client h.1 e).1 in
        by_test byte_length (is_active client.state) _ _
          (λ f. run_operation-IsSteady byte_length policy id client op b h e deferred)
          (λ f.
            by_test byte_length _ _ _ (λ g. destroy-IsSteady byte_length policy id false b h)
              (λ g.
                same-IsSteady byte_length id client _ b h e refl
                  (defer-HasDeferred client op _ deferred (ground arith) (ground arith)))))

  run_deferred-IsSteady :
      (policy : Policy) (id : Text) (ops : List (ℕ × Operation)) (b : Broker)
      → Steady b
      → Steady (run_deferred byte_length policy id ops b).0
  unfolding run_deferred
  run_deferred-IsSteady policy id [] b h = h
  run_deferred-IsSteady policy id ((bytes, op) ∷ ops) b h =
      by_lookup byte_length (lookup id b.clients) b _ h (λ client e.
        let deferred = (AllValues-lookup (IsClient byte_length) id b.clients client h.1 e).1 in
        elim (Bool-cases (is_active client.state)) [
          | inl f ↦ rw f (
              run_deferred-IsSteady policy id ops _
                (run_operation-IsSteady byte_length policy id client op b h e deferred))
          | inr f ↦ rw f h
        ])

  on_data-IsSteady :
      (policy : Policy) (id : Text) (size : ℕ) (b : Broker)
      → Steady b
      → Steady (on_data byte_length policy id size b).0
  unfolding on_data
  on_data-IsSteady policy id size b h =
      by_lookup byte_length (lookup id b.clients) b _ h (λ client e.
        let deferred = (AllValues-lookup (IsClient byte_length) id b.clients client h.1 e).1 in
        let counted =
          same-IsSteady byte_length id client
            (record client { pending_bytes = client.pending_bytes + size }) b h e refl deferred in
        by_test byte_length (not (is_new client.state || is_pending client.state)) _ _ (λ f. h)
          (λ f.
            by_test byte_length (ltb max_deferred_bytes (client.pending_bytes + size)) _ _
              (λ g. destroy-IsSteady byte_length policy id false _ counted) (λ g. counted)))

  on_connect-IsSteady :
      (policy : Policy) (id : Text) (b : Broker)
      → Steady b
      → Steady (on_connect byte_length policy id b).0
  unfolding on_connect
  on_connect-IsSteady policy id b h = by_lookup byte_length (lookup id b.clients) b _ h (λ client e.
      let deferred = (AllValues-lookup (IsClient byte_length) id b.clients client h.1 e).1 in
      by_test byte_length (not (is_new client.state)) _ _
        (λ f. destroy-IsSteady byte_length policy id false b h)
        (λ f. same-IsSteady byte_length id client _ b h e refl deferred))

  on_admitted-IsSteady :
      (policy : Policy) (id : Text) (will : Option Packet) (allowed : Bool) (b : Broker)
      → Steady b
      → Steady (on_admitted byte_length policy id will allowed b).0
  unfolding on_admitted
  on_admitted-IsSteady policy id will allowed b h =
      by_lookup byte_length (lookup id b.clients) b _ h (λ client e.
        by_test byte_length (not (is_pending client.state)) _ _ (λ f. h)
          (λ f.
            by_test byte_length (not allowed) _ _
              (λ g. destroy-IsSteady byte_length policy id true b h)
              (λ g. run_deferred-IsSteady policy id client.deferred _ (
                unpending-IsSteady byte_length id _
                  (same-IsSteady byte_length id client _ b h e refl no_deferred)))))

  added-IsSteady :
      (id : Text) (b : Broker)
      → Steady b
      → lookup id b.clients ≡ none
      → length b.pending < max_pending
      → Steady (record b { clients = put id fresh_client b.clients; pending = put id tt b.pending })
  added-IsSteady id b (table, all, (count, bytes, small, slim), kept, few) e room = (
    put-IsTable id fresh_client b.clients table,
    AllValues-put (IsClient byte_length) id fresh_client b.clients all
        ((tt, omega arith, tt), no_deferred),
    (
      omega (arith, count, weight-new (filters_of byte_length) id fresh_client b.clients e),
      omega (arith, bytes, weight-new (filter_bytes_of byte_length) id fresh_client b.clients e),
      small,
      slim,
    ),
    kept,
    omega (arith, room, length-put_le id tt b.pending),
  )

  accept-IsSteady :
      (id : Text) (b : Broker) → Steady b → lookup id b.clients ≡ none → Steady (accept id b)
  unfolding accept
  accept-IsSteady id b h e = elim (Bool-cases (leb max_pending (length b.pending))) [
    | inl f ↦ rw f h
    | inr f ↦ rw f (added-IsSteady id b h e (ground arith))
  ]

  -- From a broker whose budget is what its clients hold and whose bounds are kept, every event, with
  -- any policy, leads to such a broker: no topic twice among the retained messages, at most 1024 of
  -- them and 8 MiB; at most 4096 filters and 1 MiB of them in the budget, at most 128 for a client,
  -- each of them valid; at most 8 deferred packets and 64 KiB for a client; at most 64 pending clients.
  pub step-IsSteady :
      (policy : Policy) (event : Event) (b : Broker)
      → Steady b
      → Steady (step byte_length policy event b).0
  unfolding step
  step-IsSteady policy (accepted id) b h = elim (Option-cases (lookup id b.clients)) [
    | inl e ↦ rw (has_key-none id b.clients e) (accept-IsSteady id b h e)
    | inr (client, e) ↦ rw (has_key-some id b.clients client e) h
  ]
  step-IsSteady policy (data_arrived id size) b h = on_data-IsSteady policy id size b h
  step-IsSteady policy (connect id) b h = on_connect-IsSteady policy id b h
  step-IsSteady policy (admitted id will allowed) b h =
      on_admitted-IsSteady policy id will allowed b h
  step-IsSteady policy (arrived id op) b h = operation-IsSteady policy id op b h
  step-IsSteady policy (ended id graceful) b h = destroy-IsSteady byte_length policy id graceful b h
  step-IsSteady policy (published packet) b h =
      publish_allowed-IsSteady byte_length policy packet b h

  run-IsSteady_from :
      (events : List (Policy × Event)) (b : Broker) → Steady b → Steady (run byte_length events b)
  unfolding run
  run-IsSteady_from [] b h = h
  run-IsSteady_from ((policy, event) ∷ events) b h =
      run-IsSteady_from events (step byte_length policy event b).0 (step-IsSteady policy event b h)

  -- Whatever happens to a new broker, in whatever order and with whatever answers of the policy, its
  -- budget is the number and the size of the filters that its clients hold, its counter of retained
  -- bytes is the size of the messages kept, and no bound on either, on a client's filters and
  -- deferred packets or on the pending clients is passed.
  pub run-IsSteady : (events : List (Policy × Event)) → Steady (run byte_length events new_broker)
  run-IsSteady events = run-IsSteady_from events new_broker (
    tt,
    tt,
    (refl, refl, omega arith, omega arith),
    (tt, refl, omega arith, omega arith, tt),
    omega arith,
  )
