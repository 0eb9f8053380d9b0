-- ===== src/Mqtt/Broker/Handlers.antt =====
-- The handlers that `accept` installs, `publish`, and a broker's run: each event of a connection
-- is one step.
pub mod Steady
pub mod Reached
pub mod Idle
use rethink.Common.{
  ℕ, zero, suc, ◌+◌, ◌-◌, ◌*◌, ◌/◌, ◌%◌, ◌^◌, ◌≤◌, ◌<◌, min, bit_xor, ◌≡◌, refl, sym, ap, ◌∙◌,
  ◌≡⟨◌⟩◌, ◌∎, ◌≢◌, ◌↔◌, ◌⊎◌, inl, inr, Bool, true, false, not, ◌&&◌, ◌||◌, Option, none, some, List,
  [], ◌∷◌, ◌++◌, map, append-nil, append_assoc, arith, ltb, leb, ◌==◌, ==_iff, if◌then◌else◌,
  Bool-cases, Option-cases, all_below, all_below_sound, length, get_elem?, get_or, take, drop,
  concat, length-append, length-drop, length-take, take-append_le, drop-append_le, take_length,
  drop_length, All, All-append, All-drop, All-take, drop-get_elem?, get_elem?-eq-none,
  get_elem?_past, drop_past, bit_xor-zero, bit_xor_self, bit_xor-lt, bit_xor_bytes, bit_xor_words,
  bit_xor_comm, bit_xor_cancel, zero-bit_xor,
}
use rethink.Mqtt.Topic.{Text}
use rethink.Mqtt.Table.{lookup, put, delete}
use rethink.Mqtt.Broker.{
  Packet, Operation, publish_op, pubrel_op, subscribe_op, unsubscribe_op, pingreq_op, Client,
  ClientState, Broker, Policy, Output, deliver, suback, unsuback, puback, pubrec, pubcomp, pingresp,
  connack, new, pending, active, closed, max_pending, max_deferred_packets, max_deferred_bytes,
  has_key, is_active, is_pending, is_new, values, Granting, grant_all, replay, remove_all,
  publish_allowed, destroy,
}

-- `idleTimeoutFor`, on whole seconds
pub idle_timeout_for : ℕ → ℕ
idle_timeout_for keepalive_seconds =
    if ltb 300000 (keepalive_seconds * 1000)
    then 0
    else if ltb 0 keepalive_seconds
    then (if ltb 300000 (keepalive_seconds * 1500) then keepalive_seconds * 1500 else 300000)
    else 300000

abbrev pub fresh_client : Client
fresh_client = record {
  subscriptions = [];
  state = new;
  will = none;
  deferred = [];
  deferred_bytes = 0;
  pending_bytes = 0;
}

-- What `new Broker` starts with.
abbrev pub new_broker : Broker
new_broker = record {
  clients = [];
  pending = [];
  retained = record { map = []; bytes = 0 };
  budget = record { count = 0; bytes = 0 };
}

-- `accept`, up to the handlers. The socket that is refused is destroyed.
pub accept : Text → Broker → Broker
accept id b =
    if leb max_pending (length b.pending)
    then b
    else record b { clients = put id fresh_client b.clients; pending = put id tt b.pending }

-- What happens to a connection, in the order of the handlers of `accept`. `admitted` is the answer
-- of the access policy's `connect`, with the will of the connect packet; `published` is a
-- message of the application.
pub data Event : Type 0 where
  accepted : Text → Event
  data_arrived : Text → ℕ → Event
  connect : Text → Event
  admitted : Text → Option Packet → Bool → Event
  arrived : Text → Operation → Event
  ended : Text → Bool → Event
  published : Packet → Event

abbrev pub set_client : Text → Client → Broker → Broker
set_client id client b = record b { clients = put id client b.clients }

abbrev acknowledged : Text → Packet → List Output
acknowledged id packet =
    if packet.qos == 1
    then puback id packet.message_id ∷ []
    else if packet.qos == 2
    then pubrec id packet.message_id ∷ []
    else []

module _ (byte_length : Text → ℕ) where
  -- The sum that a handler starts with `n`, each name counted with `extra` bytes more.
  abbrev pub names_bytes : ℕ → ℕ → List Text → ℕ
  names_bytes extra n [] = n
  names_bytes extra n (name ∷ names) = names_bytes extra (n + byte_length name + extra) names

  pub operation_bytes : Operation → ℕ
  operation_bytes (publish_op packet) = byte_length packet.topic + length packet.payload
  operation_bytes (pubrel_op message_id) = 4
  operation_bytes (subscribe_op topics message_id) = names_bytes 3 4 topics
  operation_bytes (unsubscribe_op topics message_id) = names_bytes 2 4 topics
  operation_bytes pingreq_op = 2

  -- `onData`
  pub on_data : Policy → Text → ℕ → Broker → Broker × List Output
  on_data policy id size b = elim (lookup id b.clients) [
    | none ↦ (b, [])
    | some client ↦
        let counted : Client = record client { pending_bytes = client.pending_bytes + size } in
        if not (is_new client.state || is_pending client.state)
        then (b, [])
        else if ltb max_deferred_bytes (client.pending_bytes + size)
        then destroy byte_length policy id false (set_client id counted b)
        else (set_client id counted b, [])
  ]

  -- `client.subscribe`
  pub subscribe : Policy → Text → Client → List Text → ℕ → Broker → Broker × List Output
  subscribe policy id client topics message_id b =
      let start : Granting = record {
        subscriptions = client.subscriptions;
        budget = b.budget;
        added = [];
      } in
      let (g, granted) = grant_all byte_length (policy.subscribe id) start topics in
      (
        record b {
          clients = put id (record client { subscriptions = g.subscriptions }) b.clients;
          budget = g.budget;
        },
        suback id granted message_id
            ∷ replay id (policy.deliver id) (values client.subscriptions) g.added b.retained.map,
      )

  -- `client.unsubscribe`
  pub unsubscribe : Text → Client → List Text → ℕ → Broker → Broker × List Output
  unsubscribe id client topics message_id b =
      let (subscriptions, budget) =
        remove_all byte_length topics (client.subscriptions, b.budget) in
      (
        record b {
          clients = put id (record client { subscriptions = subscriptions }) b.clients;
          budget = budget;
        },
        unsuback id message_id ∷ [],
      )

  -- The closure `run` of an operation, for a client in `clients`.
  pub run_operation : Policy → Text → Client → Operation → Broker → Broker × List Output
  run_operation policy id client (publish_op packet) b =
      if not (is_active client.state) || not (policy.publish id packet)
      then destroy byte_length policy id false b
      else let (after, outputs) = publish_allowed byte_length policy packet b in
        (after, outputs ++ acknowledged id packet)
  run_operation policy id client (pubrel_op message_id) b = (b, pubcomp id message_id ∷ [])
  run_operation policy id client (subscribe_op topics message_id) b =
      subscribe policy id client topics message_id b
  run_operation policy id client (unsubscribe_op topics message_id) b =
      unsubscribe id client topics message_id b
  run_operation policy id client pingreq_op b = (b, pingresp id ∷ [])

  -- `operation`
  pub operation : Policy → Text → Operation → Broker → Broker × List Output
  operation policy id op b = elim (lookup id b.clients) [
    | none ↦ (b, [])
    | some client ↦
        let bytes = operation_bytes op in
        if is_active client.state
        then run_operation policy id client op b
        else if not (is_pending client.state)
            || (leb max_deferred_packets (length client.deferred)
                || ltb max_deferred_bytes (client.deferred_bytes + bytes))
        then destroy byte_length policy id false b
        else (
          set_client id
              (record client {
                deferred = client.deferred ++ ((bytes, op) ∷ []);
                deferred_bytes = client.deferred_bytes + bytes;
              })
              b,
          [],
        )
  ]

  -- The loop over `deferred`.
  pub run_deferred : Policy → Text → List (ℕ × Operation) → Broker → Broker × List Output
  run_deferred policy id [] b = (b, [])
  run_deferred policy id ((bytes, op) ∷ ops) b = elim (lookup id b.clients) [
    | none ↦ (b, [])
    | some client ↦ elim (is_active client.state) [
      | false ↦ (b, [])
      | true ↦
          let (b', outputs) = run_operation policy id client op b in
          let (b'', more) = run_deferred policy id ops b' in (b'', outputs ++ more)
    ]
  ]

  -- The `connect` handler.
  pub on_connect : Policy → Text → Broker → Broker × List Output
  on_connect policy id b = elim (lookup id b.clients) [
    | none ↦ (b, [])
    | some client ↦
        if not (is_new client.state)
        then destroy byte_length policy id false b
        else (set_client id (record client { state = pending }) b, [])
  ]

  -- What follows the answer of `policy.connect`.
  pub on_admitted : Policy → Text → Option Packet → Bool → Broker → Broker × List Output
  on_admitted policy id will allowed b = elim (lookup id b.clients) [
    | none ↦ (b, [])
    | some client ↦
        if not (is_pending client.state)
        then (b, [])
        else if not allowed
        then (let (after, outputs) = destroy byte_length policy id true b in
            (after, connack id 5 ∷ outputs))
        else let ready : Broker = record b {
          clients =
              put id
                (record client { will = will; state = active; deferred = []; deferred_bytes = 0 })
                b.clients;
          pending = delete id b.pending;
        } in
          let (after, outputs) = run_deferred policy id client.deferred ready in
          (after, connack id 0 ∷ outputs)
  ]

  -- One event. A client is a new object when it is accepted, so a name in use is passed over.
  pub step : Policy → Event → Broker → Broker × List Output
  step policy (accepted id) b = if has_key id b.clients then (b, []) else (accept id b, [])
  step policy (data_arrived id size) b = on_data policy id size b
  step policy (connect id) b = on_connect policy id b
  step policy (admitted id will allowed) b = on_admitted policy id will allowed b
  step policy (arrived id op) b = operation policy id op b
  step policy (ended id graceful) b = destroy byte_length policy id graceful b
  step policy (published packet) b = publish_allowed byte_length policy packet b

  -- A broker's run: the policy may answer otherwise at every event.
  pub run : List (Policy × Event) → Broker → Broker
  run [] b = b
  run ((policy, event) ∷ events) b = run events (step policy event b).0
