-- ===== src/Mqtt/Broker.antt =====
-- `Client` and `Broker` of cloud/mqtt-broker.ts: subscriptions under a shared budget, retained
-- messages, admission, deferred operations, delivery and teardown. A client object is known by a
-- text; timers and sockets are left out, and each handler is one step.
pub mod Delivery
pub mod Keeping
pub mod Budget
pub mod Handlers
pub mod Invariant
mod Tests
use rethink.Common.{
  ℕ, zero, suc, ◌+◌, ◌-◌, ◌*◌, ◌/◌, ◌%◌, ◌^◌, ◌≤◌, ◌<◌, min, bit_xor, ◌≡◌, refl, sym, ap, ◌∙◌,
  ◌≡⟨◌⟩◌, ◌∎, ◌≢◌, ◌↔◌, ◌⊎◌, inl, inr, Bool, true, false, not, ◌&&◌, ◌||◌, Option, none, some, List,
  [], ◌∷◌, ◌++◌, map, append-nil, append_assoc, arith, ltb, leb, ◌==◌, ==_iff, if◌then◌else◌,
  Bool-cases, Option-cases, all_below, all_below_sound, length, get_elem?, get_or, take, drop,
  concat, length-append, length-drop, length-take, take-append_le, drop-append_le, take_length,
  drop_length, All, All-append, All-drop, All-take, drop-get_elem?, get_elem?-eq-none,
  get_elem?_past, drop_past, bit_xor-zero, bit_xor_self, bit_xor-lt, bit_xor_bytes, bit_xor_words,
  bit_xor_comm, bit_xor_cancel, zero-bit_xor,
}
use rethink.Mqtt.Topic.{Text, mqtt_topic_matches, valid_filter, is_empty}
use rethink.Mqtt.Table.{lookup, put, delete}

-- A publish packet, less `dup`. `properties` is the text that `JSON.stringify` makes of them, if
-- there are any.
pub record Packet : Type 0 where
  pub topic : Text
  pub payload : List ℕ
  pub qos : ℕ
  pub retain : Bool
  pub message_id : ℕ
  pub properties : Option Text

abbrev pub max_retained_topics : ℕ
max_retained_topics = 1024

abbrev pub max_retained_bytes : ℕ
max_retained_bytes = 8388608

abbrev pub max_client_subscriptions : ℕ
max_client_subscriptions = 128

abbrev pub max_subscriptions : ℕ
max_subscriptions = 4096

abbrev pub max_filter_bytes : ℕ
max_filter_bytes = 1048576

abbrev pub max_pending : ℕ
max_pending = 64

abbrev pub max_deferred_packets : ℕ
max_deferred_packets = 8

abbrev pub max_deferred_bytes : ℕ
max_deferred_bytes = 65536

-- `retainMap` and `retainedBytes`.
pub record Retained : Type 0 where
  pub map : List (Text × Packet)
  pub bytes : ℕ

-- `SubscriptionBudget`
pub record SubscriptionBudget : Type 0 where
  pub count : ℕ
  pub bytes : ℕ

pub data ClientState : Type 0 where
  new pending active closed : ClientState

-- The packets whose handlers go through `operation`, each with its message id.
pub data Operation : Type 0 where
  publish_op : Packet → Operation
  pubrel_op : ℕ → Operation
  subscribe_op : List Text → ℕ → Operation
  unsubscribe_op : List Text → ℕ → Operation
  pingreq_op : Operation

-- `subscriptions` maps a filter to its `Subscription`, which holds that filter once more;
-- `pending_bytes` is the counter that `accept` keeps for the client.
pub record Client : Type 0 where
  pub subscriptions : List (Text × Text)
  pub state : ClientState
  pub will : Option Packet
  pub deferred : List (ℕ × Operation)
  pub deferred_bytes : ℕ
  pub pending_bytes : ℕ

pub record Broker : Type 0 where
  pub clients : List (Text × Client)
  pub pending : List (Text × Unit {0})
  pub retained : Retained
  pub budget : SubscriptionBudget

-- The answers of the access policy at the time of a step, for each client.
pub record Policy : Type 0 where
  pub publish : Text → Packet → Bool
  pub subscribe : Text → Text → Bool
  pub deliver : Text → Text → Bool

-- What the broker sends to a client.
pub data Output : Type 0 where
  deliver : Text → Packet → Output
  suback : Text → List ℕ → ℕ → Output
  unsuback puback pubrec pubcomp : Text → ℕ → Output
  pingresp : Text → Output
  connack : Text → ℕ → Output

abbrev pub has_key : {V : Type 0} → Text → List (Text × V) → Bool
has_key k m = elim (lookup k m) [ none ↦ false | some v ↦ true ]

abbrev pub is_active : ClientState → Bool
is_active active = true
is_active s = false

abbrev pub is_pending : ClientState → Bool
is_pending pending = true
is_pending s = false

abbrev pub is_new : ClientState → Bool
is_new new = true
is_new s = false

-- `[...subscriptions.values()].some((sub) => sub.match(topic))`
abbrev pub some_match : List Text → Text → Bool
some_match [] topic = false
some_match (filter ∷ filters) topic = mqtt_topic_matches topic filter || some_match filters topic

abbrev pub values : {V : Type 0} → List (Text × V) → List V
values [] = []
values ((k, v) ∷ m) = v ∷ values m

abbrev pub keys : {V : Type 0} → List (Text × V) → List Text
keys [] = []
keys ((k, v) ∷ m) = k ∷ keys m

-- What `subscribe` works on: the client's subscriptions, the shared budget, and what it adds.
pub record Granting : Type 0 where
  pub subscriptions : List (Text × Text)
  pub budget : SubscriptionBudget
  pub added : List Text

-- The loop of `subscribe` over `retainMap`.
pub replay : Text → (Text → Bool) → List Text → List Text → List (Text × Packet) → List Output
replay id can_deliver previous added [] = []
replay id can_deliver previous added ((topic, packet) ∷ kept) =
    let rest = replay id can_deliver previous added kept in
    if not (some_match previous topic) && (some_match added topic && can_deliver topic)
    then deliver id packet ∷ rest
    else rest

-- `try_publish` on every client.
pub try_publish_all : Policy → Packet → List (Text × Client) → List Output
try_publish_all policy packet [] = []
try_publish_all policy packet ((id, client) ∷ clients) =
    let rest = try_publish_all policy packet clients in
    if is_active client.state
      && (policy.deliver id packet.topic && some_match (values client.subscriptions) packet.topic)
    then deliver id packet ∷ rest
    else rest

-- The packet that the `destroy` event makes of a will.
pub will_packet : Packet → Packet
will_packet will = record will { retain = false; message_id = 0; properties = none }

module _ (byte_length : Text → ℕ) where
  -- `retainedSize`
  pub retained_size : Packet → ℕ
  retained_size packet =
      byte_length packet.topic
      + length packet.payload
      + elim packet.properties [ none ↦ 0 | some text ↦ byte_length text ]

  -- The branch `if (packet.retain)` of `publishAllowed`. The copy that is kept has the packet's values.
  pub keep_retained : Packet → Retained → Retained
  keep_retained packet kept =
      let previous = lookup packet.topic kept.map in
      let previous_bytes : ℕ = elim previous [ none ↦ 0 | some p ↦ retained_size p ] in
      let is_new_topic : Bool = elim previous [ none ↦ true | some p ↦ false ] in
      let bytes = retained_size packet in
      if not packet.retain
      then kept
      else if length packet.payload == 0
      then record { map = delete packet.topic kept.map; bytes = kept.bytes - previous_bytes }
      else if (is_new_topic && leb max_retained_topics (length kept.map))
          || ltb max_retained_bytes (kept.bytes - previous_bytes + bytes)
      then kept
      else record {
        map = put packet.topic packet kept.map;
        bytes = kept.bytes + bytes - previous_bytes;
      }

  -- The callback of `packet.subscriptions.map` in `subscribe`: 0 grants, 128 refuses.
  pub grant : (Text → Bool) → Granting → Text → Granting × ℕ
  grant allowed g topic =
      let bytes = byte_length topic in
      if not (valid_filter byte_length topic) || not (allowed topic)
      then (g, 128)
      else if has_key topic g.subscriptions
      then (g, 0)
      else if leb max_client_subscriptions (length g.subscriptions)
          || leb max_subscriptions g.budget.count
          || ltb max_filter_bytes (g.budget.bytes + bytes)
      then (g, 128)
      else (
        record {
          subscriptions = put topic topic g.subscriptions;
          budget = record { count = g.budget.count + 1; bytes = g.budget.bytes + bytes };
          added = g.added ++ (topic ∷ []);
        },
        0,
      )

  pub grant_all : (Text → Bool) → Granting → List Text → Granting × List ℕ
  grant_all allowed g [] = (g, [])
  grant_all allowed g (topic ∷ topics) =
      let (g', code) = grant allowed g topic in
      let (g'', codes) = grant_all allowed g' topics in (g'', code ∷ codes)

  -- `removeSubscription`
  pub remove_subscription :
      Text → List (Text × Text) × SubscriptionBudget → List (Text × Text) × SubscriptionBudget
  remove_subscription topic (subscriptions, budget) =
      if has_key topic subscriptions
      then (
        delete topic subscriptions,
        record { count = budget.count - 1; bytes = budget.bytes - byte_length topic },
      )
      else (subscriptions, budget)

  -- The loops over topics in `unsubscribe` and `destroy`.
  pub remove_all :
      List Text → List (Text × Text) × SubscriptionBudget → List (Text × Text) × SubscriptionBudget
  remove_all [] held = held
  remove_all (topic ∷ topics) held = remove_all topics (remove_subscription topic held)

  -- `publishAllowed`, without the event for the application.
  pub publish_allowed : Policy → Packet → Broker → Broker × List Output
  publish_allowed policy packet b = (
    record b { retained = keep_retained packet b.retained },
    try_publish_all policy packet b.clients,
  )

  -- The client after `destroy` has emptied it, before its will is looked at.
  pub close_client : Text → Client → Broker → Broker
  close_client id client b =
      let (subscriptions, budget) =
        remove_all (keys client.subscriptions) (client.subscriptions, b.budget) in
      record b {
        clients =
            put id
              (record client {
                subscriptions = subscriptions;
                state = closed;
                deferred = [];
                deferred_bytes = 0;
              })
              b.clients;
        pending = delete id b.pending;
        budget = budget;
      }

  -- `Client.destroy` and what `accept` does on its `destroy` event. A client that is not among
  -- `clients` was destroyed before.
  pub destroy : Policy → Text → Bool → Broker → Broker × List Output
  destroy policy id graceful b = elim (lookup id b.clients) [
    | none ↦ (b, [])
    | some client ↦
        let gone = close_client id client b in
        let left : Broker × List Output = elim client.will [
          | none ↦ (gone, [])
          | some will ↦
              if is_active client.state && (not graceful && policy.publish id (will_packet will))
              then publish_allowed policy (will_packet will) gone
              else (gone, [])
        ] in
        (record left.0 { clients = delete id left.0.clients }, left.1)
  ]
