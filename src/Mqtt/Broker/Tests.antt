-- ===== src/Mqtt/Broker/Tests.antt =====
-- A small exchange with a broker, and the theorems at concrete inputs.
use rethink.Common.{
  ◌*◌, ◌≤◌, ◌<◌, ◌≡◌, refl, ◌⊎◌, true, none, some, List, [], ◌∷◌, ◌++◌, arith, if◌then◌else◌,
  length,
}
use rethink.Mqtt.Topic.{Text, hash}
use rethink.Mqtt.Broker.{Packet, Retained, Policy, Broker, keep_retained, publish_op, subscribe_op}
use rethink.Mqtt.Broker.Keeping.{IsKept, keep_retained-IsKept, keep_retained-lookup, accepts}
use rethink.Mqtt.Broker.Handlers.{
  Event, accepted, connect, admitted, arrived, ended, new_broker, run,
}
use rethink.Mqtt.Broker.Invariant.{IsSteady}
use rethink.Mqtt.Broker.Handlers.Reached.{run-IsSteady}
use rethink.Mqtt.Table.{lookup, IsTable}
use rethink.Mqtt.Broker.{Client, active, publish_allowed}
use rethink.Mqtt.Broker.Delivery.{sent_to, IsReceiver, sent_to-publish_allowed}
use rethink.Mqtt.Broker.Handlers.{fresh_client, idle_timeout_for}
use rethink.Mqtt.Broker.Handlers.Idle.{idle_timeout_for_lem}

abbrev topic_a : Text
topic_a = b'a' ∷ []

abbrev topic_b : Text
topic_b = b'b' ∷ []

abbrev kept_packet : Packet
kept_packet = record {
  topic = topic_a;
  payload = 1 ∷ 2 ∷ [];
  qos = 0;
  retain = true;
  message_id = 0;
  properties = none;
}

abbrev nothing_kept : Retained
nothing_kept = record { map = []; bytes = 0 }

abbrev open_policy : Policy
open_policy = record {
  publish = λ id packet. true;
  subscribe = λ id topic. true;
  deliver = λ id topic. true;
}

abbrev opening : List (Policy × Event)
opening =
    (open_policy, accepted topic_b)
    ∷ (open_policy, connect topic_b)
    ∷ (open_policy, arrived topic_b (subscribe_op (topic_a ∷ []) 1))
    ∷ (open_policy, admitted topic_b none true)
    ∷ []

abbrev exchange : List (Policy × Event)
exchange =
    opening
    ++ ((open_policy, arrived topic_b (publish_op kept_packet))
        ∷ (open_policy, ended topic_b true)
        ∷ [])

keep_retained-IsKept_example : IsKept length (keep_retained length kept_packet nothing_kept)
keep_retained-IsKept_example =
    keep_retained-IsKept length kept_packet nothing_kept (tt, refl, omega arith, omega arith, tt)

keep_retained-lookup_example :
    lookup topic_a (keep_retained length kept_packet nothing_kept).map
    ≡ (if accepts length kept_packet nothing_kept then some kept_packet else lookup topic_a [])
keep_retained-lookup_example = keep_retained-lookup length topic_a kept_packet nothing_kept tt

run-IsSteady_example : IsSteady length (run length exchange new_broker)
run-IsSteady_example = run-IsSteady length exchange

abbrev listener : Client
listener = record fresh_client {
  subscriptions = (topic_a, topic_a) ∷ (hash, hash) ∷ [];
  state = active;
}

abbrev two_clients : Broker
two_clients = record new_broker { clients = (topic_a, listener) ∷ (topic_b, fresh_client) ∷ [] }

two_clients-IsTable : IsTable two_clients.clients
unfolding lookup
two_clients-IsTable = (refl, (refl, tt))

sent_to-publish_allowed_example :
    let sent = sent_to topic_a (publish_allowed length open_policy kept_packet two_clients).1 in
    ((sent ≡ kept_packet ∷ []) × IsReceiver open_policy kept_packet.topic topic_a two_clients)
    ⊎ ((sent ≡ []) × (¬ IsReceiver open_policy kept_packet.topic topic_a two_clients))
sent_to-publish_allowed_example =
    sent_to-publish_allowed length open_policy kept_packet topic_a two_clients two_clients-IsTable

idle_timeout_for_lem_example :
    ((300 < 60) × (idle_timeout_for 60 ≡ 0))
    ⊎ ((60 ≤ 300)
        × (300000 ≤ idle_timeout_for 60)
        × (60 * 1500 ≤ idle_timeout_for 60)
        × (idle_timeout_for 60 ≤ 450000))
idle_timeout_for_lem_example = idle_timeout_for_lem 60
