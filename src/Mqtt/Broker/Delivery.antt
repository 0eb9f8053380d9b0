-- ===== src/Mqtt/Broker/Delivery.antt =====
-- Who is sent a published message.
use mathlib.Core.List.{Memᴰ}
use rethink.Common.{
  ℕ, ◌≡◌, refl, sym, ap, ◌∙◌, inl, inr, Bool, ◌&&◌, Option, none, some, List, [], ◌∷◌, arith,
  if◌then◌else◌, Bool-cases, Option-cases, true, ◌↔◌, ◌⊎◌,
}
use rethink.Mqtt.Topic.{Text, text_eq, mqtt_topic_matches, split_slash}
use rethink.Mqtt.Topic.Matching.{text_eq→eq, Matches, EndsEarly, IsNonempty, mqtt_topic_matches_iff}
use rethink.Mqtt.Table.{lookup, IsTable}
use rethink.Mqtt.Broker.{
  Packet, Client, ClientState, new, pending, active, closed, Broker, Policy, Output, deliver,
  is_active, some_match, values, try_publish_all, publish_allowed,
}

-- The messages that a client is sent, in their order.
abbrev pub sent_to : Text → List Output → List Packet
sent_to id [] = []
sent_to id (deliver other packet ∷ outputs) =
    let rest = sent_to id outputs in if text_eq other id then packet ∷ rest else rest
sent_to id (output ∷ outputs) = sent_to id outputs

-- A filter takes a topic.
abbrev pub IsTaken : Text → Text → Type 0
IsTaken topic filter =
    IsNonempty topic
    × IsNonempty filter
    × (Matches (split_slash filter) (split_slash topic)
        ⊎ EndsEarly (split_slash filter) (split_slash topic))

-- A client of the broker that is active, is allowed the topic, and has a subscription that takes it.
abbrev pub IsReceiver : Policy → Text → Text → Broker → Type 0
IsReceiver policy topic id b =
    (client : Client) × (lookup id b.clients ≡ some client)
    × (client.state ≡ active)
    × (policy.deliver id topic ≡ true)
    × (filter : Text) × Memᴰ filter (values client.subscriptions)
    × IsTaken topic filter

abbrev HasMatch : Text → List Text → Type 0
HasMatch topic filters = (filter : Text) × Memᴰ filter filters × IsTaken topic filter

some_match-HasMatch :
    (filters : List Text) (topic : Text) → some_match filters topic ≡ true → HasMatch topic filters
some_match-HasMatch [] topic h = cc
some_match-HasMatch (filter ∷ filters) topic h =
    elim (Bool-cases (mqtt_topic_matches topic filter)) [
      | inl e ↦ (filter, Memᴰ.head refl, (mqtt_topic_matches_iff topic filter).0 e)
      | inr e ↦
          let (other, member, taken) = some_match-HasMatch filters topic (ground arith) in
          (other, Memᴰ.tail member, taken)
    ]

matched-some_match :
    (filter : Text) (filters : List Text) (topic : Text)
    → Memᴰ filter filters
    → mqtt_topic_matches topic filter ≡ true
    → some_match filters topic ≡ true
matched-some_match filter [] topic member h = elim member [ ]
matched-some_match filter (other ∷ filters) topic (Memᴰ.head same) h = rw (← same, h) refl
matched-some_match filter (other ∷ filters) topic (Memᴰ.tail member) h =
    let rest = matched-some_match filter filters topic member h in ground arith

is_active-eq : (state : ClientState) → is_active state ≡ true → state ≡ active
is_active-eq active h = refl
is_active-eq new h = cc
is_active-eq pending h = cc
is_active-eq closed h = cc

abbrev should_receive : Policy → Packet → Text → Client → Bool
should_receive policy packet id client =
    is_active client.state
    && (policy.deliver id packet.topic && some_match (values client.subscriptions) packet.topic)

abbrev expected : Policy → Packet → Text → Option Client → List Packet
expected policy packet id none = []
expected policy packet id (some client) =
    if should_receive policy packet id client then packet ∷ [] else []

sent_to-absent :
    (policy : Policy) (packet : Packet) (id : Text) (clients : List (Text × Client))
    → lookup id clients ≡ none
    → sent_to id (try_publish_all policy packet clients) ≡ []
unfolding try_publish_all lookup
sent_to-absent policy packet id [] h = refl
sent_to-absent policy packet id ((other, client) ∷ clients) h =
    elim (Bool-cases (text_eq other id)) [
      | inl e ↦ ground arith
      | inr e ↦
          let rest = sent_to-absent policy packet id clients (ground arith) in
          elim (Bool-cases (should_receive policy packet other client)) [
            | inl f ↦ rw (f, e) rest
            | inr f ↦ rw f rest
          ]
    ]

sent_to-try_publish_all :
    (policy : Policy) (packet : Packet) (id : Text) (clients : List (Text × Client))
    → IsTable clients
    → sent_to id (try_publish_all policy packet clients)
      ≡ expected policy packet id (lookup id clients)
unfolding try_publish_all lookup
sent_to-try_publish_all policy packet id [] table = refl
sent_to-try_publish_all policy packet id ((other, client) ∷ clients) (fresh, table) =
    elim (Bool-cases (text_eq other id)) [
      | inl e ↦
          let same : other ≡ id = text_eq→eq other id e in
          let rest = sent_to-absent policy packet id clients (rw (← same) fresh) in
          let alike : should_receive policy packet other client
              ≡ should_receive policy packet id client =
            ap (λ i. should_receive policy packet i client) same in
          elim (Bool-cases (should_receive policy packet other client)) [
            | inl f ↦ rw (f, e) (rw (sym alike ∙ f) (rw rest refl))
            | inr f ↦ rw (f, e) (rw (sym alike ∙ f) rest)
          ]
      | inr e ↦ elim (Bool-cases (should_receive policy packet other client)) [
        | inl f ↦ rw (f, e) (sent_to-try_publish_all policy packet id clients table)
        | inr f ↦ rw (f, e) (sent_to-try_publish_all policy packet id clients table)
      ]
    ]

receiver_lem :
    (policy : Policy) (packet : Packet) (id : Text) (b : Broker) (client : Client)
    → lookup id b.clients ≡ some client
    → (should_receive policy packet id client ≡ true) ↔ IsReceiver policy packet.topic id b
receiver_lem policy packet id b client found = (
  λ h.
      let (filter, member, taken) =
        some_match-HasMatch (values client.subscriptions) packet.topic (ground arith) in
      (
        client,
        found,
        is_active-eq client.state (ground arith),
        ground arith,
        filter,
        member,
        taken,
      ),
  λ (other, there, on, allowed, filter, member, taken).
      let same : other ≡ client = ground arith in
      let matched =
        matched-some_match filter (values other.subscriptions) packet.topic member
          ((mqtt_topic_matches_iff packet.topic filter).1 taken) in
      rw (← same, on, allowed, matched) refl,
)

-- When a message is published by a broker that knows no client twice, a client that is active, is
-- allowed the topic by the policy, and has a subscription that takes it, is sent just that message,
-- once, however many such subscriptions it has; any other client is sent nothing.
pub sent_to-publish_allowed :
    (byte_length : Text → ℕ) (policy : Policy) (packet : Packet) (id : Text) (b : Broker)
    → IsTable b.clients
    → let sent = sent_to id (publish_allowed byte_length policy packet b).1 in
      ((sent ≡ packet ∷ []) × IsReceiver policy packet.topic id b)
      ⊎ ((sent ≡ []) × (¬ IsReceiver policy packet.topic id b))
unfolding publish_allowed
sent_to-publish_allowed byte_length policy packet id b table =
    let all = sent_to-try_publish_all policy packet id b.clients table in
    elim (Option-cases (lookup id b.clients)) [
      | inl e ↦ inr (rw (all, e) refl, λ (client, there, on, allowed, filter, member, taken). cc)
      | inr (client, e) ↦
          let (to, from) = receiver_lem policy packet id b client e in
          elim (Bool-cases (should_receive policy packet id client)) [
            | inl f ↦ inl (rw (all, e, f) refl, to f)
            | inr f ↦ inr (rw (all, e, f) refl, λ r. let g = from r in cc)
          ]
    ]
