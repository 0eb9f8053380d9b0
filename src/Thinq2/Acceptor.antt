-- ===== src/Thinq2/Acceptor.antt =====
-- `DeviceAcceptor` of cloud/thinq2/device.ts: which client speaks for which device.
pub mod Registry
pub mod Steps
pub mod Runs
pub mod Reached
pub mod Return
mod Tests
use rethink.Common.{
  ℕ, zero, suc, ◌+◌, ◌-◌, ◌*◌, ◌/◌, ◌%◌, ◌^◌, ◌≤◌, ◌<◌, min, bit_xor, ◌≡◌, refl, sym, ap, ◌∙◌,
  ◌≡⟨◌⟩◌, ◌∎, ◌≢◌, ◌↔◌, ◌⊎◌, inl, inr, Bool, true, false, not, ◌&&◌, ◌||◌, Option, none, some, List,
  [], ◌∷◌, ◌++◌, map, append-nil, append_assoc, arith, ltb, leb, ◌==◌, ==_iff, if◌then◌else◌,
  Bool-cases, Option-cases, split_if, split_option, all_below, all_below_sound, length, get_elem?,
  get_or, take, drop, concat, length-append, length-drop, length-take, take-append_le,
  drop-append_le, take_length, drop_length, All, All-append, All-drop, All-take, drop-get_elem?,
  get_elem?-eq-none, get_elem?_past, drop_past, bit_xor-zero, bit_xor_self, bit_xor-lt,
  bit_xor_bytes, bit_xor_words, bit_xor_comm, bit_xor_cancel, zero-bit_xor,
}
use rethink.Mqtt.Topic.{Text, text_eq}
use rethink.Mqtt.Table.{lookup, put, delete}
use rethink.Mqtt.Access.{DeviceTopic, message, provisioning, lime}
use rethink.Mqtt.Access.Topics.{parse_device_topic, is_safe_device_id}
use rethink.Thinq2.Messages.{
  Json, ClipMessage, DeployResponse, Metadata, command_is, is_text, text_of, get, data_text,
  valid_message, valid_deploy_message, complete_provisioning_ack_text, req_timesync_text,
  device_packet_text, undeploy_text, generate_deploy_response, metadata_of, lime_topic_of,
}

-- `Device`, as far as it is state: its id, what it announced, and where it connected from.
pub record DeviceObj : Type 0 where
  pub id : Text
  pub meta : Metadata
  pub source_ip : Option Text
  pub deploy_profile : ClipMessage

-- `ClientWithExtra`
pub record ClientExtra : Type 0 where
  pub device_obj : Option DeviceObj
  pub deploy_msg : Option ClipMessage

-- What the acceptor tells its listeners, and what it publishes.
pub data AcceptorOutput : Type 0 where
  new_device : ℕ → Text → AcceptorOutput
  drop_device : Text → AcceptorOutput
  device_data : ℕ → Text → Text → AcceptorOutput
  bridge_message : ℕ → Text → ClipMessage → AcceptorOutput
  time_sync : ℕ → Text → List ℕ → AcceptorOutput
  deploy_response : Text → DeployResponse → AcceptorOutput

-- The acceptor, and the fields that it keeps on the broker's clients; `out` has the latest first.
pub record Acceptor : Type 0 where
  pub clients_by_id : List (Text × ℕ)
  pub clients : ℕ → ClientExtra
  pub out : List AcceptorOutput

abbrev pub put_client : ℕ → ClientExtra → (ℕ → ClientExtra) → ℕ → ClientExtra
put_client c state clients j = if c == j then state else clients j

abbrev pub holds : Option ℕ → ℕ → Bool
holds none c = false
holds (some holder) c = holder == c

-- The fields of a `Date` in UTC, in the order in which they are sent.
pub record UtcDate : Type 0 where
  pub year : ℕ
  pub month : ℕ
  pub date : ℕ
  pub hours : ℕ
  pub minutes : ℕ
  pub seconds : ℕ
  pub day : ℕ

-- `disconnected`; `drop_device` is the device's own close event as well.
unfoldable pub disconnected : ℕ → Acceptor → Acceptor
disconnected c a = elim (a.clients c).device_obj [
  | none ↦ a
  | some device ↦ record {
    clients_by_id =
        if holds (lookup device.id a.clients_by_id) c
        then delete device.id a.clients_by_id
        else a.clients_by_id;
    clients =
        put_client c (record { device_obj = none; deploy_msg = (a.clients c).deploy_msg })
          a.clients;
    out = drop_device device.id ∷ a.out;
  }
]

-- The bytes of `timeSyncRequest`.
abbrev pub sync_bytes : UtcDate → List ℕ
sync_bytes now =
    (now.year % 100) ∷ now.month ∷ now.date ∷ now.hours ∷ now.minutes ∷ now.seconds ∷ now.day ∷ []

abbrev pub allows : Option ClipMessage → Text → Bool
allows none did = true
allows (some deploy_msg) did = text_eq deploy_msg.did did

abbrev pub is_device : Option DeviceObj → Text → Bool
is_device none did = false
is_device (some device) did = text_eq device.id did

abbrev pub allows_device : Option DeviceObj → Text → Bool
allows_device none did = true
allows_device (some device) did = text_eq device.id did

-- The end of `mqtt` for a message that the client's own device sent.
unfoldable pub forward : ClipMessage → ℕ → Acceptor → Acceptor
forward msg c a =
    let after_data : Acceptor = elim (text_of (get data_text msg.fields)) [
      | none ↦ a
      | some hex ↦
          if command_is msg device_packet_text
          then record a { out = device_data c msg.did hex ∷ a.out }
          else a
    ] in
    if is_device (a.clients c).device_obj msg.did
    then record after_data { out = bridge_message c msg.did msg ∷ after_data.out }
    else a

-- A message topic, with what `completeProvisioning` does.
unfoldable pub device_message :
    (Text → ℕ → Acceptor → Acceptor) → UtcDate → ClipMessage → ℕ → Acceptor → Acceptor
device_message complete now msg c a =
    if command_is msg complete_provisioning_ack_text
    then complete msg.did c a
    else if command_is msg req_timesync_text && is_device (a.clients c).device_obj msg.did
    then record a { out = time_sync c msg.did (sync_bytes now) ∷ a.out }
    else forward msg c a

-- `undeploy` on a provisioning topic.
unfoldable pub undeploy : Text → ℕ → Acceptor → Acceptor
undeploy did c a =
    let dropped = disconnected c a in
    if allows (a.clients c).deploy_msg did && allows_device (a.clients c).device_obj did
    then record dropped {
      clients =
          put_client c (record { device_obj = (dropped.clients c).device_obj; deploy_msg = none })
            dropped.clients;
    }
    else a

abbrev pub with_profile : ClipMessage → Option DeviceObj → Option DeviceObj
with_profile deploy none = none
with_profile deploy (some device) = some (record device { deploy_profile = deploy })

-- An announcement that was found valid.
unfoldable pub announce : ℕ → ClipMessage → ℕ → Acceptor → Acceptor
announce mid deploy c a =
    if allows (a.clients c).deploy_msg deploy.did
      && allows_device (a.clients c).device_obj deploy.did
    then record a {
      clients =
          put_client c
            (record {
              device_obj = with_profile deploy (a.clients c).device_obj;
              deploy_msg = some deploy;
            })
            a.clients;
      out =
          deploy_response (lime_topic_of deploy.did) (generate_deploy_response mid deploy) ∷ a.out;
    }
    else a

unfoldable pub device_provisioning : (ℕ → Bool) → ℕ → ClipMessage → ℕ → Acceptor → Acceptor
device_provisioning is_white mid msg c a =
    if command_is msg undeploy_text
    then undeploy msg.did c a
    else elim (valid_deploy_message is_white msg) [
      | none ↦ a
      | some deploy ↦ announce mid deploy c a
    ]

-- What the acceptor does not decide: the length of a text in UTF-8, what is white space, where a client
-- connected from, and the last will that the broker publishes when it closes a client.
pub record Surroundings : Type 0 where
  pub byte_length : Text → ℕ
  pub is_white : ℕ → Bool
  pub source_ip : ℕ → Option Text
  pub will : ℕ → Option (Text × Json)

-- The end of `completeProvisioning`.
unfoldable pub register : Surroundings → Text → ClipMessage → ℕ → Acceptor → Acceptor
register around id deploy c a = record a {
  clients_by_id = put id c a.clients_by_id;
  clients =
      put_client c
        (record {
          device_obj = some (record {
            id = id;
            meta = metadata_of deploy;
            source_ip = around.source_ip c;
            deploy_profile = deploy;
          });
          deploy_msg = some deploy;
        })
        a.clients;
  out = new_device c id ∷ a.out;
}

module _ (around : Surroundings) (mid : ℕ) (now : UtcDate) where
  abbrev pub route : (Text → ℕ → Acceptor → Acceptor) → DeviceTopic → Json → ℕ → Acceptor → Acceptor
  route complete topic payload c a = elim (valid_message payload topic.device_id) [
    | none ↦ a
    | some checked ↦ elim topic.kind [
      | lime ↦ a
      | message ↦ device_message complete now checked c a
      | provisioning ↦ device_provisioning around.is_white mid checked c a
    ]
  ]

  -- `mqtt`, with what `completeProvisioning` does.
  unfoldable pub mqtt_with :
      (Text → ℕ → Acceptor → Acceptor) → Text → Json → ℕ → Acceptor → Acceptor
  mqtt_with complete topic payload c a = elim (parse_device_topic around.byte_length topic) [
    | none ↦ a
    | some parsed ↦ route complete parsed payload c a
  ]

  -- `existing.destroy()`: the broker publishes the client's will and then says that it disconnected. The
  -- client has its device still, so that an acknowledgement in the will changes nothing.
  unfoldable pub destroy_existing : ℕ → Acceptor → Acceptor
  destroy_existing c a = elim (around.will c) [
    | none ↦ disconnected c a
    | some will ↦ disconnected c (mqtt_with (λ id client same. same) will.0 will.1 c a)
  ]

  abbrev pub drop_existing : Option ℕ → Acceptor → Acceptor
  drop_existing none a = a
  drop_existing (some existing) a = destroy_existing existing a

  -- `completeProvisioning`, on an acknowledgement that was found valid.
  unfoldable pub complete_provisioning : Text → ℕ → Acceptor → Acceptor
  complete_provisioning id c a =
      if is_safe_device_id id
      then elim (a.clients c).deploy_msg [
        | none ↦ a
        | some deploy ↦
            if text_eq deploy.did id
            then elim (a.clients c).device_obj [
              | some device ↦ a
              | none ↦ register around id deploy c (drop_existing (lookup id a.clients_by_id) a)
            ]
            else a
      ]
      else a

  -- `mqtt`
  unfoldable pub mqtt : Text → Json → ℕ → Acceptor → Acceptor
  mqtt topic payload c a = mqtt_with complete_provisioning topic payload c a

-- The acceptor before any client: no device, and no client has said anything.
abbrev pub no_clients : Acceptor
no_clients = record {
  clients_by_id = [];
  clients = λ c. record { device_obj = none; deploy_msg = none };
  out = [];
}

-- What the broker tells the acceptor: a client's message, at a time, or that a client is gone.
pub data AcceptorEvent : Type 0 where
  published : ℕ → UtcDate → Text → Json → ℕ → AcceptorEvent
  gone : ℕ → AcceptorEvent

unfoldable pub accept_event : Surroundings → AcceptorEvent → Acceptor → Acceptor
accept_event around (published mid now topic payload c) a = mqtt around mid now topic payload c a
accept_event around (gone c) a = disconnected c a

unfoldable pub accept_all : Surroundings → List AcceptorEvent → Acceptor → Acceptor
accept_all around [] a = a
accept_all around (event ∷ events) a = accept_all around events (accept_event around event a)
