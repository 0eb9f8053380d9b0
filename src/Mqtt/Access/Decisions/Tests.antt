-- ===== src/Mqtt/Access/Decisions/Tests.antt =====
-- An appliance that is asked and sent for, and the theorems at concrete inputs.
use rethink.Common.{◌≡◌, ◌↔◌, refl, true, false, Option, none, some, List, [], ◌∷◌, length}
use rethink.Mqtt.Topic.{Text, split_slash}
use rethink.Mqtt.Table.{lookup, put}
use rethink.Mqtt.Broker.{Packet}
use rethink.Mqtt.Access.{
  InventoryEntry, DeviceTopic, ApplianceSession, appliance, Access, is_lime, current, is_stale,
  sweep_client, sweep_clients, sweep, is_refused, take_claim, bind,
}
use rethink.Mqtt.Access.Topics.{parse_device_topic, payload_did, is_safe_device_id}
use rethink.Mqtt.Access.Claims.{HasClaims, bind-HasClaims}
use rethink.Mqtt.Access.Decisions.{
  publish, publish_appliance, current_of, deliver, answers, Question, publishes, disconnects,
}
use rethink.Mqtt.Access.Decisions.Safety.{IsClaimed, publish-IsClaimed, IsAddressed, deliver_lem}
use rethink.Mqtt.Access.Decisions.Exclusive.{answers-HasClaims}

-- The device `d`, the entry `e` and the client `c`.
abbrev device : Text
device = b'd' ∷ []

abbrev entry_e : Text
entry_e = b'e' ∷ []

abbrev client_c : Text
client_c = b'c' ∷ []

abbrev address : Text
address = b'1' ∷ []

abbrev inventory : List InventoryEntry
inventory =
    record {
      entry_id = entry_e;
      ip = address;
      device_id = some device;
      auto_link = none;
      platform = none;
    }
    ∷ []

abbrev own_session : ApplianceSession
own_session = record {
  entry_id = entry_e;
  ip = address;
  id = some device;
  linked = true;
  revoked = false;
}

abbrev connected : Access
connected = record { sessions = (client_c, appliance own_session) ∷ []; claims = [] }

-- `clip/message/devices/d`
abbrev message_topic : Text
message_topic =
    b'c' ∷ b'l' ∷ b'i' ∷ b'p' ∷ b'/' ∷ b'm' ∷ b'e' ∷ b's' ∷ b's' ∷ b'a' ∷ b'g' ∷ b'e' ∷ b'/' ∷ b'd'
    ∷ b'e' ∷ b'v' ∷ b'i' ∷ b'c' ∷ b'e' ∷ b's' ∷ b'/' ∷ b'd' ∷ []

-- `lime/devices/d`
abbrev lime_device : Text
lime_device =
    b'l' ∷ b'i' ∷ b'm' ∷ b'e' ∷ b'/' ∷ b'd' ∷ b'e' ∷ b'v' ∷ b'i' ∷ b'c' ∷ b'e' ∷ b's' ∷ b'/' ∷ b'd'
    ∷ []

abbrev sent_report : Packet
sent_report = record {
  topic = message_topic;
  payload = 0 ∷ [];
  qos = 0;
  retain = false;
  message_id = 0;
  properties = none;
}

abbrev says_d : Text → Option Text
says_d text = some device

report_allowed : (publish length says_d inventory sent_report client_c connected).1 ≡ true
unfolding publish publish_appliance current_of current is_stale bind sweep_client sweep_clients
    sweep is_refused take_claim parse_device_topic payload_did is_safe_device_id lookup put
    split_slash
report_allowed = refl

lime_sent : (deliver length says_d inventory lime_device client_c connected).1 ≡ true
unfolding deliver current_of current is_stale parse_device_topic is_safe_device_id lookup put
    split_slash
lime_sent = refl

session_found : lookup client_c connected.sessions ≡ some (appliance own_session)
unfolding lookup
session_found = refl

publish-IsClaimed_example :
    (topic : DeviceTopic) × (parse_device_topic length sent_report.topic ≡ some topic)
    × (payload_did says_d sent_report.payload ≡ some topic.device_id)
    × (is_lime topic.kind ≡ false)
    × IsClaimed entry_e topic.device_id client_c
        (publish length says_d inventory sent_report client_c connected).0
publish-IsClaimed_example =
    publish-IsClaimed length says_d inventory sent_report client_c own_session connected
      session_found report_allowed

deliver_lem_example :
    let (after, is_sent) = deliver length says_d inventory lime_device client_c connected in
    (after.claims ≡ connected.claims)
    × ((is_sent ≡ true) ↔ IsAddressed length says_d inventory lime_device own_session)
deliver_lem_example =
    deliver_lem length says_d inventory lime_device client_c own_session connected session_found

abbrev questions : List Question
questions = publishes inventory sent_report client_c ∷ disconnects client_c ∷ []

answers-HasClaims_example : HasClaims (answers length says_d questions connected).claims
answers-HasClaims_example = answers-HasClaims length says_d questions connected (tt, tt)

bind-HasClaims_example : HasClaims (bind inventory own_session client_c device connected).0.claims
bind-HasClaims_example = bind-HasClaims inventory own_session client_c device connected (tt, tt)
