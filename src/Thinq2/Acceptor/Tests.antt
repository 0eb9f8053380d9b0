-- ===== src/Thinq2/Acceptor/Tests.antt =====
-- A device that announces itself, is registered, and comes again on another connection.
use rethink.Common.{ℕ, ◌≡◌, refl, true, none, some, List, [], ◌∷◌, ◌==◌, length}
use rethink.Mqtt.Topic.{Text, split_slash}
use rethink.Mqtt.Table.{lookup}
use rethink.Mqtt.Access.Topics.{is_safe_device_id, parse_device_topic}
use rethink.Thinq2.Messages.{
  Json, json_text, json_object, with_field, no_fields, Fields, ClipMessage, get, valid_message,
  command_is, valid_deploy_message, bounded_text, did_text, cmd_text, kind_text, data_text,
  app_info_text, model_name_text, deploy_text, complete_provisioning_ack_text,
}
use rethink.Thinq2.Acceptor.{
  DeviceObj, Acceptor, UtcDate, announce, undeploy, Surroundings, register, complete_provisioning,
  no_clients, AcceptorEvent, published, gone, accept_all, accept_event, mqtt, mqtt_with,
  device_message, device_provisioning,
}
use rethink.Thinq2.Acceptor.Registry.{registered, IsOrderly, IsRegistered}
use rethink.Thinq2.Acceptor.Reached.{
  register-IsRegistered, no_clients-IsRegistered, accept_all-registered, accept_all_exclusive,
}
use rethink.Thinq2.Acceptor.Return.{device_of, undeploy-complete_provisioning}

abbrev around : Surroundings
around = record {
  byte_length = length;
  is_white = λ c. c == b' ';
  source_ip = λ c. none;
  will = λ c. none;
}

abbrev now : UtcDate
now = record { year = 2024; month = 1; date = 2; hours = 3; minutes = 4; seconds = 5; day = 6 }

abbrev deploy : ClipMessage
deploy = record { did = b'x' ∷ []; fields = no_fields }

abbrev events : List AcceptorEvent
events = published 0 now (b'a' ∷ []) (json_object no_fields) 1 ∷ gone 1 ∷ []

accept_all-registered_example :
    let a = accept_all around events no_clients in
    ((id : Text) → lookup id a.clients_by_id ≡ registered id a.out) × IsOrderly a.out
accept_all-registered_example = accept_all-registered around events

abbrev provisioning_topic : Text
provisioning_topic =
    b'c' ∷ b'l' ∷ b'i' ∷ b'p' ∷ b'/' ∷ b'p' ∷ b'r' ∷ b'o' ∷ b'v' ∷ b'i' ∷ b's' ∷ b'i' ∷ b'o' ∷ b'n'
    ∷ b'i' ∷ b'n' ∷ b'g' ∷ b'/' ∷ b'd' ∷ b'e' ∷ b'v' ∷ b'i' ∷ b'c' ∷ b'e' ∷ b's' ∷ b'/' ∷ b'x' ∷ []

abbrev message_topic : Text
message_topic =
    b'c' ∷ b'l' ∷ b'i' ∷ b'p' ∷ b'/' ∷ b'm' ∷ b'e' ∷ b's' ∷ b's' ∷ b'a' ∷ b'g' ∷ b'e' ∷ b'/' ∷ b'd'
    ∷ b'e' ∷ b'v' ∷ b'i' ∷ b'c' ∷ b'e' ∷ b's' ∷ b'/' ∷ b'x' ∷ []

-- An announcement with its kind and model, and an acknowledgement.
abbrev announcement_fields : Fields
announcement_fields = with_field did_text (json_text (b'x' ∷ [])) (
    with_field cmd_text (json_text deploy_text) (
      with_field kind_text (json_text (b'k' ∷ [])) (
        with_field data_text
          (json_object (
            with_field app_info_text
              (json_object (with_field model_name_text (json_text (b'm' ∷ [])) no_fields))
              no_fields))
          no_fields)))

abbrev acknowledgement : Json
acknowledgement = json_object (
    with_field did_text (json_text (b'x' ∷ []))
      (with_field cmd_text (json_text complete_provisioning_ack_text) no_fields))

abbrev joining : List AcceptorEvent
joining =
    published 0 now provisioning_topic (json_object announcement_fields) 1
    ∷ published 0 now message_topic acknowledgement 1
    ∷ []

abbrev joined_device : DeviceObj
joined_device = device_of around 1 (record { did = b'x' ∷ []; fields = announcement_fields })

joined_device_test :
    ((accept_all around joining no_clients).clients 1).device_obj ≡ some joined_device
unfolding accept_all accept_event mqtt mqtt_with parse_device_topic split_slash is_safe_device_id
    valid_message get command_is device_message device_provisioning valid_deploy_message
    bounded_text announce complete_provisioning register lookup
joined_device_test = refl

accept_all_exclusive_example :
    (◌≡◌ {A = ℕ} 1 1)
    × (lookup (b'x' ∷ []) (accept_all around joining no_clients).clients_by_id ≡ some 1)
    × (((accept_all around joining no_clients).clients 1).deploy_msg
        ≡ some joined_device.deploy_profile)
    × (joined_device.deploy_profile.did ≡ b'x' ∷ [])
accept_all_exclusive_example =
    accept_all_exclusive around joining 1 1 joined_device joined_device joined_device_test
      joined_device_test refl

-- The device of that announcement registered without a message.
abbrev registered_one : Acceptor
registered_one =
    register around (b'x' ∷ []) (record { did = b'x' ∷ []; fields = announcement_fields }) 1
      no_clients

registered_one-IsRegistered : IsRegistered registered_one
unfolding lookup
registered_one-IsRegistered =
    register-IsRegistered around (b'x' ∷ [])
      (record { did = b'x' ∷ []; fields = announcement_fields }) 1 no_clients
      no_clients-IsRegistered refl refl refl

registered_one_test : (registered_one.clients 1).device_obj ≡ some joined_device
unfolding register
registered_one_test = refl

safe_test : is_safe_device_id (b'x' ∷ []) ≡ true
unfolding is_safe_device_id
safe_test = refl

undeploy-complete_provisioning_example :
    let b =
      complete_provisioning around 0 now
        (b'x' ∷ [])
        1
        (announce 0 deploy 1 (undeploy (b'x' ∷ []) 1 registered_one)) in
    (lookup (b'x' ∷ []) b.clients_by_id ≡ some 1)
    × ((b.clients 1).device_obj ≡ some (device_of around 1 deploy))
undeploy-complete_provisioning_example =
    undeploy-complete_provisioning around 0 now deploy joined_device 1 registered_one
      registered_one-IsRegistered registered_one_test refl safe_test
