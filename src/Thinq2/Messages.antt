-- ===== src/Thinq2/Messages.antt =====
-- What a device sends over MQTT to be provisioned: the messages of cloud/thinq2/device.ts, and the
-- answer of cloud/thinq2/provisioning.ts.
use rethink.Common.{
  ℕ, Bool, true, false, not, ◌&&◌, ◌||◌, Option, none, some, [], ◌∷◌, ◌++◌, ltb, leb, if◌then◌else◌,
  length,
}
use rethink.Mqtt.Topic.{Text, text_eq}

-- A value that `JSON.parse` returns. The fields of an object are in the order of the text, each once.
mutual
  pub data Json : Type 0 where
    json_null : Json
    json_flag : Bool → Json
    json_number : ℕ → Json
    json_text : Text → Json
    json_array : Items → Json
    json_object : Fields → Json

  pub data Items : Type 0 where
    no_items : Items
    with_item : Json → Items → Items

  pub data Fields : Type 0 where
    no_fields : Fields
    with_field : Text → Json → Fields → Fields

-- `message[name]`; `none` is `undefined`.
unfoldable pub get : Text → Fields → Option Json
get name no_fields = none
get name (with_field key value fields) = if text_eq key name then some value else get name fields

abbrev pub did_text : Text
did_text = b'd' ∷ b'i' ∷ b'd' ∷ []

abbrev pub cmd_text : Text
cmd_text = b'c' ∷ b'm' ∷ b'd' ∷ []

abbrev pub kind_text : Text
kind_text = b'k' ∷ b'i' ∷ b'n' ∷ b'd' ∷ []

abbrev pub data_text : Text
data_text = b'd' ∷ b'a' ∷ b't' ∷ b'a' ∷ []

abbrev pub app_info_text : Text
app_info_text = b'a' ∷ b'p' ∷ b'p' ∷ b'I' ∷ b'n' ∷ b'f' ∷ b'o' ∷ []

abbrev pub model_name_text : Text
model_name_text = b'm' ∷ b'o' ∷ b'd' ∷ b'e' ∷ b'l' ∷ b'N' ∷ b'a' ∷ b'm' ∷ b'e' ∷ []

abbrev pub soft_ver_text : Text
soft_ver_text = b's' ∷ b'o' ∷ b'f' ∷ b't' ∷ b'V' ∷ b'e' ∷ b'r' ∷ []

abbrev pub device_type_text : Text
device_type_text = b'D' ∷ b'e' ∷ b'v' ∷ b'i' ∷ b'c' ∷ b'e' ∷ b'T' ∷ b'y' ∷ b'p' ∷ b'e' ∷ []

abbrev pub pre_deploy_text : Text
pre_deploy_text = b'p' ∷ b'r' ∷ b'e' ∷ b'D' ∷ b'e' ∷ b'p' ∷ b'l' ∷ b'o' ∷ b'y' ∷ []

abbrev pub deploy_text : Text
deploy_text = b'd' ∷ b'e' ∷ b'p' ∷ b'l' ∷ b'o' ∷ b'y' ∷ []

abbrev pub complete_provisioning_ack_text : Text
complete_provisioning_ack_text =
    b'c' ∷ b'o' ∷ b'm' ∷ b'p' ∷ b'l' ∷ b'e' ∷ b't' ∷ b'e' ∷ b'P' ∷ b'r' ∷ b'o' ∷ b'v' ∷ b'i' ∷ b's'
    ∷ b'i' ∷ b'o' ∷ b'n' ∷ b'i' ∷ b'n' ∷ b'g' ∷ b'_' ∷ b'a' ∷ b'c' ∷ b'k' ∷ []

abbrev pub req_timesync_text : Text
req_timesync_text =
    b'r' ∷ b'e' ∷ b'q' ∷ b'_' ∷ b't' ∷ b'i' ∷ b'm' ∷ b'e' ∷ b's' ∷ b'y' ∷ b'n' ∷ b'c' ∷ []

abbrev pub device_packet_text : Text
device_packet_text =
    b'd' ∷ b'e' ∷ b'v' ∷ b'i' ∷ b'c' ∷ b'e' ∷ b'_' ∷ b'p' ∷ b'a' ∷ b'c' ∷ b'k' ∷ b'e' ∷ b't' ∷ []

abbrev pub undeploy_text : Text
undeploy_text = b'u' ∷ b'n' ∷ b'd' ∷ b'e' ∷ b'p' ∷ b'l' ∷ b'o' ∷ b'y' ∷ []

abbrev pub complete_provisioning_text : Text
complete_provisioning_text =
    b'c' ∷ b'o' ∷ b'm' ∷ b'p' ∷ b'l' ∷ b'e' ∷ b't' ∷ b'e' ∷ b'P' ∷ b'r' ∷ b'o' ∷ b'v' ∷ b'i' ∷ b's'
    ∷ b'i' ∷ b'o' ∷ b'n' ∷ b'i' ∷ b'n' ∷ b'g' ∷ []

-- `ClipMessage`, whose `did` was compared.
pub record ClipMessage : Type 0 where
  pub did : Text
  pub fields : Fields

abbrev pub object_record : Option Json → Option Fields
object_record (some (json_object fields)) = some fields
object_record value = none

-- `value === text`
abbrev pub is_text : Option Json → Text → Bool
is_text (some (json_text value)) text = text_eq value text
is_text value text = false

abbrev pub text_of : Option Json → Option Text
text_of (some (json_text value)) = some value
text_of value = none

unfoldable pub command_is : ClipMessage → Text → Bool
command_is message cmd = is_text (get cmd_text message.fields) cmd

abbrev every_white : (ℕ → Bool) → Text → Bool
every_white is_white [] = true
every_white is_white (c ∷ text) = is_white c && every_white is_white text

-- `validMessage`
unfoldable pub valid_message : Json → Text → Option ClipMessage
valid_message payload expected_device_id = elim (object_record (some payload)) [
  | none ↦ none
  | some fields ↦
      if is_text (get did_text fields) expected_device_id
      then some (record { did = expected_device_id; fields = fields })
      else none
]

abbrev pub app_info_of : Fields → Option Fields
app_info_of message = elim (object_record (get data_text message)) [
  | none ↦ none
  | some contents ↦ object_record (get app_info_text contents)
]

-- What `trim` takes for white space.
module _ (is_white : ℕ → Bool) where
  -- `boundedText` and `boundedOptionalText`
  unfoldable pub bounded_text : Option Json → Bool
  bounded_text (some (json_text value)) =
      ltb 0 (length value) && leb (length value) 128 && not (every_white is_white value)
  bounded_text value = false

  unfoldable pub bounded_optional_text : Option Json → Bool
  bounded_optional_text value = is_text value [] || bounded_text value

  abbrev optional_field : Option Json → Bool
  optional_field none = true
  optional_field (some value) = bounded_optional_text (some value)

  -- `validDeployMessage`, on a message whose device was checked.
  unfoldable pub valid_deploy_message : ClipMessage → Option ClipMessage
  valid_deploy_message message =
      if (command_is message pre_deploy_text || command_is message deploy_text)
        && bounded_text (get kind_text message.fields)
      then elim (app_info_of message.fields) [
        | none ↦ none
        | some app_info ↦
            if bounded_text (get model_name_text app_info)
              && optional_field (get soft_ver_text app_info)
              && optional_field (get device_type_text app_info)
            then some message
            else none
      ]
      else none

-- `generateDeployResponse`, less the texts and numbers that are always the same.
pub record DeployResponse : Type 0 where
  pub did : Text
  pub mid : ℕ
  pub message_topic : Text
  pub provisioning_topic : Text
  pub provisioning_type : Option Json

abbrev lime_devices : Text
lime_devices =
    b'l' ∷ b'i' ∷ b'm' ∷ b'e' ∷ b'/' ∷ b'd' ∷ b'e' ∷ b'v' ∷ b'i' ∷ b'c' ∷ b'e' ∷ b's' ∷ b'/' ∷ []

abbrev clip_message_devices : Text
clip_message_devices =
    b'c' ∷ b'l' ∷ b'i' ∷ b'p' ∷ b'/' ∷ b'm' ∷ b'e' ∷ b's' ∷ b's' ∷ b'a' ∷ b'g' ∷ b'e' ∷ b'/' ∷ b'd'
    ∷ b'e' ∷ b'v' ∷ b'i' ∷ b'c' ∷ b'e' ∷ b's' ∷ b'/' ∷ []

abbrev clip_provisioning_devices : Text
clip_provisioning_devices =
    b'c' ∷ b'l' ∷ b'i' ∷ b'p' ∷ b'/' ∷ b'p' ∷ b'r' ∷ b'o' ∷ b'v' ∷ b'i' ∷ b's' ∷ b'i' ∷ b'o' ∷ b'n'
    ∷ b'i' ∷ b'n' ∷ b'g' ∷ b'/' ∷ b'd' ∷ b'e' ∷ b'v' ∷ b'i' ∷ b'c' ∷ b'e' ∷ b's' ∷ b'/' ∷ []

abbrev pub lime_topic_of : Text → Text
lime_topic_of id = lime_devices ++ id

unfoldable pub generate_deploy_response : ℕ → ClipMessage → DeployResponse
generate_deploy_response now payload = record {
  did = payload.did;
  mid = now;
  message_topic = clip_message_devices ++ payload.did;
  provisioning_topic = clip_provisioning_devices ++ payload.did;
  provisioning_type = get cmd_text payload.fields;
}

-- `Metadata` of a device, from its announcement.
pub record Metadata : Type 0 where
  pub model_id : Option Text
  pub model_name : Option Text
  pub sw_version : Option Text
  pub device_type : Option Text

abbrev info_text : Text → Option Fields → Option Text
info_text name none = none
info_text name (some app_info) = text_of (get name app_info)

unfoldable pub metadata_of : ClipMessage → Metadata
metadata_of message = record {
  model_id = text_of (get kind_text message.fields);
  model_name = info_text model_name_text (app_info_of message.fields);
  sw_version = info_text soft_ver_text (app_info_of message.fields);
  device_type = info_text device_type_text (app_info_of message.fields);
}
