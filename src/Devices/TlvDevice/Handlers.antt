-- ===== src/Devices/TlvDevice/Handlers.antt =====
-- The handlers of a TLV device: received frames, and properties that are written.
use rethink.Common.{
  ℕ, ◌+◌, ◌-◌, ◌*◌, ◌/◌, ◌%◌, Bool, true, false, not, ◌&&◌, Option, none, some, List, [], ◌∷◌, ◌++◌,
  if◌then◌else◌, length, get_or,
}
use rethink.Mqtt.Topic.{Text}
use rethink.Mqtt.Table.{lookup}
use rethink.Wire.Tlv
use rethink.Wire.Tlv.{Tlv, build_one}
use rethink.Wire.Packet.{subarray}
use rethink.Devices.TlvDevice.{
  read, write, Value, string_value, number_value, Written, written, not_written, Attach, no_attach,
  attach_tags, attach_of, FieldDefinition, property, capabilities, values, Device, emit, Hooks,
  initial_values_retry_ms, full_name, unless_false, definitions_of, send_payload,
}
use rethink.Devices.TlvDevice.Queries.{
  asked_for_refresh, byte_is, heard, is_priv_data, is_priv_response, is_push_frame, is_tlv_reply,
  query, query_caps, set_query_interval, start, stop_timers, drop_device, publish_config,
  set_config,
}

-- What a `read_xform` makes of a value; `none` where it is discarded.
abbrev pub transformed : Option (ℕ → Option Value) → ℕ → Option Value
transformed none v = some (number_value v)
transformed (some xform) v = xform v

-- What a `write_xform` makes of a text.
abbrev pub written_value : Option (Text → Written) → Text → Written
written_value none text = not_written
written_value (some xform) text = xform text

abbrev pub attached : Attach → ℕ → List ℕ
attached no_attach value = []
attached (attach_tags tags) value = tags
attached (attach_of f) value = f value

-- What `TLV.build` makes of the tags of a write: no value compares as below a bound, so a tag that
-- was never seen takes the longest form, with zeros.
abbrev pub build_tag : ℕ → Option ℕ → List ℕ
build_tag tag (some v) = build_one (record { t = tag; l = none; v = v })
build_tag tag none = (tag / 4 % 256) ∷ (tag % 4 * 64 + 0x30) ∷ 0 ∷ 0 ∷ 0 ∷ []

unfoldable pub build_write : List (ℕ × ℕ) → List ℕ → List ℕ
build_write raw [] = []
build_write raw (tag ∷ tags) = build_tag tag (read tag raw) ++ build_write raw tags

-- What happens to a device. A timer's callback runs only while the timer does.
pub data Event : Type 0 where
  caps_tick values_tick query_tick write_tick : ℕ → Event
  data_received : ℕ → List ℕ → Event
  property_set : Text → Text → Event
  started : ℕ → Event
  stopped dropped discovery_asked : Event
  config_set : Bool → Event
  interval_set : ℕ → ℕ → Event

abbrev pub is_running : Option ℕ → Bool
is_running none = false
is_running (some interval) = true

abbrev pub settle_write : Bool → Device → Device
settle_write complete device =
    if complete then record device { write_refresh_timeout = false } else device

-- `refreshAfterWrite`: the one-shot timer is armed, in place of one that runs.
abbrev pub refresh_after_write : Device → Device
refresh_after_write device = record device { write_refresh_timeout = true }

module _ (hooks : Hooks) where
  abbrev pub read_callback_of : Option ℕ → Value → Device → Device × Bool
  read_callback_of none value device = (device, true)
  read_callback_of (some callback) value device = hooks.run_read_callback callback value device

  abbrev pub write_callback_of : Option ℕ → ℕ → Device → Device × Bool
  write_callback_of none value device = (device, true)
  write_callback_of (some callback) value device = hooks.run_write_callback callback value device

  -- `publishKeyValue`.
  unfoldable pub publish_key_value : FieldDefinition → ℕ → Device → Device
  publish_key_value def v device = elim (transformed def.read_xform v) [
    | none ↦ device
    | some processed ↦
        let (called, do_read) = read_callback_of def.read_callback processed device in
        if do_read && unless_false def.readable
        then emit (property (full_name def) processed) called
        else called
  ]

  unfoldable pub publish_all : List FieldDefinition → ℕ → Device → Device
  publish_all [] v device = device
  publish_all (def ∷ defs) v device = publish_all defs v (publish_key_value def v device)

  -- `processKeyValue`.
  unfoldable pub process_key_value : ℕ → ℕ → Device → Device
  process_key_value k v device =
      publish_all (definitions_of (read k device.fields_by_id)) v
        (record device { raw_clip_state = write k v device.raw_clip_state })

  -- The loop of `processTLV`.
  unfoldable pub process_records : List Tlv → Device → Device
  process_records [] device = device
  process_records (el ∷ tlv) device = process_records tlv (process_key_value el.t el.v device)

  -- Capabilities arrive: the first query for values, and its retries.
  unfoldable pub take_capabilities : ℕ → Device → Device
  take_capabilities now device =
      record (query now (
        hooks.capability_received
          (emit capabilities (record device { query_caps_timeout = none })))) {
            query_values_timeout = some initial_values_retry_ms;
          }

  unfoldable pub take_values : Device → Device
  take_values device =
      hooks.values_received (emit values (record device { query_values_timeout = none }))

  -- The two tests at the end of `processTLV`.
  unfoldable pub check_capabilities : ℕ → List Tlv → Device → Device
  check_capabilities now tlv device =
      if is_running device.query_caps_timeout && hooks.is_caps_response tlv
      then take_capabilities now device
      else device

  unfoldable pub check_values : List Tlv → Bool → Device → Device
  check_values tlv can_satisfy device =
      if can_satisfy && not (is_running device.query_caps_timeout) && hooks.is_values_response tlv
      then take_values device
      else device

  -- `processTLV`.
  unfoldable pub process_tlv : ℕ → List Tlv → Bool → Device → Device
  process_tlv now tlv can_satisfy device =
      check_values tlv can_satisfy (check_capabilities now tlv (process_records tlv device))

  -- `processPushFrame`; the Boolean is what it returns.
  unfoldable pub process_push_frame : ℕ → List ℕ → Device → Device × Bool
  process_push_frame now buf device =
      if is_push_frame buf
      then elim (hooks.decode_push_data (subarray buf 8 (length buf - 2))) [
        | none ↦ (device, false)
        | some tlv ↦
            let complete = hooks.is_complete_push_snapshot tlv in
            (settle_write complete (process_tlv now tlv complete (heard device)), true)
      ]
      else (device, false)

  -- The three tests of `processData` after that, one after another.
  unfoldable pub process_reply : ℕ → List ℕ → Device → Device
  process_reply now buf device =
      if is_tlv_reply buf
      then process_tlv now (Tlv.parse (subarray buf 11 (length buf - 2))) true (heard device)
      else device

  unfoldable pub process_private : List ℕ → Device → Device
  process_private buf device =
      let after_data =
        if is_priv_data buf
        then hooks.process_priv_data (get_or buf 0 0) (get_or buf 9 0)
            (subarray buf 11 (length buf - 2)) device
        else device in
      if is_priv_response buf
      then hooks.process_priv_data_cmd_resp (byte_is buf 0 0x02) (get_or buf 1 0) (get_or buf 12 0)
          (subarray buf 13 (length buf - 2)) after_data
      else after_data

  -- `processData`.
  unfoldable pub process_data : ℕ → List ℕ → Device → Device
  process_data now buf device =
      let (pushed, taken) = process_push_frame now buf device in
      if taken then pushed else process_private buf (process_reply now buf pushed)

  abbrev pub as_number : Value → ℕ
  as_number (string_value text) = hooks.number text
  as_number (number_value n) = n

  -- The end of `setProperty`, on a field with an id.
  unfoldable pub write_field : ℕ → ℕ → Attach → Device → Device
  write_field id value attach device =
      let raw = write id value device.raw_clip_state in
      refresh_after_write (
        send_payload hooks.write_header (build_write raw (id ∷ attached attach value))
          (record device { raw_clip_state = raw }))

  unfoldable pub write_value : FieldDefinition → ℕ → Device → Device
  write_value def value device =
      let (called, do_write) = write_callback_of def.write_callback value device in
      elim def.id [
        | none ↦ called
        | some id ↦ if do_write then write_field id value def.write_attach called else called
      ]

  unfoldable pub write_property : FieldDefinition → Text → Device → Device
  write_property def mqtt_value device = elim (written_value def.write_xform mqtt_value) [
    | not_written ↦ device
    | written value ↦ write_value def (as_number value) device
  ]

  -- `setProperty`.
  unfoldable pub set_property : Text → Text → Device → Device
  set_property prop mqtt_value device = elim (lookup prop device.fields_by_ha) [
    | none ↦ device
    | some def ↦ if unless_false def.writable then write_property def mqtt_value device else device
  ]

  unfoldable pub step : Event → Device → Device
  step (caps_tick now) device =
      if is_running device.query_caps_timeout then query_caps device else device
  step (values_tick now) device =
      if is_running device.query_values_timeout then query now device else device
  step (query_tick now) device =
      if is_running device.query_timer then query now (asked_for_refresh device) else device
  step (write_tick now) device =
      if device.write_refresh_timeout
      then query now (record device { write_refresh_timeout = false })
      else device
  step (data_received now buf) device = process_data now buf device
  step (property_set prop text) device = set_property prop text device
  step (started now) device = start now device
  step stopped device = stop_timers device
  step dropped device = drop_device device
  step discovery_asked device = publish_config device
  step (config_set has_removed) device = set_config has_removed device
  step (interval_set now interval) device = set_query_interval now interval device

  unfoldable pub run : List Event → Device → Device
  run [] device = device
  run (event ∷ events) device = run events (step event device)
