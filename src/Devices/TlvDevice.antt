-- ===== src/Devices/TlvDevice.antt =====
-- The base of the handlers whose appliances speak TLV: cloud/devices/tlv_device.ts. The device, its
-- fields, and the frames it sends.
pub mod Queries
pub mod Handlers
pub mod Invariant
pub mod Health
pub mod Startup
pub mod Writes
mod Tests
use rethink.Common.{
  ℕ, zero, suc, ◌+◌, ◌-◌, ◌*◌, ◌/◌, ◌%◌, ◌^◌, ◌≤◌, ◌<◌, min, bit_xor, ◌≡◌, refl, sym, ap, ◌∙◌,
  ◌≡⟨◌⟩◌, ◌∎, ◌≢◌, ◌↔◌, ◌⊎◌, inl, inr, Bool, true, false, not, ◌&&◌, ◌||◌, Option, none, some, List,
  [], ◌∷◌, ◌++◌, map, append-nil, append_assoc, arith, ltb, leb, ◌==◌, ==_iff, if◌then◌else◌,
  Bool-cases, Option-cases, all_below, all_below_sound, length, get_elem?, get_or, take, drop,
  concat, length-append, length-drop, length-take, take-append_le, drop-append_le, take_length,
  drop_length, All, All-append, All-drop, All-take, drop-get_elem?, get_elem?-eq-none,
  get_elem?_past, drop_past, bit_xor-zero, bit_xor_self, bit_xor-lt, bit_xor_bytes, bit_xor_words,
  bit_xor_comm, bit_xor_cancel, zero-bit_xor,
}
use rethink.Mqtt.Topic.{Text, text_eq, is_empty}
use rethink.Mqtt.Table.{lookup, put}
use rethink.Wire.Crc16.{crc16}
use rethink.Wire.Tlv
use rethink.Wire.Tlv.{Tlv, build_one}
use rethink.Wire.Packet.{buffer_from, subarray, or_default}

-- `Record<number, V>`.
module _ {V : Type 0} where
  unfoldable pub read : ℕ → List (ℕ × V) → Option V
  read k [] = none
  read k ((j, v) ∷ entries) = if j == k then some v else read k entries

  unfoldable pub write : ℕ → V → List (ℕ × V) → List (ℕ × V)
  write k v [] = (k, v) ∷ []
  write k v ((j, w) ∷ entries) = if j == k then (j, v) ∷ entries else (j, w) ∷ write k v entries

-- `string | number`, and what a `write_xform` returns.
pub data Value : Type 0 where
  string_value : Text → Value
  number_value : ℕ → Value

pub data Written : Type 0 where
  written : Value → Written
  not_written : Written

-- `write_attach`: a list of tags, or a function of the value written.
pub data Attach : Type 0 where
  no_attach : Attach
  attach_tags : List ℕ → Attach
  attach_of : (ℕ → List ℕ) → Attach

-- `FieldDefinition`. A callback is a closure over the device, named here by a number which `Hooks`
-- resolves.
pub record FieldDefinition : Type 0 where
  pub id : Option ℕ
  pub name : Text
  pub comp : Text
  pub state_topic : Option Text
  pub readable : Option Bool
  pub writable : Option Bool
  pub write_xform : Option (Text → Written)
  pub write_attach : Attach
  pub read_xform : Option (ℕ → Option Value)
  pub read_callback : Option ℕ
  pub write_callback : Option ℕ

-- What leaves the device: a packet for the appliance, a property for Home Assistant, a call of
-- `capabilityReceived` or `valuesReceived`, the discovery record (without its content), and that record
-- with components that are removed.
pub data TlvOutput : Type 0 where
  packet : List ℕ → TlvOutput
  property : Text → Value → TlvOutput
  capabilities values config_sent removed_sent : TlvOutput

-- The device; `out` has the latest output first. A timer that repeats is its interval, the one that
-- does not is a flag.
pub record Device : Type 0 where
  pub fields_by_id : List (ℕ × List FieldDefinition)
  pub fields_by_ha : List (Text × FieldDefinition)
  pub raw_clip_state : List (ℕ × ℕ)
  pub query_timer : Option ℕ
  pub query_last_timestamp : Option ℕ
  pub query_last_interval : Option ℕ
  pub write_refresh_timeout : Bool
  pub query_caps_timeout : Option ℕ
  pub query_values_timeout : Option ℕ
  pub unanswered_queries : ℕ
  pub silent : Bool
  -- whether `config` is there
  pub has_config : Bool
  pub out : List TlvOutput

abbrev pub emit : TlvOutput → Device → Device
emit output device = record device { out = output ∷ device.out }

-- What a subclass overrides, and `Number` on the texts that a `write_xform` returns. A subclass that
-- overrides `processTLV`, `processData` or `stopTimers` itself, to do more than these methods let it, is
-- not covered.
pub record Hooks : Type 0 where
  pub is_caps_response : List Tlv → Bool
  pub is_values_response : List Tlv → Bool
  pub decode_push_data : List ℕ → Option (List Tlv)
  pub is_complete_push_snapshot : List Tlv → Bool
  pub capability_received : Device → Device
  pub values_received : Device → Device
  pub process_priv_data : ℕ → ℕ → List ℕ → Device → Device
  pub process_priv_data_cmd_resp : Bool → ℕ → ℕ → List ℕ → Device → Device
  pub run_read_callback : ℕ → Value → Device → Device × Bool
  pub run_write_callback : ℕ → ℕ → Device → Device × Bool
  pub write_header : List ℕ
  pub number : Text → ℕ

-- The methods as the base class has them.
unfoldable pub base_hooks : (Text → ℕ) → Hooks
base_hooks number = record {
  is_caps_response = λ tlv. false;
  is_values_response = λ tlv. false;
  decode_push_data = λ payload. none;
  is_complete_push_snapshot = λ tlv. false;
  capability_received = λ device. device;
  values_received = λ device. device;
  process_priv_data = λ cmd buf9 bytes device. device;
  process_priv_data_cmd_resp = λ success buf1 cmd bytes device. device;
  run_read_callback = λ callback value device. (device, true);
  run_write_callback = λ callback value device. (device, true);
  write_header = 1 ∷ 1 ∷ 2 ∷ 1 ∷ 1 ∷ [];
  number = number;
}

abbrev pub initial_values_retry_ms : ℕ
initial_values_retry_ms = 15 * 1000

abbrev pub unanswered_queries_before_silent : ℕ
unanswered_queries_before_silent = 3

-- `CAPS_RESPONSE_TAGS.has(t)`, and `marksCapsResponse`.
abbrev pub caps_response_tag : ℕ → Bool
caps_response_tag t = t == 0x2da || t == 0x2db || t == 0x2c1

pub marks_caps_response : List Tlv → Bool
marks_caps_response [] = false
marks_caps_response (el ∷ tlv) = caps_response_tag el.t || marks_caps_response tlv

-- A component and a name as Home Assistant knows them together.
abbrev pub full_name : FieldDefinition → Text
full_name options = options.comp ++ (45 ∷ options.name)

abbrev pub unless_false : Option Bool → Bool
unless_false none = true
unless_false (some b) = b

-- `addField`'s entries in the component's discovery record: "state_topic", "command_topic", and
-- "$this/" and "/set" around the name.
abbrev pub topic_prefix : FieldDefinition → Text
topic_prefix options = if is_empty options.name then [] else options.name ++ (95 ∷ [])

abbrev state_topic_text : Text
state_topic_text = 115 ∷ 116 ∷ 97 ∷ 116 ∷ 101 ∷ 95 ∷ 116 ∷ 111 ∷ 112 ∷ 105 ∷ 99 ∷ []

abbrev command_topic_text : Text
command_topic_text = 99 ∷ 111 ∷ 109 ∷ 109 ∷ 97 ∷ 110 ∷ 100 ∷ 95 ∷ 116 ∷ 111 ∷ 112 ∷ 105 ∷ 99 ∷ []

abbrev this_text : Text
this_text = 36 ∷ 116 ∷ 104 ∷ 105 ∷ 115 ∷ 47 ∷ []

abbrev text_or : Option Text → Text → Text
text_or none default = default
text_or (some text) default = text

pub discovery : FieldDefinition → List (Text × Text) → List (Text × Text)
discovery options target =
    let topic = this_text ++ full_name options in
    let readable =
      if unless_false options.readable
      then put (topic_prefix options ++ text_or options.state_topic state_topic_text) topic target
      else target in
    if unless_false options.writable
    then put (topic_prefix options ++ command_topic_text) (topic ++ (47 ∷ 115 ∷ 101 ∷ 116 ∷ []))
        readable
    else readable

abbrev pub definitions_of : Option (List FieldDefinition) → List FieldDefinition
definitions_of none = []
definitions_of (some defs) = defs

-- `fields_by_id[id] ??= []` and the push, for an id that is there and is not 0.
abbrev pub register :
    Option ℕ → FieldDefinition → List (ℕ × List FieldDefinition) → List (ℕ × List FieldDefinition)
register none options fields = fields
register (some zero) options fields = fields
register (some (suc i)) options fields =
    write (suc i) (definitions_of (read (suc i) fields) ++ (options ∷ [])) fields

-- `addField`, with the discovery record of the field's component.
unfoldable pub add_field :
    List (Text × Text) → FieldDefinition → Option Bool → Device → Device × List (Text × Text)
add_field target options autoreg device = (
  record device {
    fields_by_id = register options.id options device.fields_by_id;
    fields_by_ha = put (full_name options) options device.fields_by_ha;
  },
  (if unless_false autoreg then discovery options target else target),
)

-- `send`: the frame around a payload. The header has five numbers.
unfoldable pub send_payload : List ℕ → List ℕ → Device → Device
send_payload header tlv_array device =
    let buf =
      0x04
      ∷ 0x00
      ∷ 0x00
      ∷ 0x00
      ∷ 0x65
      ∷ get_or header 2 0
      ∷ get_or header 3 0
      ∷ get_or header 4 0
      ∷ length tlv_array
      ∷ tlv_array in
    let result = crc16 buf in
    emit
      (packet (
        buffer_from (
          get_or header 0 0 ∷ get_or header 1 0 ∷ (buf ++ ((result / 256) ∷ (result % 256) ∷ [])))))
      device

unfoldable pub send : List ℕ → List Tlv → Device → Device
send header tlv device = send_payload header (Tlv.build tlv) device

-- `sendPrivCommand`.
pub send_priv_command : ℕ → ℕ → List ℕ → Device → Device
send_priv_command cmd cmd_sub bytes device =
    let cmd_data_len = length bytes + 1 in
    let header = buffer_from (
      0x00
      ∷ 0xff
      ∷ 0x04
      ∷ 0x00
      ∷ 0x00
      ∷ 0x00
      ∷ 0x65
      ∷ 0xfd
      ∷ cmd_sub
      ∷ (cmd_data_len / 256)
      ∷ (cmd_data_len % 256)
      ∷ cmd
      ∷ []) in
    let buf = header ++ bytes in
    let crc = crc16 (drop 2 buf) in
    emit (packet (buf ++ buffer_from ((crc / 256) ∷ (crc % 256) ∷ []))) device
