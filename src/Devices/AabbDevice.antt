-- ===== src/Devices/AabbDevice.antt =====
-- The base of the handlers whose appliances speak AA...BB frames: cloud/devices/aabb_device.ts.
pub mod Frames
pub mod Cache
mod Tests
use rethink.Common.{
  ℕ, zero, suc, ◌+◌, ◌-◌, ◌*◌, ◌/◌, ◌%◌, ◌^◌, ◌≤◌, ◌<◌, min, bit_xor, ◌≡◌, refl, sym, ap, ◌∙◌,
  ◌≡⟨◌⟩◌, ◌∎, ◌≢◌, ◌↔◌, ◌⊎◌, inl, inr, Bool, true, false, not, ◌&&◌, ◌||◌, Option, none, some, List,
  [], ◌∷◌, ◌++◌, map, append-nil, append_assoc, arith, ltb, leb, ◌==◌, ==_iff, if◌then◌else◌,
  Bool-cases, Option-cases, split_if, split_option, all_below, all_below_sound, length, get_elem?,
  get_or, take, drop, concat, length-append, length-drop, length-take, take-append_le,
  drop-append_le, take_length, drop_length, All, All-append, All-drop, All-take, drop-get_elem?,
  get_elem?-eq-none, get_elem?_past, drop_past, bit_xor-zero, bit_xor_self, bit_xor-lt,
  bit_xor_bytes, bit_xor_words, bit_xor_comm, bit_xor_cancel, zero-bit_xor,
}
use rethink.Mqtt.Topic.{Text, text_eq}
use rethink.Mqtt.Table.{lookup, put}
use rethink.Wire.Packet.{buffer_from, subarray, sum_from}
use rethink.Devices.TlvDevice.{Value, string_value, number_value}

-- What leaves the device, the latest first.
pub data AabbOutput : Type 0 where
  frame : List ℕ → AabbOutput
  published : Text → Value → AabbOutput

pub record AabbDevice : Type 0 where
  pub publish_cache : List (Text × Value)
  pub out : List AabbOutput

-- `buf[i] = b`; a write past the end of a buffer is lost.
unfoldable pub set_byte : ℕ → ℕ → List ℕ → List ℕ
set_byte i b [] = []
set_byte zero b (c ∷ buf) = b ∷ buf
set_byte (suc i) b (c ∷ buf) = c ∷ set_byte i b buf

unfoldable pub frame_of : List ℕ → List ℕ
frame_of inner =
    let buf = buffer_from (0xaa ∷ (length inner + 4) ∷ []) ++ (inner ++ (0x00 ∷ 0x00 ∷ [])) in
    let sum = sum_from 0 buf in
    set_byte (length buf - 1) 0xbb (set_byte (length buf - 2) (bit_xor (sum % 256) 0x55) buf)

-- `send`
unfoldable pub send_frame : List ℕ → AabbDevice → AabbDevice
send_frame inner device = record device { out = frame (frame_of inner) ∷ device.out }

-- `processData`, with the subclass's `processAABB`.
unfoldable pub process_frame : (List ℕ → AabbDevice → AabbDevice) → List ℕ → AabbDevice → AabbDevice
process_frame process_aabb buf device =
    if leb 4 (length buf) && get_or buf 0 0 == 0xaa && get_or buf (length buf - 1) 0 == 0xbb
    then process_aabb (subarray buf 2 (length buf - 2)) device
    else device

-- `===` on `string | number`.
abbrev pub same_value : Value → Value → Bool
same_value (string_value s) (string_value t) = text_eq s t
same_value (number_value m) (number_value n) = m == n
same_value (string_value s) (number_value n) = false
same_value (number_value m) (string_value t) = false

abbrev pub is_cached : Option Value → Value → Bool
is_cached none value = false
is_cached (some old) value = same_value old value

-- `publishProperty`
unfoldable pub publish_property : Text → Value → AabbDevice → AabbDevice
publish_property prop value device =
    if is_cached (lookup prop device.publish_cache) value then device else record device {
      publish_cache = put prop value device.publish_cache;
      out = published prop value ∷ device.out;
    }

-- Properties reported one after another.
unfoldable pub publish_each : List (Text × Value) → AabbDevice → AabbDevice
publish_each [] device = device
publish_each ((prop, value) ∷ reports) device =
    publish_each reports (publish_property prop value device)
