-- ===== src/Router/Policy.antt =====
-- Which appliances the bridge forwards to the cloud: `BridgePolicy` of bridge/policy.ts.
pub mod Agreement
mod Tests
use rethink.Common.{
  ℕ, zero, suc, ◌+◌, ◌-◌, ◌*◌, ◌/◌, ◌%◌, ◌^◌, ◌≤◌, ◌<◌, min, bit_xor, ◌≡◌, refl, sym, ap, ◌∙◌,
  ◌≡⟨◌⟩◌, ◌∎, ◌≢◌, ◌↔◌, ◌⊎◌, inl, inr, Bool, true, false, not, ◌&&◌, ◌||◌, Option, none, some, List,
  [], ◌∷◌, ◌++◌, map, append-nil, append_assoc, arith, ltb, leb, ◌==◌, ==_iff, if◌then◌else◌,
  Bool-cases, Option-cases, split_if, split_option, all_below, all_below_sound, length, get_elem?,
  get_or, take, drop, concat, length-append, length-drop, length-take, take-append_le,
  drop-append_le, take_length, drop_length, All, All-append, All-drop, All-take, drop-get_elem?,
  get_elem?-eq-none, get_elem?_past, drop_past, bit_xor-zero, bit_xor_self, bit_xor-lt,
  bit_xor_bytes, bit_xor_words, bit_xor_comm, bit_xor_cancel, zero-bit_xor,
}
use rethink.Mqtt.Topic.{Text, text_eq}
use rethink.Router.Store.{
  Mode, dnat, local, RouterDeviceEntry, RouterConfig, find_entry, has_device_id, is_given,
}
use rethink.Router.Store.Operations.{is_switched_off}
use rethink.Router.Reconciler.{is_forwarded, is_desired}

-- An entry without an appliance, that may be linked by its address, at the address of a device.
abbrev pub from_address : Option Text → RouterDeviceEntry → Bool
from_address source_ip entry =
    not (is_switched_off entry.auto_link)
    && not (is_given entry.device_id)
    && elim source_ip [ none ↦ false | some ip ↦ text_eq entry.ip ip ]

-- `entry`; a device that is not given, or has no address, has `none`.
unfoldable pub policy_entry : Text → Option Text → RouterConfig → Option RouterDeviceEntry
policy_entry id source_ip config = elim (find_entry (has_device_id id) config.devices) [
  | some found ↦ some found.1
  | none ↦ elim (find_entry (from_address source_ip) config.devices) [
    | some found ↦ some found.1
    | none ↦ none
  ]
]

-- `mode`
unfoldable pub policy_mode : Text → Option Text → RouterConfig → Mode
policy_mode id source_ip config = elim (policy_entry id source_ip config) [
  | none ↦ local
  | some entry ↦ if is_forwarded entry then dnat else local
]

-- `forwarding`
unfoldable pub forwarding : (Text → Bool) → Text → Option Text → RouterConfig → Bool
forwarding released id source_ip config = elim (policy_entry id source_ip config) [
  | none ↦ false
  | some entry ↦
      is_forwarded entry && is_desired entry.dnat_desired && not (released entry.entry_id)
]
