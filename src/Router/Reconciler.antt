-- ===== src/Router/Reconciler.antt =====
-- Putting the router's rules back: router/dnat-reconciler.ts.
pub mod Selection
pub mod Adopted
pub mod Restored
mod Tests
use rethink.Common.{
  ℕ, zero, suc, ◌+◌, ◌-◌, ◌*◌, ◌/◌, ◌%◌, ◌^◌, ◌≤◌, ◌<◌, min, bit_xor, ◌≡◌, refl, sym, ap, ◌∙◌,
  ◌≡⟨◌⟩◌, ◌∎, ◌≢◌, ◌↔◌, ◌⊎◌, inl, inr, Bool, true, false, not, ◌&&◌, ◌||◌, Option, none, some, List,
  [], ◌∷◌, ◌++◌, map, append-nil, append_assoc, arith, ltb, leb, ◌==◌, ==_iff, if◌then◌else◌,
  Bool-cases, Option-cases, split_if, split_option, all_below, all_below_sound, length, get_elem?,
  get_or, take, drop, concat, length-append, length-drop, length-take, take-append_le,
  drop-append_le, take_length, drop_length, All, All-append, All-drop, All-take, drop-get_elem?,
  get_elem?-eq-none, get_elem?_past, drop_past, bit_xor-zero, bit_xor_self, bit_xor-lt,
  bit_xor_bytes, bit_xor_words, bit_xor_comm, bit_xor_cancel, zero-bit_xor,
}
use rethink.Mqtt.Topic.{Text, text_eq}
use rethink.Router.Store.{
  Mode, dnat, local, RouterDeviceEntry, RouterConfig, RouterConfigStore, thrown, value, Result,
  commit, TextTools,
}
use rethink.Router.Store.Settings.{configured}
use rethink.Router.Store.Operations.{set_dnat_desired}

-- `DNATState`
pub data DnatState : Type 0 where
  dnat_on dnat_off dnat_partial dnat_unknown : DnatState

-- `DNATActuator`: what the router says of each entry, by its id, unless it cannot be reached; and
-- whether an entry's rules could be put in place.
pub record DnatActuator : Type 0 where
  pub status : List RouterDeviceEntry → Option (Text → Option DnatState)
  pub enable : RouterDeviceEntry → Bool

-- `entryMode(entry) === 'dnat'` (bridge/policy.ts)
unfoldable pub is_forwarded : RouterDeviceEntry → Bool
is_forwarded entry = elim entry.mode [
  | none ↦ true
  | some mode ↦ elim mode [ dnat ↦ true | local ↦ false ]
]

abbrev pub is_on : Option DnatState → Bool
is_on (some dnat_on) = true
is_on (some dnat_off) = false
is_on (some dnat_partial) = false
is_on (some dnat_unknown) = false
is_on none = false

abbrev pub is_undecided : Option Bool → Bool
is_undecided none = true
is_undecided (some desired) = false

abbrev pub is_desired : Option Bool → Bool
is_desired none = false
is_desired (some desired) = desired

-- The cycle so far: the store, what was adopted and restored, and the entries that `enable` was
-- called for.
pub record Cycle : Type 0 where
  pub store : RouterConfigStore
  pub adopted : List Text
  pub restored : List Text
  pub enabled : List RouterDeviceEntry

abbrev pub filter_entries :
    (RouterDeviceEntry → Bool) → List RouterDeviceEntry → List RouterDeviceEntry
filter_entries test [] = []
filter_entries test (entry ∷ entries) =
    let rest = filter_entries test entries in if test entry then entry ∷ rest else rest

abbrev pub is_adoptable : (Text → Option DnatState) → RouterDeviceEntry → Bool
is_adoptable states entry = is_undecided entry.dnat_desired && is_on (states entry.entry_id)

-- The first loop; the Boolean is whether it came to its end. A write that fails ends the cycle.
unfoldable pub adopt_each :
    (Text → Option DnatState) → Bool → List RouterDeviceEntry → Cycle → Cycle × Bool
adopt_each states is_written [] cycle = (cycle, true)
adopt_each states is_written (entry ∷ entries) cycle =
    let (store, result) =
      commit is_written cycle.store (set_dnat_desired entry.entry_id true cycle.store.config) in
    elim (is_adoptable states entry) [
      | false ↦ adopt_each states is_written entries cycle
      | true ↦ elim result [
        | thrown error ↦ (record cycle { store = store }, false)
        | value updated ↦
            adopt_each states is_written entries
              (record cycle { store = store; adopted = cycle.adopted ++ (entry.entry_id ∷ []) })
      ]
    ]

abbrev pub is_wanted : (Text → Bool) → (Text → Option DnatState) → RouterDeviceEntry → Bool
is_wanted released states entry =
    is_desired entry.dnat_desired
    && is_forwarded entry
    && not (released entry.entry_id)
    && not (is_on (states entry.entry_id))

-- What one round of the second loop does with an entry.
abbrev pub restore_one : (RouterDeviceEntry → Bool) → RouterDeviceEntry → Cycle → Cycle
restore_one enable entry cycle = record cycle {
  restored = if enable entry then cycle.restored ++ (entry.entry_id ∷ []) else cycle.restored;
  enabled = cycle.enabled ++ (entry ∷ []);
}

unfoldable pub restore_each :
    (Text → Bool)
    → (Text → Option DnatState)
    → (RouterDeviceEntry → Bool)
    → List RouterDeviceEntry
    → Cycle
    → Cycle
restore_each released states enable [] cycle = cycle
restore_each released states enable (entry ∷ entries) cycle =
    restore_each released states enable entries
      (if is_wanted released states entry then restore_one enable entry cycle else cycle)

-- `reconcileLocked` once the router has answered.
unfoldable pub reconcile_with :
    (Text → Bool)
    → (Text → Option DnatState)
    → (RouterDeviceEntry → Bool)
    → Bool
    → List RouterDeviceEntry
    → Cycle
    → Cycle × Bool
reconcile_with released states enable is_written entries cycle =
    let (adopting, through) = adopt_each states is_written entries cycle in
    if through
    then (restore_each released states enable adopting.store.config.devices adopting, true)
    else (adopting, false)

abbrev pub to_reconcile : (Text → Bool) → RouterConfig → List RouterDeviceEntry
to_reconcile released config =
    filter_entries (λ entry. is_forwarded entry && not (released entry.entry_id)) config.devices

abbrev pub new_cycle : RouterConfigStore → Cycle
new_cycle store = record { store = store; adopted = []; restored = []; enabled = [] }

-- `reconcileLocked`
unfoldable pub reconcile_locked :
    TextTools → (Text → Bool) → DnatActuator → Bool → RouterConfigStore → Cycle
reconcile_locked tools released actuator is_written store =
    let entries = to_reconcile released store.config in
    if not (configured tools store.config.router) || length entries == 0
    then new_cycle store
    else elim (actuator.status entries) [
      | none ↦ new_cycle store
      | some states ↦
          (reconcile_with released states actuator.enable is_written entries (new_cycle store)).0
    ]
