-- ===== src/Router/Reconciler/Tests.antt =====
-- A cycle over an entry that is adopted and one that is restored.
use rethink.Common.{◌≡◌, refl, Bool, true, false, not, Option, none, some, [], ◌∷◌, if◌then◌else◌}
use rethink.Mqtt.Topic.{Text, text_eq, is_empty}
use rethink.Router.Store.Operations.{set_dnat_desired}
use rethink.Router.Store.{
  commit, find_entry, RouterDeviceEntry, RouterConfig, RouterConfigStore, TextTools,
}
use rethink.Router.Reconciler.{
  DnatState, dnat_on, dnat_off, new_cycle, reconcile_with, adopt_each, restore_each, is_forwarded,
}

abbrev tools : TextTools
tools = record {
  trim = λ text. text;
  valid_ipv4 = λ text. not (is_empty text);
  recoded = λ text. text;
}

abbrev entry_at : Text → Option Bool → RouterDeviceEntry
entry_at ip desired = record {
  entry_id = ip;
  ip = ip;
  device_id = none;
  auto_link = none;
  detected_name = none;
  custom_name = none;
  platform = none;
  mode = none;
  dnat_desired = desired;
}

abbrev store : RouterConfigStore
store =
    let config : RouterConfig = record {
      router = record {
        host = b'r' ∷ [];
        port = 22;
        username = b'u' ∷ [];
        password = b'p' ∷ [];
        rethink_ip = b's' ∷ [];
        host_key_fingerprint = none;
      };
      devices = entry_at (b'1' ∷ []) none ∷ entry_at (b'2' ∷ []) (some true) ∷ [];
    } in
    record { config = config; persisted = config }

-- The first is in place, the second is not.
abbrev states : Text → Option DnatState
states id = if text_eq id (b'1' ∷ []) then some dnat_on else some dnat_off

restored_test :
    (reconcile_with
      (λ id. false)
      states
      (λ entry. true)
      true
      store.config.devices
      (new_cycle store)).0.restored
    ≡ (b'2' ∷ []) ∷ []
unfolding reconcile_with adopt_each restore_each is_forwarded commit set_dnat_desired find_entry
restored_test = refl
