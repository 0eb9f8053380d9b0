-- ===== src/Router/Store/Tests.antt =====
-- A list of two devices, and operations on it.
use rethink.Common.{refl, Bool, true, false, not, Option, none, some, List, [], ◌∷◌}
use rethink.Mqtt.Topic.{Text, is_empty}
use rethink.Router.Store.{RouterDeviceEntry, RouterConfig, RouterConfigStore, TextTools, thinq2}
use rethink.Router.Store.Operations.{StoreOp, add_op, link_op, link_ip_op, store_step, store_run}
use rethink.Router.Store.Kept.{IsStored, store_run-IsStored}
use rethink.Router.Store.Saved.{IsSaved, store_step-IsSaved}

abbrev tools : TextTools
tools = record {
  trim = λ text. text;
  valid_ipv4 = λ text. not (is_empty text);
  recoded = λ text. text;
}

abbrev entry_at : Text → Option Text → RouterDeviceEntry
entry_at ip device_id = record {
  entry_id = ip;
  ip = ip;
  device_id = device_id;
  auto_link = none;
  detected_name = none;
  custom_name = none;
  platform = none;
  mode = none;
  dnat_desired = none;
}

abbrev two_devices : RouterConfig
two_devices = record {
  router = record {
    host = b'r' ∷ [];
    port = 22;
    username = b'u' ∷ [];
    password = b'p' ∷ [];
    rethink_ip = b's' ∷ [];
    host_key_fingerprint = none;
  };
  devices = entry_at (b'1' ∷ []) (some (b'x' ∷ [])) ∷ entry_at (b'2' ∷ []) none ∷ [];
}

abbrev store : RouterConfigStore
store = record { config = two_devices; persisted = two_devices }

abbrev ops : List (Bool × StoreOp)
ops =
    (true, add_op (b'3' ∷ []) (b'3' ∷ []) none)
    ∷ (false, link_op (b'2' ∷ []) (b'y' ∷ []) none none)
    ∷ (true, link_ip_op (some (b'2' ∷ [])) (b'x' ∷ []) none (some thinq2))
    ∷ []

store-IsStored : IsStored tools store
store-IsStored = (
  ((refl, (refl, tt)), ((refl, refl), ((refl, refl), tt))),
  ((refl, (refl, tt)), ((refl, refl), ((refl, refl), tt))),
)

store_run-IsStored_example : IsStored tools (store_run tools ops store)
store_run-IsStored_example = store_run-IsStored tools ops store store-IsStored

store_step-IsSaved_example :
    IsSaved false store (store_step tools false (link_op (b'2' ∷ []) (b'y' ∷ []) none none) store)
store_step-IsSaved_example =
    store_step-IsSaved tools false (link_op (b'2' ∷ []) (b'y' ∷ []) none none) store refl
