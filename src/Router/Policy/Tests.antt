-- ===== src/Router/Policy/Tests.antt =====
-- An appliance that is linked, and one that is not.
use rethink.Common.{◌≡◌, refl, true, false, not, ◌&&◌, none, some, [], ◌∷◌}
use rethink.Router.Store.{local, find_entry, RouterDeviceEntry, RouterConfig}
use rethink.Router.Reconciler.{dnat_off, is_forwarded, is_desired, is_on, is_wanted}
use rethink.Router.Policy.{policy_entry, policy_mode, forwarding}
use rethink.Router.Policy.Agreement.{forwarding-is_wanted}

abbrev washer : RouterDeviceEntry
washer = record {
  entry_id = b'e' ∷ [];
  ip = b'1' ∷ [];
  device_id = some (b'x' ∷ []);
  auto_link = none;
  detected_name = none;
  custom_name = none;
  platform = none;
  mode = none;
  dnat_desired = some true;
}

abbrev config : RouterConfig
config = record {
  router = record {
    host = [];
    port = 22;
    username = [];
    password = [];
    rethink_ip = [];
    host_key_fingerprint = none;
  };
  devices = washer ∷ [];
}

forwarding-is_wanted_example :
    (policy_entry (b'x' ∷ []) none config ≡ some washer)
    × (forwarding (λ id. false) (b'x' ∷ []) none config
        ≡ (is_forwarded washer && is_desired washer.dnat_desired && not false))
    × (is_wanted (λ id. false) (λ id. some dnat_off) washer
        ≡ (forwarding (λ id. false) (b'x' ∷ []) none config && not (is_on (some dnat_off))))
forwarding-is_wanted_example =
    forwarding-is_wanted (λ id. false) (λ id. some dnat_off) (b'x' ∷ []) none config [] washer []
      (refl, tt) refl refl

stranger_is_local : policy_mode (b'y' ∷ []) (some (b'1' ∷ [])) config ≡ local
unfolding policy_mode policy_entry find_entry
stranger_is_local = refl
