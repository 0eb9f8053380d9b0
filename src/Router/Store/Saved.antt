-- ===== src/Router/Store/Saved.antt =====
-- The settings in memory against those in the file.
use mathlib.Core.Path.{subst}
use rethink.Common.{
  ◌≡◌, refl, sym, ap, ◌∙◌, Bool, true, false, not, ◌||◌, Option, none, some, List, [], ◌∷◌, ◌++◌,
  arith, if◌then◌else◌, split_if, split_option,
}
use rethink.Mqtt.Topic.{Text, text_eq, is_empty}
use rethink.Mqtt.Topic.Matching.{text_eq→eq}
use rethink.Thinq2.Messages.{Json, get, object_record, text_of}
use rethink.Router.Store.{
  EntryPlatform, RouterDeviceEntry, RouterConfig, RouterConfigStore, Change, commit, find_entry,
  some_entry, has_device_id, has_ip, is_given, given_or, TextTools, RouterInput, port_or,
  valid_port, refused, saving, returning,
}
use rethink.Router.Store.Operations.{
  bad_mode, DeviceInput, with_entry_id, check_ip, add_device, update_found, update_device,
  delete_device, link_device, unlink_device, new_platform, same_text, named_entry, is_renamed,
  may_not_link, link_found, link_by_ip, same_flag, set_dnat_desired, StoreOp, add_op, update_op,
  delete_op, unlink_op, link_op, link_ip_op, desired_op, router_op, store_step, recover_op,
  refresh_op, refresh_detected_name,
}
use rethink.Router.Store.Settings.{
  PublicRouter, is_router_ip, next_router, bad_fingerprint, accept_router, update_router,
  recover_host_key_fingerprint, is_recovery, fingerprint_text,
}
use rethink.Router.Store.Distinct.{IsFound, find_entry-IsFound}

-- A change that is not saved leaves the configuration that it found.
abbrev IsPlain : {A : Type 0} → RouterConfig → Change A → Type 0
IsPlain config (refused error) = Unit
IsPlain config (saving next a) = Unit
IsPlain config (returning next a) = next ≡ config

same_text→eq : (a b : Option Text) → same_text a b ≡ true → a ≡ b
same_text→eq none none h = refl
same_text→eq (some s) (some t) h = ap some (text_eq→eq s t h)
same_text→eq none (some t) h = cc
same_text→eq (some s) none h = cc

-- An entry that is not renamed is the entry that was.
named_entry_same :
    (device_id : Text) (name : Option Text) (entry : RouterDeviceEntry)
    → is_renamed device_id name entry ≡ false
    → named_entry device_id name entry ≡ entry
named_entry_same device_id name entry still =
    let own : entry.device_id ≡ some device_id =
      same_text→eq entry.device_id (some device_id) (ground arith) in
    let base : record entry { device_id = some device_id } ≡ entry =
      ap (λ id. record entry { device_id = id }) (sym own) in
    split_if (λ (r : RouterDeviceEntry). r ≡ entry) (is_given name) _ _
      (λ e.
        let called : entry.detected_name ≡ name =
          same_text→eq entry.detected_name name (ground arith) in
        ap (λ text. record entry { device_id = some device_id; detected_name = text }) (sym called)
        ∙ base)
      (λ e. base)

module _ (config : RouterConfig) where
  check_ip-IsPlain :
      {A : Type 0} (tools : TextTools) (others : List RouterDeviceEntry) (ip : Text)
      (next : Change A)
      → IsPlain config next
      → IsPlain config (check_ip tools config others ip next)
  check_ip-IsPlain tools others ip next h =
      split_if (IsPlain config) (not (tools.valid_ipv4 ip)) _ _ (λ e. tt)
        (λ e.
          split_if (IsPlain config)
            (text_eq ip config.router.host || text_eq ip config.router.rethink_ip) _ _ (λ f. tt)
            (λ f. split_if (IsPlain config) (some_entry (has_ip ip) others) _ _ (λ g. tt) (λ g. h)))

  add_device-IsPlain :
      (tools : TextTools) (id ip : Text) (mode : Option Text)
      → IsPlain config (add_device tools id ip mode config)
  unfolding add_device
  add_device-IsPlain tools id ip mode =
      split_if (IsPlain config) (bad_mode mode) _ _ (λ e. tt)
        (λ e. check_ip-IsPlain tools config.devices (tools.trim ip) _ tt)

  update_device-IsPlain :
      (tools : TextTools) (id : Text) (input : DeviceInput)
      → IsPlain config (update_device tools id input config)
  unfolding update_device update_found
  update_device-IsPlain tools id input =
      split_option (IsPlain config) (find_entry (with_entry_id id) config.devices) _ _ (λ e. tt)
        (λ found e.
          split_if (IsPlain config) (bad_mode input.mode) _ _ (λ f. tt)
            (λ f.
              split_option (IsPlain config) input.ip _ _ (λ g. tt)
                (λ ip g.
                  split_if (IsPlain config) (text_eq (tools.trim ip) found.1.ip) _ _ (λ k. tt)
                    (λ k. check_ip-IsPlain tools (found.0 ++ found.2) (tools.trim ip) _ tt))))

  delete_device-IsPlain : (id : Text) → IsPlain config (delete_device id config)
  unfolding delete_device
  delete_device-IsPlain id =
      split_option (IsPlain config) (find_entry (with_entry_id id) config.devices) _ _ (λ e. tt)
        (λ found e. tt)

  unlink_device-IsPlain : (id : Text) → IsPlain config (unlink_device id config)
  unfolding unlink_device
  unlink_device-IsPlain id =
      split_option (IsPlain config) (find_entry (with_entry_id id) config.devices) _ _ (λ e. tt)
        (λ found e. tt)

  link_device-IsPlain :
      (id device_id : Text) (name : Option Text) (platform : Option EntryPlatform)
      → IsPlain config (link_device id device_id name platform config)
  unfolding link_device
  link_device-IsPlain id device_id name platform =
      split_option (IsPlain config) (find_entry (with_entry_id id) config.devices) _ _ (λ e. tt)
        (λ found e.
          split_if (IsPlain config) (some_entry (has_device_id device_id) (found.0 ++ found.2)) _ _
            (λ f. tt) (λ f. tt))

  set_dnat_desired-IsPlain :
      (id : Text) (desired : Bool) → IsPlain config (set_dnat_desired id desired config)
  unfolding set_dnat_desired
  set_dnat_desired-IsPlain id desired =
      split_option (IsPlain config) (find_entry (with_entry_id id) config.devices) _ _ (λ e. tt)
        (λ found e.
          split_if (IsPlain config) (same_flag found.1.dnat_desired desired) _ _ (λ f. refl)
            (λ f. tt))

  refresh_detected_name-IsPlain :
      (device_id : Text) (name : Option Text)
      → IsPlain config (refresh_detected_name device_id name config)
  unfolding refresh_detected_name
  refresh_detected_name-IsPlain device_id name =
      split_if (IsPlain config) (is_given name) _ _
        (λ e.
          split_option (IsPlain config) (find_entry (has_device_id device_id) config.devices) _ _
            (λ f. refl)
            (λ found f.
              split_if (IsPlain config) (same_text found.1.detected_name name) _ _ (λ g. refl)
                (λ g. tt)))
        (λ e. refl)

  link_by_ip-IsPlain :
      (ip : Option Text) (device_id : Text) (name : Option Text) (platform : Option EntryPlatform)
      → IsPlain config (link_by_ip ip device_id name platform config)
  unfolding link_by_ip link_found
  link_by_ip-IsPlain ip device_id name platform =
      split_if (IsPlain config) (is_given ip) _ _
        (λ e.
          split_option (IsPlain config) (find_entry (has_ip (given_or ip [])) config.devices) _ _
            (λ f. refl)
            (λ found f.
              let (before, entry, after) = found in
              let (same, passed) =
                subst (IsFound (has_ip (given_or ip [])) config.devices) f
                  (find_entry-IsFound (has_ip (given_or ip [])) config.devices) in
              split_if (IsPlain config) (may_not_link device_id (before ++ after) entry) _ _
                (λ g. refl)
                (λ g.
                  split_if (IsPlain config) (new_platform platform entry.platform) _ _ (λ k. tt)
                    (λ k.
                      split_if (IsPlain config) (is_renamed device_id name entry) _ _ (λ l. tt)
                        (λ l.
                          ap (λ next. record config { devices = before ++ (next ∷ after) })
                            (named_entry_same device_id name entry l)
                          ∙ ap (λ devices. record config { devices = devices }) (sym same))))))
        (λ e. refl)

  update_router-IsPlain :
      (tools : TextTools) (input : RouterInput) → IsPlain config (update_router tools input config)
  unfolding update_router accept_router
  update_router-IsPlain tools input =
      let P = IsPlain {A = PublicRouter} config in
      split_if P (not (tools.valid_ipv4 (tools.trim (given_or input.host config.router.host)))) _ _
        (λ e. tt)
        (λ e.
          split_if P
            (not
              (tools.valid_ipv4 (tools.trim (given_or input.rethink_ip config.router.rethink_ip))))
            _ _ (λ f. tt)
            (λ f.
              split_option P (valid_port (port_or input.port config.router.port)) _ _ (λ g. tt)
                (λ port g.
                  let next = next_router tools input config.router port in
                  split_if P (is_empty next.username) _ _ (λ k. tt)
                    (λ k.
                      split_if P (is_empty next.password) _ _ (λ l. tt)
                        (λ l.
                          split_if P (bad_fingerprint tools next.host_key_fingerprint) _ _ (λ m. tt)
                            (λ m.
                              split_if P (some_entry (is_router_ip next) config.devices) _ _
                                (λ n. tt) (λ n. tt)))))))

recover_host_key_fingerprint-IsPlain :
    (config : RouterConfig) (tools : TextTools) (input : Json)
    → IsPlain config (recover_host_key_fingerprint tools input config)
unfolding recover_host_key_fingerprint
recover_host_key_fingerprint-IsPlain config tools input =
    let P = IsPlain {A = Bool} config in
    split_if P (is_given config.router.host_key_fingerprint) _ _ (λ e. refl)
      (λ e.
        split_option P (object_record (some input)) _ _ (λ f. refl)
          (λ fields f.
            split_option P (text_of (get fingerprint_text fields)) _ _ (λ g. refl)
              (λ fingerprint g.
                split_if P (is_recovery tools fingerprint fields config.router) _ _ (λ k. tt)
                  (λ k. refl))))

-- What is in memory is what is in the file, and where the file was not written nothing changed.
abbrev pub IsSaved : Bool → RouterConfigStore → RouterConfigStore → Type 0
IsSaved is_written before after =
    (after.config ≡ after.persisted) × (after ≡ (if is_written then after else before))

commit-IsSaved :
    {A : Type 0} (is_written : Bool) (store : RouterConfigStore) (change : Change A)
    → store.config ≡ store.persisted
    → IsPlain store.config change
    → IsSaved is_written store (commit is_written store change).0
unfolding commit
commit-IsSaved true store (refused error) same plain = (same, refl)
commit-IsSaved false store (refused error) same plain = (same, refl)
commit-IsSaved true store (returning next a) same plain = (plain ∙ same, refl)
commit-IsSaved false store (returning next a) same plain =
    (plain ∙ same, ap (λ config. record store { config = config }) plain)
commit-IsSaved true store (saving next a) same plain = (refl, refl)
commit-IsSaved false store (saving next a) same plain =
    (refl, ap (λ config. record store { config = config }) (sym same))

-- After any operation of the store, if what was in memory was what was in the file, it is so again;
-- and where the file cannot be written, memory and file are as they were.
pub store_step-IsSaved :
    (tools : TextTools) (is_written : Bool) (op : StoreOp) (store : RouterConfigStore)
    → store.config ≡ store.persisted
    → IsSaved is_written store (store_step tools is_written op store)
unfolding store_step
store_step-IsSaved tools w (add_op id ip mode) store h =
    commit-IsSaved w store _ h (add_device-IsPlain store.config tools id ip mode)
store_step-IsSaved tools w (update_op id input) store h =
    commit-IsSaved w store _ h (update_device-IsPlain store.config tools id input)
store_step-IsSaved tools w (delete_op id) store h =
    commit-IsSaved w store _ h (delete_device-IsPlain store.config id)
store_step-IsSaved tools w (unlink_op id) store h =
    commit-IsSaved w store _ h (unlink_device-IsPlain store.config id)
store_step-IsSaved tools w (link_op id device_id name platform) store h =
    commit-IsSaved w store _ h (link_device-IsPlain store.config id device_id name platform)
store_step-IsSaved tools w (link_ip_op ip device_id name platform) store h =
    commit-IsSaved w store _ h (link_by_ip-IsPlain store.config ip device_id name platform)
store_step-IsSaved tools w (desired_op id desired) store h =
    commit-IsSaved w store _ h (set_dnat_desired-IsPlain store.config id desired)
store_step-IsSaved tools w (refresh_op device_id name) store h =
    commit-IsSaved w store _ h (refresh_detected_name-IsPlain store.config device_id name)
store_step-IsSaved tools w (router_op input) store h =
    commit-IsSaved w store _ h (update_router-IsPlain store.config tools input)
store_step-IsSaved tools w (recover_op input) store h =
    commit-IsSaved w store _ h (recover_host_key_fingerprint-IsPlain store.config tools input)
