-- ===== src/Router/Store/Kept.antt =====
-- The device list and the settings after any operations.
use rethink.Common.{
  ◌≡◌, refl, ◌∙◌, Bool, true, false, not, Option, none, some, List, [], ◌∷◌, ◌++◌, arith, split_if,
  split_option, All,
}
use rethink.Mqtt.Topic.{Text, is_empty}
use rethink.Thinq2.Messages.{Json, get, object_record, text_of}
use rethink.Router.Store.{
  RouterSshConfig, EntryPlatform, RouterDeviceEntry, RouterConfig, RouterConfigStore, Change,
  commit, some_entry, has_device_id, has_ip, is_given, given_or, TextTools, RouterInput, port_or,
  valid_port, refused, saving, returning,
}
use rethink.Router.Store.Operations.{
  with_entry_id, delete_device, with_detected, with_platform, link_device, unlink_device,
  new_platform, named_entry, is_renamed, may_not_link, link_found, link_by_ip, same_flag,
  set_dnat_desired, StoreOp, add_op, update_op, delete_op, unlink_op, link_op, link_ip_op,
  desired_op, router_op, store_step, store_run, recover_op, refresh_op, refresh_detected_name,
  same_text,
}
use rethink.Router.Store.Settings.{
  PublicRouter, is_router_ip, next_router, bad_fingerprint, accept_router, update_router,
  recover_host_key_fingerprint, is_recovery, fingerprint_text,
}
use rethink.Router.Store.Distinct.{apart}
use rethink.Router.Store.Consistent.{
  Leaves, IsPlaced, IsConsistent, IsOpen, replaced, same_place, on_found, add_device-IsConsistent,
  update_device-IsConsistent, nobody,
}

with_detected_same :
    (name : Option Text) (entry : RouterDeviceEntry)
    → ((with_detected name entry).ip ≡ entry.ip)
      × ((with_detected name entry).device_id ≡ entry.device_id)
with_detected_same name entry =
    split_if (λ (r : RouterDeviceEntry). (r.ip ≡ entry.ip) × (r.device_id ≡ entry.device_id))
      (is_given name) _ _ (λ e. (refl, refl)) (λ e. (refl, refl))

with_platform_same :
    (platform : Option EntryPlatform) (entry : RouterDeviceEntry)
    → ((with_platform platform entry).ip ≡ entry.ip)
      × ((with_platform platform entry).device_id ≡ entry.device_id)
with_platform_same none entry = (refl, refl)
with_platform_same (some platform) entry = (refl, refl)

-- An entry that keeps its address and takes an appliance that no other has.
linked_apart :
    (entry next : RouterDeviceEntry) (device_id : Text) (others : List RouterDeviceEntry)
    → apart entry others ≡ true
    → next.ip ≡ entry.ip
    → next.device_id ≡ some device_id
    → some_entry (has_device_id device_id) others ≡ false
    → apart next others ≡ true
linked_apart entry next device_id others fresh ip id free =
    let lone : some_entry (has_ip entry.ip) others ≡ false = ground arith in
    rw (ip, id, lone, free) refl

off_router :
    (next : RouterSshConfig) (entries : List RouterDeviceEntry) (P : RouterDeviceEntry → Type 0)
    → some_entry (is_router_ip next) entries ≡ false
    → All P entries
    → All (λ entry. P entry × (is_router_ip next entry ≡ false)) entries
off_router next [] P free h = tt
off_router next (entry ∷ entries) P free (p, h) =
    ((p, ground arith), off_router next entries P (ground arith) h)

map-All :
    {P Q : RouterDeviceEntry → Type 0} (entries : List RouterDeviceEntry)
    → ((entry : RouterDeviceEntry) → P entry → Q entry)
    → All P entries
    → All Q entries
map-All [] f h = tt
map-All (entry ∷ entries) f (p, h) = (f entry p, map-All entries f h)

module _ (tools : TextTools) where
  abbrev Keeps : {A : Type 0} → Change A → Type 0
  Keeps change = Leaves (IsConsistent tools) change

  delete_device-IsConsistent :
      (id : Text) (config : RouterConfig)
      → IsConsistent tools config
      → Keeps (delete_device id config)
  unfolding delete_device
  delete_device-IsConsistent id config h =
      on_found tools (with_entry_id id) config _ _ h tt
        (λ before entry after (rest, new, others, own). (rest, others))

  unlink_device-IsConsistent :
      (id : Text) (config : RouterConfig)
      → IsConsistent tools config
      → Keeps (unlink_device id config)
  unfolding unlink_device
  unlink_device-IsConsistent id config h =
      on_found tools (with_entry_id id) config _ _ h tt
        (λ before entry after (rest, new, others, own).
          replaced tools config before entry after
            (record entry {
              auto_link = some false;
              device_id = none;
              detected_name = none;
              platform = none;
            })
            (rest, new, others, own)
            (let lone : some_entry (has_ip entry.ip) (before ++ after) ≡ false = ground arith in
              rw (lone, nobody (before ++ after)) refl)
            own)

  set_dnat_desired-IsConsistent :
      (id : Text) (desired : Bool) (config : RouterConfig)
      → IsConsistent tools config
      → Keeps (set_dnat_desired id desired config)
  unfolding set_dnat_desired
  set_dnat_desired-IsConsistent id desired config h =
      on_found tools (with_entry_id id) config _ _ h tt (λ before entry after known.
        split_if (Leaves (IsConsistent tools)) (same_flag entry.dnat_desired desired) _ _ (λ e. h)
          (λ e.
            same_place tools config before entry after
              (record entry { dnat_desired = some desired }) known refl refl))

  refresh_detected_name-IsConsistent :
      (device_id : Text) (name : Option Text) (config : RouterConfig)
      → IsConsistent tools config
      → Keeps (refresh_detected_name device_id name config)
  unfolding refresh_detected_name
  refresh_detected_name-IsConsistent device_id name config h =
      split_if (Leaves (IsConsistent tools)) (is_given name) _ _
        (λ e. on_found tools (has_device_id device_id) config _ _ h h (λ before entry after known.
          split_if (Leaves (IsConsistent tools)) (same_text entry.detected_name name) _ _ (λ f. h)
            (λ f.
              same_place tools config before entry after (record entry { detected_name = name })
                known refl refl)))
        (λ e. h)

  -- An entry that was named, with or without its platform, in its place.
  linked :
      (device_id : Text) (config : RouterConfig) (before : List RouterDeviceEntry)
      (entry : RouterDeviceEntry) (after : List RouterDeviceEntry) (next : RouterDeviceEntry)
      → IsOpen tools config before entry after
      → some_entry (has_device_id device_id) (before ++ after) ≡ false
      → next.ip ≡ entry.ip
      → next.device_id ≡ some device_id
      → IsConsistent tools (record config { devices = before ++ (next ∷ after) })
  linked device_id config before entry after next (rest, new, others, (valid, off)) free ip id =
      replaced tools config before entry after next (rest, new, others, (valid, off))
        (linked_apart entry next device_id (before ++ after) new ip id free)
        (rw ip valid, rw ip off)

  link_device-IsConsistent :
      (id device_id : Text) (name : Option Text) (platform : Option EntryPlatform)
      (config : RouterConfig)
      → IsConsistent tools config
      → Keeps (link_device id device_id name platform config)
  unfolding link_device
  link_device-IsConsistent id device_id name platform config h =
      on_found tools (with_entry_id id) config _ _ h tt (λ before entry after known.
        split_if (Leaves (IsConsistent tools))
          (some_entry (has_device_id device_id) (before ++ after)) _ _ (λ e. tt)
          (λ e.
            let base = record entry { device_id = some device_id; auto_link = none } in
            let (ip, own) = with_detected_same name base in
            let (ip_next, own_next) = with_platform_same platform (with_detected name base) in
            linked device_id config before entry after
              (with_platform platform (with_detected name base)) known e (ip_next ∙ ip)
              (own_next ∙ own)))

  link_by_ip-IsConsistent :
      (ip : Option Text) (device_id : Text) (name : Option Text) (platform : Option EntryPlatform)
      (config : RouterConfig)
      → IsConsistent tools config
      → Keeps (link_by_ip ip device_id name platform config)
  unfolding link_by_ip link_found
  link_by_ip-IsConsistent ip device_id name platform config h =
      split_if (Leaves (IsConsistent tools)) (is_given ip) _ _
        (λ e. on_found tools (has_ip (given_or ip [])) config _ _ h h (λ before entry after known.
          let named = named_entry device_id name entry in
          let (same, own) = with_detected_same name (record entry { device_id = some device_id }) in
          let (same_next, own_next) = with_platform_same platform named in
          split_if (Leaves (IsConsistent tools)) (may_not_link device_id (before ++ after) entry) _
            _ (λ f. h)
            (λ f.
              let free : some_entry (has_device_id device_id) (before ++ after) ≡ false =
                ground arith in
              let put_back = linked device_id config before entry after named known free same own in
              split_if (Leaves (IsConsistent tools)) (new_platform platform entry.platform) _ _
                (λ g.
                  linked device_id config before entry after (with_platform platform named) known
                    free (same_next ∙ same) (own_next ∙ own))
                (λ g.
                  split_if (Leaves (IsConsistent tools)) (is_renamed device_id name entry) _ _
                    (λ k. put_back) (λ k. put_back)))))
        (λ e. h)

  update_router-IsConsistent :
      (input : RouterInput) (config : RouterConfig)
      → IsConsistent tools config
      → Keeps (update_router tools input config)
  unfolding update_router accept_router
  update_router-IsConsistent input config (distinct, placed) =
      let P = Leaves {A = PublicRouter} (IsConsistent tools) in
      split_if P (not (tools.valid_ipv4 (tools.trim (given_or input.host config.router.host)))) _ _
        (λ e. tt)
        (λ e.
          split_if P
            (not
              (tools.valid_ipv4 (tools.trim (given_or input.rethink_ip config.router.rethink_ip))))
            _ _ (λ f. tt)
            (λ f.
              split_option P (valid_port (port_or input.port config.router.port)) _ _ (λ g. tt)
                (λ port g.
                  let next = next_router tools input config.router port in
                  split_if P (is_empty next.username) _ _ (λ k. tt)
                    (λ k.
                      split_if P (is_empty next.password) _ _ (λ l. tt)
                        (λ l.
                          split_if P (bad_fingerprint tools next.host_key_fingerprint) _ _ (λ m. tt)
                            (λ m.
                              split_if P (some_entry (is_router_ip next) config.devices) _ _
                                (λ n. tt)
                                (λ n. (
                                  distinct,
                                  map-All config.devices (λ entry (own, off). (own.0, off))
                                      (off_router next config.devices (IsPlaced tools config.router)
                                        n placed),
                                ))))))))

  recover_host_key_fingerprint-IsConsistent :
      (input : Json) (config : RouterConfig)
      → IsConsistent tools config
      → Keeps (recover_host_key_fingerprint tools input config)
  unfolding recover_host_key_fingerprint
  recover_host_key_fingerprint-IsConsistent input config h =
      let P = Leaves {A = Bool} (IsConsistent tools) in
      split_if P (is_given config.router.host_key_fingerprint) _ _ (λ e. h)
        (λ e.
          split_option P (object_record (some input)) _ _ (λ f. h)
            (λ fields f.
              split_option P (text_of (get fingerprint_text fields)) _ _ (λ g. h)
                (λ fingerprint g.
                  split_if P (is_recovery tools fingerprint fields config.router) _ _ (λ k. h)
                    (λ k. h))))

  -- The configuration in memory and the one on disk.
  abbrev pub IsStored : RouterConfigStore → Type 0
  IsStored store = IsConsistent tools store.config × IsConsistent tools store.persisted

  commit-IsStored :
      {A : Type 0} (is_written : Bool) (store : RouterConfigStore) (change : Change A)
      → IsStored store
      → Keeps change
      → IsStored (commit is_written store change).0
  unfolding commit
  commit-IsStored is_written store (refused error) h k = h
  commit-IsStored is_written store (returning config a) h k = (k, h.1)
  commit-IsStored true store (saving config a) h k = (k, k)
  commit-IsStored false store (saving config a) h k = (h.1, h.1)

  pub store_step-IsStored :
      (is_written : Bool) (op : StoreOp) (store : RouterConfigStore)
      → IsStored store
      → IsStored (store_step tools is_written op store)
  unfolding store_step
  store_step-IsStored w (add_op id ip mode) store h =
      commit-IsStored w store _ h (add_device-IsConsistent tools id ip mode store.config h.0)
  store_step-IsStored w (update_op id input) store h =
      commit-IsStored w store _ h (update_device-IsConsistent tools id input store.config h.0)
  store_step-IsStored w (delete_op id) store h =
      commit-IsStored w store _ h (delete_device-IsConsistent id store.config h.0)
  store_step-IsStored w (unlink_op id) store h =
      commit-IsStored w store _ h (unlink_device-IsConsistent id store.config h.0)
  store_step-IsStored w (link_op id device_id name platform) store h =
      commit-IsStored w store _ h
        (link_device-IsConsistent id device_id name platform store.config h.0)
  store_step-IsStored w (link_ip_op ip device_id name platform) store h =
      commit-IsStored w store _ h
        (link_by_ip-IsConsistent ip device_id name platform store.config h.0)
  store_step-IsStored w (desired_op id desired) store h =
      commit-IsStored w store _ h (set_dnat_desired-IsConsistent id desired store.config h.0)
  store_step-IsStored w (refresh_op device_id name) store h =
      commit-IsStored w store _ h
        (refresh_detected_name-IsConsistent device_id name store.config h.0)
  store_step-IsStored w (router_op input) store h =
      commit-IsStored w store _ h (update_router-IsConsistent input store.config h.0)
  store_step-IsStored w (recover_op input) store h =
      commit-IsStored w store _ h (recover_host_key_fingerprint-IsConsistent input store.config h.0)

-- After any operations of the store, whichever of their writes to the file fail: if the devices had
-- valid addresses, none of them the router's or this server's, and no two shared an address or an
-- appliance, in memory and on disk, then so they do.
pub store_run-IsStored :
    (tools : TextTools) (ops : List (Bool × StoreOp)) (store : RouterConfigStore)
    → IsStored tools store
    → IsStored tools (store_run tools ops store)
unfolding store_run
store_run-IsStored tools [] store h = h
store_run-IsStored tools ((w, op) ∷ ops) store h =
    store_run-IsStored tools ops _ (store_step-IsStored tools w op store h)
