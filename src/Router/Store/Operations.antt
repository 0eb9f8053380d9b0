-- ===== src/Router/Store/Operations.antt =====
-- The operations of the router's device list, before they save: router/config-store.ts.
use rethink.Common.{
  Bool, true, false, not, ◌&&◌, ◌||◌, Option, none, some, List, [], ◌∷◌, ◌++◌, if◌then◌else◌,
}
use rethink.Mqtt.Topic.{Text, text_eq, is_empty}
use rethink.Thinq2.Messages.{Json}
use rethink.Router.Store.{
  EntryPlatform, RouterDeviceEntry, RouterConfig, RouterConfigStore, Change, commit, find_entry,
  some_entry, has_device_id, has_ip, is_given, given_or, mode_of, TextTools, RouterInput, thinq1,
  thinq2, invalid_mode, invalid_device_ip, reserved_ip, ip_taken, unknown_device, already_linked,
  refused, saving, returning,
}
use rethink.Router.Store.Settings.{update_router, recover_host_key_fingerprint}

-- The entry is put back in its place, and the settings are saved.
abbrev pub keep_entry :
    RouterConfig
    → List RouterDeviceEntry
    → List RouterDeviceEntry
    → RouterDeviceEntry
    → Change RouterDeviceEntry
keep_entry config before after entry =
    saving (record config { devices = before ++ (entry ∷ after) }) entry

abbrev pub moved_entry : Text → RouterDeviceEntry → RouterDeviceEntry
moved_entry ip entry = record entry {
  ip = ip;
  auto_link = none;
  device_id = none;
  detected_name = none;
  platform = none;
}

abbrev pub with_mode : Option Text → RouterDeviceEntry → RouterDeviceEntry
with_mode none entry = entry
with_mode (some text) entry = elim (mode_of text) [
  | none ↦ entry
  | some mode ↦ record entry { mode = some mode }
]

abbrev pub bad_mode : Option Text → Bool
bad_mode none = false
bad_mode (some text) = elim (mode_of text) [ none ↦ true | some mode ↦ false ]

-- What `updateDevice` is given.
pub record DeviceInput : Type 0 where
  pub ip : Option Text
  pub custom_name : Option Text
  pub mode : Option Text

abbrev pub with_entry_id : Text → RouterDeviceEntry → Bool
with_entry_id id entry = text_eq entry.entry_id id

module _ (tools : TextTools) where
  -- The address of a device, as `addDevice` and `updateDevice` check it against the others.
  abbrev pub check_ip :
      {A : Type 0} → RouterConfig → List RouterDeviceEntry → Text → Change A → Change A
  check_ip config others ip next =
      if not (tools.valid_ipv4 ip)
      then refused invalid_device_ip
      else if text_eq ip config.router.host || text_eq ip config.router.rethink_ip
      then refused reserved_ip
      else if some_entry (has_ip ip) others
      then refused ip_taken
      else next

  abbrev pub new_entry : Text → Text → Option Text → RouterDeviceEntry
  new_entry id ip mode = record {
    entry_id = id;
    ip = tools.trim ip;
    device_id = none;
    auto_link = none;
    detected_name = none;
    custom_name = none;
    platform = none;
    mode = elim mode [ none ↦ none | some text ↦ mode_of text ];
    dnat_desired = none;
  }

  -- `addDevice`, with the random id that the entry gets.
  unfoldable pub add_device : Text → Text → Option Text → RouterConfig → Change RouterDeviceEntry
  add_device id ip mode config =
      if bad_mode mode
      then refused invalid_mode
      else check_ip config config.devices (tools.trim ip) (
          saving (record config { devices = config.devices ++ (new_entry id ip mode ∷ []) })
            (new_entry id ip mode))

  abbrev pub with_name : Option Text → RouterDeviceEntry → RouterDeviceEntry
  with_name none entry = entry
  with_name (some name) entry = record entry {
    custom_name = if is_empty (tools.trim name) then none else some (tools.trim name);
  }

  abbrev pub changed_entry : DeviceInput → RouterDeviceEntry → RouterDeviceEntry
  changed_entry input entry = with_name input.custom_name (with_mode input.mode entry)

  -- `updateDevice`
  unfoldable pub update_found :
      DeviceInput
      → RouterConfig
      → List RouterDeviceEntry
      → RouterDeviceEntry
      → List RouterDeviceEntry
      → Change RouterDeviceEntry
  update_found input config before entry after = elim input.ip [
    | none ↦ keep_entry config before after (changed_entry input entry)
    | some ip ↦
        if text_eq (tools.trim ip) entry.ip
        then keep_entry config before after (changed_entry input entry)
        else check_ip config (before ++ after) (tools.trim ip) (
            keep_entry config before after
              (changed_entry input (moved_entry (tools.trim ip) entry)))
  ]

  unfoldable pub update_device : Text → DeviceInput → RouterConfig → Change RouterDeviceEntry
  update_device id input config = elim (find_entry (with_entry_id id) config.devices) [
    | none ↦ refused unknown_device
    | some (before, entry, after) ↦
        if bad_mode input.mode
        then refused invalid_mode
        else update_found input config before entry after
  ]

-- `deleteDevice`
unfoldable pub delete_device : Text → RouterConfig → Change Unit
delete_device id config = elim (find_entry (with_entry_id id) config.devices) [
  | none ↦ refused unknown_device
  | some (before, entry, after) ↦ saving (record config { devices = before ++ after }) tt
]

abbrev pub with_detected : Option Text → RouterDeviceEntry → RouterDeviceEntry
with_detected name entry = if is_given name then record entry { detected_name = name } else entry

abbrev pub with_platform : Option EntryPlatform → RouterDeviceEntry → RouterDeviceEntry
with_platform none entry = entry
with_platform (some platform) entry = record entry { platform = some platform }

-- `linkDevice`
unfoldable pub link_device :
    Text → Text → Option Text → Option EntryPlatform → RouterConfig → Change RouterDeviceEntry
link_device id device_id detected_name platform config =
    elim (find_entry (with_entry_id id) config.devices) [
      | none ↦ refused unknown_device
      | some (before, entry, after) ↦
          if some_entry (has_device_id device_id) (before ++ after)
          then refused already_linked
          else keep_entry config before after (
              with_platform platform (
                with_detected detected_name
                  (record entry { device_id = some device_id; auto_link = none })))
    ]

-- `unlinkDevice`
unfoldable pub unlink_device : Text → RouterConfig → Change RouterDeviceEntry
unlink_device id config = elim (find_entry (with_entry_id id) config.devices) [
  | none ↦ refused unknown_device
  | some (before, entry, after) ↦ keep_entry config before after (record entry {
    auto_link = some false;
    device_id = none;
    detected_name = none;
    platform = none;
  })
]

abbrev pub same_platform : EntryPlatform → EntryPlatform → Bool
same_platform thinq1 thinq1 = true
same_platform thinq2 thinq2 = true
same_platform thinq1 thinq2 = false
same_platform thinq2 thinq1 = false

-- `platform && entry.platform !== platform`
abbrev pub new_platform : Option EntryPlatform → Option EntryPlatform → Bool
new_platform none old = false
new_platform (some platform) none = true
new_platform (some platform) (some old) = not (same_platform old platform)

abbrev pub same_text : Option Text → Option Text → Bool
same_text none none = true
same_text (some a) (some b) = text_eq a b
same_text none (some b) = false
same_text (some a) none = false

abbrev pub is_switched_off : Option Bool → Bool
is_switched_off none = false
is_switched_off (some on) = not on

abbrev pub named_entry : Text → Option Text → RouterDeviceEntry → RouterDeviceEntry
named_entry device_id detected_name entry =
    with_detected detected_name (record entry { device_id = some device_id })

abbrev pub is_renamed : Text → Option Text → RouterDeviceEntry → Bool
is_renamed device_id detected_name entry =
    not (same_text entry.device_id (some device_id))
    || is_given detected_name && not (same_text entry.detected_name detected_name)

abbrev pub may_not_link : Text → List RouterDeviceEntry → RouterDeviceEntry → Bool
may_not_link device_id others entry =
    is_switched_off entry.auto_link
    || is_given entry.device_id && not (same_text entry.device_id (some device_id))
    || some_entry (has_device_id device_id) others

-- `linkByIp`, on the entry with that address.
unfoldable pub link_found :
    Text
    → Option Text
    → Option EntryPlatform
    → RouterConfig
    → List RouterDeviceEntry
    → RouterDeviceEntry
    → List RouterDeviceEntry
    → Change Bool
link_found device_id detected_name platform config before entry after =
    let named = named_entry device_id detected_name entry in
    if may_not_link device_id (before ++ after) entry
    then returning config false
    else if new_platform platform entry.platform
    then saving (record config { devices = before ++ (with_platform platform named ∷ after) }) true
    else if is_renamed device_id detected_name entry
    then saving (record config { devices = before ++ (named ∷ after) }) true
    else returning (record config { devices = before ++ (named ∷ after) }) false

-- `linkByIp`
unfoldable pub link_by_ip :
    Option Text → Text → Option Text → Option EntryPlatform → RouterConfig → Change Bool
link_by_ip ip device_id detected_name platform config =
    if is_given ip
    then elim (find_entry (has_ip (given_or ip [])) config.devices) [
      | none ↦ returning config false
      | some (before, entry, after) ↦
          link_found device_id detected_name platform config before entry after
    ]
    else returning config false

abbrev pub same_flag : Option Bool → Bool → Bool
same_flag none b = false
same_flag (some true) b = b
same_flag (some false) b = not b

-- `setDnatDesired`
unfoldable pub set_dnat_desired : Text → Bool → RouterConfig → Change RouterDeviceEntry
set_dnat_desired id desired config = elim (find_entry (with_entry_id id) config.devices) [
  | none ↦ refused unknown_device
  | some (before, entry, after) ↦
      if same_flag entry.dnat_desired desired
      then returning config entry
      else keep_entry config before after (record entry { dnat_desired = some desired })
]

-- `refreshDetectedName`
unfoldable pub refresh_detected_name : Text → Option Text → RouterConfig → Change Bool
refresh_detected_name device_id detected_name config =
    if is_given detected_name
    then elim (find_entry (has_device_id device_id) config.devices) [
      | none ↦ returning config false
      | some (before, entry, after) ↦
          if same_text entry.detected_name detected_name
          then returning config false
          else saving
              (record config {
                devices = before ++ (record entry { detected_name = detected_name } ∷ after);
              })
              true
    ]
    else returning config false

-- Every operation of the store that changes the device list or the router's settings.
pub data StoreOp : Type 0 where
  add_op : Text → Text → Option Text → StoreOp
  update_op : Text → DeviceInput → StoreOp
  delete_op unlink_op : Text → StoreOp
  link_op : Text → Text → Option Text → Option EntryPlatform → StoreOp
  link_ip_op : Option Text → Text → Option Text → Option EntryPlatform → StoreOp
  desired_op : Text → Bool → StoreOp
  refresh_op : Text → Option Text → StoreOp
  router_op : RouterInput → StoreOp
  recover_op : Json → StoreOp

-- One operation, given whether the file can be written.
unfoldable pub store_step : TextTools → Bool → StoreOp → RouterConfigStore → RouterConfigStore
store_step tools is_written (add_op id ip mode) store =
    (commit is_written store (add_device tools id ip mode store.config)).0
store_step tools is_written (update_op id input) store =
    (commit is_written store (update_device tools id input store.config)).0
store_step tools is_written (delete_op id) store =
    (commit is_written store (delete_device id store.config)).0
store_step tools is_written (unlink_op id) store =
    (commit is_written store (unlink_device id store.config)).0
store_step tools is_written (link_op id device_id name platform) store =
    (commit is_written store (link_device id device_id name platform store.config)).0
store_step tools is_written (link_ip_op ip device_id name platform) store =
    (commit is_written store (link_by_ip ip device_id name platform store.config)).0
store_step tools is_written (desired_op id desired) store =
    (commit is_written store (set_dnat_desired id desired store.config)).0
store_step tools is_written (refresh_op device_id name) store =
    (commit is_written store (refresh_detected_name device_id name store.config)).0
store_step tools is_written (router_op input) store =
    (commit is_written store (update_router tools input store.config)).0
store_step tools is_written (recover_op input) store =
    (commit is_written store (recover_host_key_fingerprint tools input store.config)).0

unfoldable pub store_run : TextTools → List (Bool × StoreOp) → RouterConfigStore → RouterConfigStore
store_run tools [] store = store
store_run tools ((is_written, op) ∷ ops) store =
    store_run tools ops (store_step tools is_written op store)
