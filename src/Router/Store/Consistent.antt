-- ===== src/Router/Store/Consistent.antt =====
-- What every operation of the device list keeps.
use mathlib.Core.Path.{subst}
use rethink.Common.{
  ◌≡◌, refl, ◌∙◌, Bool, true, false, not, ◌||◌, Option, none, some, List, [], ◌∷◌, ◌++◌, append-nil,
  arith, split_if, split_option, All,
}
use rethink.Mqtt.Topic.{Text, text_eq}
use rethink.Router.Store.{
  RouterSshConfig, RouterDeviceEntry, RouterConfig, Change, find_entry, some_entry, has_ip, mode_of,
  TextTools, refused, saving, returning,
}
use rethink.Router.Store.Operations.{
  moved_entry, with_mode, bad_mode, DeviceInput, with_entry_id, check_ip, new_entry, add_device,
  with_name, changed_entry, update_found, update_device,
}
use rethink.Router.Store.Settings.{is_router_ip}
use rethink.Router.Store.Distinct.{
  has_id, apart, IsDistinct, insert-IsDistinct, remove-IsDistinct, IsFound, find_entry-IsFound,
}

-- What holds of the configuration that a change leaves.
abbrev pub Leaves : {A : Type 0} → (RouterConfig → Type 0) → Change A → Type 0
Leaves P (refused error) = Unit
Leaves P (saving config a) = P config
Leaves P (returning config a) = P config

All-middle :
    (P : RouterDeviceEntry → Type 0) (before : List RouterDeviceEntry) (entry : RouterDeviceEntry)
    (after : List RouterDeviceEntry)
    → All P (before ++ after)
    → P entry
    → All P (before ++ (entry ∷ after))
All-middle P [] entry after h p = (p, h)
All-middle P (first ∷ before) entry after (q, h) p = (q, All-middle P before entry after h p)

All-without :
    (P : RouterDeviceEntry → Type 0) (before : List RouterDeviceEntry) (entry : RouterDeviceEntry)
    (after : List RouterDeviceEntry)
    → All P (before ++ (entry ∷ after))
    → All P (before ++ after) × P entry
All-without P [] entry after (p, h) = (h, p)
All-without P (first ∷ before) entry after (q, h) =
    let (rest, p) = All-without P before entry after h in ((q, rest), p)

pub nobody : (entries : List RouterDeviceEntry) → some_entry (has_id none) entries ≡ false
nobody [] = refl
nobody (entry ∷ entries) = nobody entries

module _ (tools : TextTools) where
  -- An address that is one, and neither the router's nor the server's.
  abbrev pub IsPlaced : RouterSshConfig → RouterDeviceEntry → Type 0
  IsPlaced router entry = (tools.valid_ipv4 entry.ip ≡ true) × (is_router_ip router entry ≡ false)

  -- No two devices share an address or an appliance, and each has a proper address.
  abbrev pub IsConsistent : RouterConfig → Type 0
  IsConsistent config = IsDistinct config.devices × All (IsPlaced config.router) config.devices

  module _ (config : RouterConfig) (before : List RouterDeviceEntry) (entry : RouterDeviceEntry)
      (after : List RouterDeviceEntry) where
    -- What is known of the entry that an operation works on, and of the others.
    abbrev pub IsOpen : Type 0
    IsOpen =
        IsDistinct (before ++ after)
        × (apart entry (before ++ after) ≡ true)
        × All (IsPlaced config.router) (before ++ after)
        × IsPlaced config.router entry

    opened : IsConsistent config → config.devices ≡ before ++ (entry ∷ after) → IsOpen
    opened (distinct, placed) e =
        let (rest, new) = remove-IsDistinct before entry after (subst IsDistinct e distinct) in
        let (others, own) =
          All-without (IsPlaced config.router) before entry after
            (subst (All (IsPlaced config.router)) e placed) in
        (rest, new, others, own)

    pub replaced :
        (next : RouterDeviceEntry)
        → IsOpen
        → apart next (before ++ after) ≡ true
        → IsPlaced config.router next
        → IsConsistent (record config { devices = before ++ (next ∷ after) })
    replaced next (rest, new, others, own) fresh placed = (
      insert-IsDistinct before next after rest fresh,
      All-middle (IsPlaced config.router) before next after others placed,
    )

    -- A change of anything but the address and the appliance.
    pub same_place :
        (next : RouterDeviceEntry)
        → IsOpen
        → next.ip ≡ entry.ip
        → next.device_id ≡ entry.device_id
        → IsConsistent (record config { devices = before ++ (next ∷ after) })
    same_place next (rest, new, others, (valid, free)) ip id =
        replaced next (rest, new, others, (valid, free)) (rw (ip, id) new) (rw ip valid, rw ip free)

  -- An operation on the entry that a test finds.
  pub on_found :
      {A : Type 0} (test : RouterDeviceEntry → Bool) (config : RouterConfig) (missing : Change A)
      (f : List RouterDeviceEntry → RouterDeviceEntry → List RouterDeviceEntry → Change A)
      → IsConsistent config
      → Leaves IsConsistent missing
      → ((before : List RouterDeviceEntry) (entry : RouterDeviceEntry)
            (after : List RouterDeviceEntry)
          → IsOpen config before entry after
          → Leaves IsConsistent (f before entry after))
      → let result : Change A = elim (find_entry test config.devices) [
        | none ↦ missing
        | some (before, entry, after) ↦ f before entry after
      ] in
        Leaves IsConsistent result
  on_found test config missing f h lost kept =
      split_option (Leaves IsConsistent) (find_entry test config.devices) missing
        (λ found. f found.0 found.1 found.2) (λ e. lost)
        (λ found e.
          let (same, passed) =
            subst (IsFound test config.devices) e (find_entry-IsFound test config.devices) in
          kept found.0 found.1 found.2 (opened config found.0 found.1 found.2 h same))

  check_ip_lem :
      {A : Type 0} (P : RouterConfig → Type 0) (config : RouterConfig)
      (others : List RouterDeviceEntry) (ip : Text) (next : Change A)
      → (tools.valid_ipv4 ip ≡ true
          → (text_eq ip config.router.host || text_eq ip config.router.rethink_ip) ≡ false
          → some_entry (has_ip ip) others ≡ false
          → Leaves P next)
      → Leaves P (check_ip tools config others ip next)
  check_ip_lem P config others ip next kept =
      split_if (Leaves P) (not (tools.valid_ipv4 ip)) _ _ (λ e. tt)
        (λ e.
          split_if (Leaves P) (text_eq ip config.router.host || text_eq ip config.router.rethink_ip)
            _ _ (λ f. tt)
            (λ f.
              split_if (Leaves P) (some_entry (has_ip ip) others) _ _ (λ g. tt)
                (λ g. kept (ground arith) f g)))

  -- An entry with a free address and no appliance.
  fresh_apart :
      (entry : RouterDeviceEntry) (entries : List RouterDeviceEntry)
      → entry.device_id ≡ none
      → some_entry (has_ip entry.ip) entries ≡ false
      → apart entry entries ≡ true
  fresh_apart entry entries e free = rw (free, e, nobody entries) refl

  pub add_device-IsConsistent :
      (id ip : Text) (mode : Option Text) (config : RouterConfig)
      → IsConsistent config
      → Leaves IsConsistent (add_device tools id ip mode config)
  unfolding add_device
  add_device-IsConsistent id ip mode config (distinct, placed) =
      let entry = new_entry tools id ip mode in
      let all : config.devices ++ [] ≡ config.devices = append-nil config.devices in
      split_if (Leaves IsConsistent) (bad_mode mode) _ _ (λ e. tt)
        (λ e. check_ip_lem IsConsistent config config.devices (tools.trim ip) _ (λ valid free alone.
          (
            insert-IsDistinct config.devices entry [] (rw all distinct)
                (rw all (fresh_apart entry config.devices refl alone)),
            All-middle (IsPlaced config.router) config.devices entry [] (rw all placed)
                (valid, free),
          )))

  with_mode_same :
      (mode : Option Text) (entry : RouterDeviceEntry)
      → ((with_mode mode entry).ip ≡ entry.ip)
        × ((with_mode mode entry).device_id ≡ entry.device_id)
  with_mode_same none entry = (refl, refl)
  with_mode_same (some text) entry =
      split_option (λ (r : RouterDeviceEntry). (r.ip ≡ entry.ip) × (r.device_id ≡ entry.device_id))
        (mode_of text) _ _ (λ e. (refl, refl)) (λ mode e. (refl, refl))

  with_name_same :
      (name : Option Text) (entry : RouterDeviceEntry)
      → ((with_name tools name entry).ip ≡ entry.ip)
        × ((with_name tools name entry).device_id ≡ entry.device_id)
  with_name_same none entry = (refl, refl)
  with_name_same (some text) entry = (refl, refl)

  changed_entry_same :
      (input : DeviceInput) (entry : RouterDeviceEntry)
      → ((changed_entry tools input entry).ip ≡ entry.ip)
        × ((changed_entry tools input entry).device_id ≡ entry.device_id)
  changed_entry_same input entry =
      let (ip, id) = with_mode_same input.mode entry in
      let (ip_again, id_again) = with_name_same input.custom_name (with_mode input.mode entry) in
      (ip_again ∙ ip, id_again ∙ id)

  pub update_device-IsConsistent :
      (id : Text) (input : DeviceInput) (config : RouterConfig)
      → IsConsistent config
      → Leaves IsConsistent (update_device tools id input config)
  unfolding update_device update_found
  update_device-IsConsistent id input config h =
      on_found (with_entry_id id) config _ _ h tt (λ before entry after known.
        let (ip_same, id_same) = changed_entry_same input entry in
        let kept =
          same_place config before entry after (changed_entry tools input entry) known ip_same
            id_same in
        split_if (Leaves IsConsistent) (bad_mode input.mode) _ _ (λ e. tt)
          (λ e.
            split_option (Leaves IsConsistent) input.ip _ _ (λ f. kept)
              (λ ip f.
                split_if (Leaves IsConsistent) (text_eq (tools.trim ip) entry.ip) _ _ (λ g. kept)
                  (λ g.
                    check_ip_lem IsConsistent config (before ++ after) (tools.trim ip) _
                      (λ valid free alone.
                        let moved = moved_entry (tools.trim ip) entry in
                        let (ip_next, id_next) = changed_entry_same input moved in
                        replaced config before entry after (changed_entry tools input moved) known
                          (rw (ip_next, id_next) (fresh_apart moved (before ++ after) refl alone))
                          (rw ip_next valid, rw ip_next free))))))
