-- ===== src/Router/Policy/Agreement.antt =====
-- The bridge's policy and the reconciler on the same list.
use mathlib.Core.Path.{subst}
use rethink.Common.{
  ◌≡◌, refl, sym, ◌∙◌, Bool, true, false, not, ◌&&◌, Option, some, List, [], ◌∷◌, ◌++◌, arith,
}
use rethink.Mqtt.Topic.{Text}
use rethink.Mqtt.Topic.Matching.{text_eq_refl}
use rethink.Router.Store.{RouterDeviceEntry, RouterConfig, find_entry, has_device_id}
use rethink.Router.Store.Distinct.{IsDistinct, has_id, apart-insert, swap_apart}
use rethink.Router.Reconciler.{DnatState, is_forwarded, is_desired, is_on, is_wanted}
use rethink.Router.Policy.{policy_entry, forwarding}

-- In a list without clashes the entry of an appliance is the one that is found for it.
find_entry_linked :
    (id : Text) (before : List RouterDeviceEntry) (entry : RouterDeviceEntry)
    (after : List RouterDeviceEntry)
    → IsDistinct (before ++ (entry ∷ after))
    → entry.device_id ≡ some id
    → find_entry (has_device_id id) (before ++ (entry ∷ after)) ≡ some (before, entry, after)
unfolding find_entry
find_entry_linked id [] entry after h own =
    let yes : has_device_id id entry ≡ true = rw own (text_eq_refl id) in rw yes refl
find_entry_linked id (first ∷ before) entry after (new, h) own =
    let read = sym (apart-insert first before entry after) ∙ new in
    let (ip, other) = swap_apart first entry (ground (arith, read)) (ground (arith, read)) in
    let no : has_device_id id first ≡ false = subst (λ o. has_id o first ≡ false) own other in
    rw (no, find_entry_linked id before entry after h own) refl

reorder : (a b c d : Bool) → (a && b && c && d) ≡ ((b && a && c) && d)
reorder true true c d = refl
reorder true false c d = refl
reorder false true c d = refl
reorder false false c d = refl

-- In a list without clashes, an appliance that is linked to an entry is forwarded if the entry is meant
-- to be, is not local and is not released, wherever the appliance connects from; and the reconciler
-- puts the entry's rules back exactly if its appliance is forwarded and they were not found in place.
pub forwarding-is_wanted :
    (released : Text → Bool) (states : Text → Option DnatState) (id : Text)
    (source_ip : Option Text) (config : RouterConfig) (before : List RouterDeviceEntry)
    (entry : RouterDeviceEntry) (after : List RouterDeviceEntry)
    → IsDistinct config.devices
    → config.devices ≡ before ++ (entry ∷ after)
    → entry.device_id ≡ some id
    → (policy_entry id source_ip config ≡ some entry)
      × (forwarding released id source_ip config
          ≡ (is_forwarded entry && is_desired entry.dnat_desired && not (released entry.entry_id)))
      × (is_wanted released states entry
          ≡ (forwarding released id source_ip config && not (is_on (states entry.entry_id))))
unfolding policy_entry forwarding
forwarding-is_wanted released states id source_ip config before entry after h same own =
    let found : find_entry (has_device_id id) config.devices ≡ some (before, entry, after) =
      subst (λ list. find_entry (has_device_id id) list ≡ some (before, entry, after)) (sym same)
        (find_entry_linked id before entry after (subst IsDistinct same h) own) in
    let chosen : policy_entry id source_ip config ≡ some entry = rw (policy_entry, found) refl in
    let allowed : forwarding released id source_ip config
        ≡ (is_forwarded entry && is_desired entry.dnat_desired && not (released entry.entry_id)) =
      rw (forwarding, chosen) refl in
    (
      chosen,
      allowed,
      rw allowed (
          reorder (is_desired entry.dnat_desired) (is_forwarded entry)
            (not (released entry.entry_id)) (not (is_on (states entry.entry_id)))),
    )
