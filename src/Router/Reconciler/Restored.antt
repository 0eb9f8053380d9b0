-- ===== src/Router/Reconciler/Restored.antt =====
-- For which entries the rules are put back.
use rethink.Common.{All, ◌⊎◌, ◌≡◌, Bool, false, Option, List, [], ◌∷◌, ◌++◌, if◌then◌else◌}
use rethink.Mqtt.Topic.{Text}
use rethink.Router.Store.{RouterDeviceEntry, TextTools}
use rethink.Router.Store.Kept.{IsStored}
use rethink.Router.Reconciler.{DnatState, Cycle, filter_entries, is_adoptable, is_wanted}
use rethink.Router.Reconciler.Adopted.{IsDesired}
use rethink.Router.Reconciler.Selection.{Selects, IsWanted, IsUndecided, entry_ids}

-- The ids of those among the entries whose rules could be put in place.
abbrev pub put_back : (RouterDeviceEntry → Bool) → List RouterDeviceEntry → List Text
put_back enable [] = []
put_back enable (entry ∷ entries) =
    let rest = put_back enable entries in if enable entry then entry.entry_id ∷ rest else rest

module _ (released : Text → Bool) (states : Text → Option DnatState)
    (enable : RouterDeviceEntry → Bool) where
  abbrev wanted : List RouterDeviceEntry → List RouterDeviceEntry
  wanted entries = filter_entries (is_wanted released states) entries

  -- The second loop, from a cycle, does for some entries what is expected of it.
  abbrev IsRestoring : List RouterDeviceEntry → Cycle → Cycle → Type 0
  IsRestoring list cycle after =
      (after.enabled ≡ cycle.enabled ++ list)
      × (after.restored ≡ cycle.restored ++ put_back enable list)
      × (after.store ≡ cycle.store)
      × (after.adopted ≡ cycle.adopted)

-- What the first loop does, and what it leaves alone.
abbrev IsAdopting :
    TextTools → (Text → Option DnatState) → List RouterDeviceEntry → Cycle → Cycle × Bool → Type 0
IsAdopting tools states entries cycle (after, through) =
    (after.enabled ≡ cycle.enabled)
    × (after.restored ≡ cycle.restored)
    × IsStored tools after.store
    × ((through ≡ false)
        ⊎ ((after.adopted
              ≡ cycle.adopted ++ entry_ids (filter_entries (is_adoptable states) entries))
            × All (IsDesired after.store.config.devices) after.adopted))

-- What a cycle did to its end: it adopted the entries of those it was given that are forwarded
-- without a word of the user, which the list now says are to be forwarded, and called `enable` for
-- the entries of the list as it leaves it that are wanted.
abbrev pub IsReconciled :
    (Text → Bool) → (Text → Option DnatState) → List RouterDeviceEntry → Cycle → Type 0
IsReconciled released states entries after =
    (undecided : List RouterDeviceEntry) × Selects (IsUndecided states) entries undecided
    × (after.adopted ≡ entry_ids undecided)
    × All (IsDesired after.store.config.devices) after.adopted
    × Selects (IsWanted released states) after.store.config.devices after.enabled
