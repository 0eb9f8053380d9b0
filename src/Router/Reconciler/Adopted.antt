-- ===== src/Router/Reconciler/Adopted.antt =====
-- What adopting an entry leaves in the list of devices.
use mathlib.Core.List.{Memᴰ}
use mathlib.Core.Path.{subst}
use rethink.Common.{
  ◌≡◌, refl, sym, ap, ◌∙◌, ◌⊎◌, inl, inr, Bool, true, false, Option, none, some, List, [], ◌∷◌,
  ◌++◌, All, split_if, split_option,
}
use rethink.Mqtt.Topic.{Text}
use rethink.Mqtt.Topic.Matching.{text_eq→eq}
use rethink.Router.Store.{
  RouterDeviceEntry, RouterConfig, RouterConfigStore, Change, Result, thrown, value, commit,
  refused, returning, saving, find_entry,
}
use rethink.Router.Store.Operations.{set_dnat_desired, same_flag, with_entry_id}
use rethink.Router.Store.Distinct.{IsFound, find_entry-IsFound}

-- The list has an entry with that id that the user wants forwarded.
abbrev pub IsDesired : List RouterDeviceEntry → Text → Type 0
IsDesired devices id =
    (entry : RouterDeviceEntry) × Memᴰ entry devices
    × (entry.entry_id ≡ id)
    × (entry.dnat_desired ≡ some true)

-- One id more is desired, and none less.
abbrev pub IsGrown : Text → List RouterDeviceEntry → List RouterDeviceEntry → Type 0
IsGrown id old devices =
    IsDesired devices id × ((other : Text) → IsDesired old other → IsDesired devices other)

module _ {A : Type 0} where
  mem-middle : (before after : List A) (x : A) → Memᴰ x (before ++ (x ∷ after))
  mem-middle [] after x = Memᴰ.head refl
  mem-middle (y ∷ before) after x = Memᴰ.tail (mem-middle before after x)

  mem-replaced :
      (before after : List A) (e x y : A)
      → Memᴰ e (before ++ (x ∷ after))
      → (e ≡ x) ⊎ Memᴰ e (before ++ (y ∷ after))
  mem-replaced [] after e x y (Memᴰ.head same) = inl same
  mem-replaced [] after e x y (Memᴰ.tail member) = inr (Memᴰ.tail member)
  mem-replaced (z ∷ before) after e x y (Memᴰ.head same) = inr (Memᴰ.head same)
  mem-replaced (z ∷ before) after e x y (Memᴰ.tail member) =
      elim (mem-replaced before after e x y member) [
        | inl same ↦ inl same
        | inr there ↦ inr (Memᴰ.tail there)
      ]

abbrev desired_entry : RouterDeviceEntry → RouterDeviceEntry
desired_entry entry = record entry { dnat_desired = some true }

replaced-IsGrown :
    (id : Text) (before : List RouterDeviceEntry) (entry : RouterDeviceEntry)
    (after : List RouterDeviceEntry)
    → entry.entry_id ≡ id
    → IsGrown id (before ++ (entry ∷ after)) (before ++ (desired_entry entry ∷ after))
replaced-IsGrown id before entry after own = (
  (desired_entry entry, mem-middle before after (desired_entry entry), own, refl),
  λ other (e, member, same, desired).
      elim (mem-replaced before after e entry (desired_entry entry) member) [
        | inl here ↦ (
          desired_entry entry,
          mem-middle before after (desired_entry entry),
          ap (λ (r : RouterDeviceEntry). r.entry_id) (sym here) ∙ same,
          refl,
        )
        | inr there ↦ (e, there, same, desired)
      ],
)

-- What is left behind where the change is made.
abbrev Grows : {A : Type 0} → Text → RouterConfig → Change A → Type 0
Grows id config (refused error) = Unit
Grows id config (returning next a) = IsGrown id config.devices next.devices
Grows id config (saving next a) = IsGrown id config.devices next.devices

same_flag-eq : (flag : Option Bool) → same_flag flag true ≡ true → flag ≡ some true
same_flag-eq none h = cc
same_flag-eq (some true) h = refl
same_flag-eq (some false) h = cc

set_dnat_desired-Grows :
    (id : Text) (config : RouterConfig) → Grows id config (set_dnat_desired id true config)
unfolding set_dnat_desired
set_dnat_desired-Grows id config =
    split_option (Grows id config) (find_entry (with_entry_id id) config.devices) _ _ (λ e. tt)
      (λ found e.
        let (before, entry, after) = found in
        let (same, passed) =
          subst (IsFound (with_entry_id id) config.devices) e
            (find_entry-IsFound (with_entry_id id) config.devices) in
        let own = text_eq→eq entry.entry_id id passed in
        split_if (Grows id config) (same_flag entry.dnat_desired true) _ _
          (λ f. (
            (
              entry,
              subst (λ l. Memᴰ entry l) (sym same) (mem-middle before after entry),
              own,
              same_flag-eq entry.dnat_desired f,
            ),
            λ other h. h,
          ))
          (λ f.
            subst (λ l. IsGrown id l (before ++ (desired_entry entry ∷ after))) (sym same)
              (replaced-IsGrown id before entry after own)))

abbrev pub HasGrown :
    {A : Type 0} → Text → RouterConfigStore → RouterConfigStore × Result A → Type 0
HasGrown id store (after, thrown error) = Unit
HasGrown id store (after, value a) = IsGrown id store.config.devices after.config.devices

commit-HasGrown :
    {A : Type 0} (is_written : Bool) (id : Text) (store : RouterConfigStore) (change : Change A)
    → Grows id store.config change
    → HasGrown id store (commit is_written store change)
unfolding commit
commit-HasGrown is_written id store (refused error) h = tt
commit-HasGrown is_written id store (returning next a) h = h
commit-HasGrown true id store (saving next a) h = h
commit-HasGrown false id store (saving next a) h = tt

pub adopted-HasGrown :
    (is_written : Bool) (id : Text) (store : RouterConfigStore)
    → HasGrown id store (commit is_written store (set_dnat_desired id true store.config))
adopted-HasGrown is_written id store =
    commit-HasGrown is_written id store _ (set_dnat_desired-Grows id store.config)

pub All-IsDesired :
    (id : Text) (old devices : List RouterDeviceEntry) (ids : List Text)
    → IsGrown id old devices
    → All (IsDesired old) ids
    → All (IsDesired devices) (ids ++ (id ∷ []))
All-IsDesired id old devices [] (own, others) h = (own, tt)
All-IsDesired id old devices (other ∷ ids) (own, others) (k, h) =
    (others other k, All-IsDesired id old devices ids (own, others) h)
