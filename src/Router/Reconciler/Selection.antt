-- ===== src/Router/Reconciler/Selection.antt =====
-- Which entries a cycle is to adopt and to put back, without the code's own tests.
use rethink.Common.{
  ◌≢◌, arith, none, some, ap, split_if, ◌≡◌, refl, inl, inr, Bool, true, false, Option, List, [],
  ◌∷◌, Bool-cases,
}
use rethink.Mqtt.Topic.{Text}
use rethink.Router.Store.{Mode, dnat, local, RouterDeviceEntry}
use rethink.Router.Reconciler.{
  DnatState, dnat_on, dnat_off, dnat_partial, dnat_unknown, is_on, is_desired, is_undecided,
  is_forwarded, filter_entries, is_adoptable, is_wanted,
}

-- Some of the entries, in their order: those that have a property, and no others.
pub data Selects (P : RouterDeviceEntry → Type 0)
    : List RouterDeviceEntry → List RouterDeviceEntry → Type 0 where
  end : Selects P [] []
  takes :
      {entry : RouterDeviceEntry} {entries selected : List RouterDeviceEntry}
      → P entry
      → Selects P entries selected
      → Selects P (entry ∷ entries) (entry ∷ selected)
  leaves :
      {entry : RouterDeviceEntry} {entries selected : List RouterDeviceEntry}
      → (¬ P entry)
      → Selects P entries selected
      → Selects P (entry ∷ entries) selected

-- The user wants the entry forwarded, it is neither local nor released, and the router does not
-- forward it.
abbrev pub IsWanted : (Text → Bool) → (Text → Option DnatState) → RouterDeviceEntry → Type 0
IsWanted released states entry =
    (entry.dnat_desired ≡ some true)
    × (entry.mode ≢ some local)
    × (released entry.entry_id ≡ false)
    × (states entry.entry_id ≢ some dnat_on)

-- The user has not said anything of the entry, and the router forwards it.
abbrev pub IsUndecided : (Text → Option DnatState) → RouterDeviceEntry → Type 0
IsUndecided states entry = (entry.dnat_desired ≡ none) × (states entry.entry_id ≡ some dnat_on)

abbrev pub entry_ids : List RouterDeviceEntry → List Text
entry_ids [] = []
entry_ids (entry ∷ entries) = entry.entry_id ∷ entry_ids entries

pub filter_entries-Selects :
    (test : RouterDeviceEntry → Bool) (P : RouterDeviceEntry → Type 0)
    (entries : List RouterDeviceEntry)
    → ((entry : RouterDeviceEntry) → test entry ≡ true → P entry)
    → ((entry : RouterDeviceEntry) → test entry ≡ false → ¬ P entry)
    → Selects P entries (filter_entries test entries)
filter_entries-Selects test P [] pass fail = Selects.end
filter_entries-Selects test P (entry ∷ entries) pass fail =
    let rest = filter_entries-Selects test P entries pass fail in
    split_if (Selects P (entry ∷ entries)) (test entry) _ _ (λ e. Selects.takes (pass entry e) rest)
      (λ e. Selects.leaves (fail entry e) rest)

is_on-eq : (s : Option DnatState) → is_on s ≡ true → s ≡ some dnat_on
is_on-eq (some dnat_on) h = refl
is_on-eq (some dnat_off) h = cc
is_on-eq (some dnat_partial) h = cc
is_on-eq (some dnat_unknown) h = cc
is_on-eq none h = cc

is_desired-eq : (d : Option Bool) → is_desired d ≡ true → d ≡ some true
is_desired-eq none h = cc
is_desired-eq (some d) h = ap some h

is_undecided-eq : (d : Option Bool) → is_undecided d ≡ true → d ≡ none
is_undecided-eq none h = refl
is_undecided-eq (some d) h = cc

-- The mode of an entry, as `is_forwarded` looks at it.
abbrev forwards : Option Mode → Bool
forwards mode = elim mode [ none ↦ true | some m ↦ elim m [ dnat ↦ true | local ↦ false ] ]

forwards-apart : (mode : Option Mode) → forwards mode ≡ true → mode ≢ some local
forwards-apart none h e = cc
forwards-apart (some dnat) h e = cc
forwards-apart (some local) h e = cc

apart-forwards : (mode : Option Mode) → mode ≢ some local → forwards mode ≡ true
apart-forwards none h = refl
apart-forwards (some dnat) h = refl
apart-forwards (some local) h = absurd (h refl)

pub is_wanted-IsWanted :
    (released : Text → Bool) (states : Text → Option DnatState) (entry : RouterDeviceEntry)
    → is_wanted released states entry ≡ true
    → IsWanted released states entry
unfolding is_forwarded
is_wanted-IsWanted released states entry h =
    let off : is_on (states entry.entry_id) ≡ false = ground arith in
    (
      is_desired-eq entry.dnat_desired (ground arith),
      forwards-apart entry.mode (ground arith),
      ground arith,
      λ e. let on : is_on (states entry.entry_id) ≡ true = rw e refl in cc,
    )

pub unwanted-IsWanted :
    (released : Text → Bool) (states : Text → Option DnatState) (entry : RouterDeviceEntry)
    → is_wanted released states entry ≡ false
    → ¬ IsWanted released states entry
unfolding is_forwarded
unwanted-IsWanted released states entry h (desired, mode, free, off) =
    let forwarded : is_forwarded entry ≡ true = apart-forwards entry.mode mode in
    let wanted : is_desired entry.dnat_desired ≡ true = rw desired refl in
    elim (Bool-cases (is_on (states entry.entry_id))) [
      | inl e ↦ off (is_on-eq (states entry.entry_id) e)
      | inr e ↦
          let all : is_wanted released states entry ≡ true = rw (wanted, forwarded, free, e) refl in
          cc
    ]

pub is_adoptable-IsUndecided :
    (states : Text → Option DnatState) (entry : RouterDeviceEntry)
    → is_adoptable states entry ≡ true
    → IsUndecided states entry
is_adoptable-IsUndecided states entry h = (
  is_undecided-eq entry.dnat_desired (ground arith),
  is_on-eq (states entry.entry_id) (ground arith),
)

pub unadoptable-IsUndecided :
    (states : Text → Option DnatState) (entry : RouterDeviceEntry)
    → is_adoptable states entry ≡ false
    → ¬ IsUndecided states entry
unadoptable-IsUndecided states entry h (undecided, on) =
    let all : is_adoptable states entry ≡ true = rw (undecided, on) refl in cc
