-- ===== src/Thinq2/Acceptor/Registry.antt =====
-- The index of devices, the clients' own fields and what the listeners were told, kept together.
use mathlib.Core.Path.{subst}
use rethink.Common.{
  ℕ, ◌≡◌, refl, sym, ap, ◌∙◌, inl, inr, true, false, Option, none, some, List, [], ◌∷◌, arith, ◌==◌,
  if◌then◌else◌, Bool-cases, split_if, split_option,
}
use rethink.Mqtt.Topic.{Text, text_eq}
use rethink.Mqtt.Topic.Matching.{text_eq→eq, text_eq_refl}
use rethink.Mqtt.Table.{lookup, delete, IsTable, lookup-delete, delete-IsTable}
use rethink.Thinq2.Acceptor.{
  DeviceObj, ClientExtra, AcceptorOutput, new_device, drop_device, device_data, bridge_message,
  time_sync, deploy_response, Acceptor, put_client, holds, disconnected, is_device,
}

-- The client for which listeners were told that a device is there.
unfoldable pub registered : Text → List AcceptorOutput → Option ℕ
registered id [] = none
registered id (new_device c name ∷ out) = if text_eq name id then some c else registered id out
registered id (drop_device name ∷ out) = if text_eq name id then none else registered id out
registered id (device_data c name hex ∷ out) = registered id out
registered id (bridge_message c name msg ∷ out) = registered id out
registered id (time_sync c name bytes ∷ out) = registered id out
registered id (deploy_response topic response ∷ out) = registered id out

-- A device is new only while it is not there and dropped only while it is, and what it sends comes from
-- the client that it is registered for.
unfoldable pub IsOrderly : List AcceptorOutput → Type 0
IsOrderly [] = Unit
IsOrderly (new_device c id ∷ out) = (registered id out ≡ none) × IsOrderly out
IsOrderly (drop_device id ∷ out) = ((c : ℕ) × (registered id out ≡ some c)) × IsOrderly out
IsOrderly (device_data c id hex ∷ out) = (registered id out ≡ some c) × IsOrderly out
IsOrderly (bridge_message c id msg ∷ out) = (registered id out ≡ some c) × IsOrderly out
IsOrderly (time_sync c id bytes ∷ out) = (registered id out ≡ some c) × IsOrderly out
IsOrderly (deploy_response topic response ∷ out) = IsOrderly out

-- The index leads to a client whose device has that id; a client's device is in the index under its
-- client, and has the profile that the client announced, which is for that id; the index reads as what
-- listeners were told.
pub record IsRegistered (a : Acceptor) : Type 0 where
  pub names : IsTable a.clients_by_id
  pub indexed :
      (id : Text) (c : ℕ)
      → lookup id a.clients_by_id ≡ some c
      → (dev : DeviceObj) × ((a.clients c).device_obj ≡ some dev) × (dev.id ≡ id)
  pub held :
      (c : ℕ) (dev : DeviceObj)
      → (a.clients c).device_obj ≡ some dev
      → (lookup dev.id a.clients_by_id ≡ some c)
        × ((a.clients c).deploy_msg ≡ some dev.deploy_profile)
        × (dev.deploy_profile.did ≡ dev.id)
  pub told : (id : Text) → registered id a.out ≡ lookup id a.clients_by_id
  pub orderly : IsOrderly a.out

-- Nothing but one client's own fields changes.
abbrev pub IsLocal : ℕ → Acceptor → Acceptor → Type 0
IsLocal c a b = (j : ℕ) → (c == j) ≡ false → b.clients j ≡ a.clients j

pub put_client_same : (c : ℕ) (s : ClientExtra) (f : ℕ → ClientExtra) → put_client c s f c ≡ s
put_client_same c s f = let e : (c == c) ≡ true = ground arith in rw e refl

pub same_client : (c j : ℕ) → (c == j) ≡ true → j ≡ c
same_client c j e = ground arith

-- A client's fields after a change, by whose client they are.
pub by_client :
    (P : ℕ → ClientExtra → Type 0) (c : ℕ) (s : ClientExtra) (f : ℕ → ClientExtra) (j : ℕ)
    → P c s
    → ((c == j) ≡ false → P j (f j))
    → P j (put_client c s f j)
by_client P c s f j own other =
    split_if (P j) (c == j) _ _ (λ e. subst (λ k. P k s) (sym (same_client c j e)) own) other

pub some_inj : {A : Type 0} {x y : A} → some x ≡ some y → x ≡ y
some_inj {x} e = ap (λ o. elim o [ none ↦ x | some v ↦ v ]) e

-- What a client is told beside the index leaves the index as it is.
module _ (a : Acceptor) (h : IsRegistered a) where
  pub tell :
      (output : AcceptorOutput)
      → ((id : Text) → registered id (output ∷ a.out) ≡ registered id a.out)
      → (IsOrderly a.out → IsOrderly (output ∷ a.out))
      → IsRegistered (record a { out = output ∷ a.out })
  tell output same next = record {
    names = h.names;
    indexed = h.indexed;
    held = h.held;
    told = λ id. same id ∙ h.told id;
    orderly = next h.orderly;
  }

  own_device :
      (c : ℕ) (dev : DeviceObj)
      → (a.clients c).device_obj ≡ some dev
      → registered dev.id a.out ≡ some c
  own_device c dev e = h.told dev.id ∙ (h.held c dev e).0

  pub is_device_lem :
      (c : ℕ) (did : Text) (device : Option DeviceObj)
      → (a.clients c).device_obj ≡ device
      → is_device device did ≡ true
      → registered did a.out ≡ some c
  is_device_lem c did none e test = cc
  is_device_lem c did (some dev) e test =
      subst (λ id. registered id a.out ≡ some c) (text_eq→eq dev.id did test) (own_device c dev e)

  -- Two devices in the index under the same client are the same.
  other_client :
      (c j : ℕ) (dev d : DeviceObj)
      → (a.clients c).device_obj ≡ some dev
      → (a.clients j).device_obj ≡ some d
      → (c == j) ≡ false
      → text_eq dev.id d.id ≡ false
  other_client c j dev d e f apart = elim (Bool-cases (text_eq dev.id d.id)) [
    | inl same ↦
        let first = (h.held c dev e).0 in
        let second = (h.held j d f).0 in
        let both : lookup dev.id a.clients_by_id ≡ some j =
          subst (λ id. lookup id a.clients_by_id ≡ some j) (sym (text_eq→eq dev.id d.id same))
            second in
        let one : some c ≡ some j = sym first ∙ both in ground (arith, one)
    | inr apart_ids ↦ apart_ids
  ]

  module _ (c : ℕ) (dev : DeviceObj) (e : (a.clients c).device_obj ≡ some dev) (gone : ClientExtra)
      (empty : gone.device_obj ≡ none) where
    left :
        (j : ℕ) (d : DeviceObj)
        → (put_client c gone a.clients j).device_obj ≡ some d
        → (lookup d.id (delete dev.id a.clients_by_id) ≡ some j)
          × ((put_client c gone a.clients j).deploy_msg ≡ some d.deploy_profile)
          × (d.deploy_profile.did ≡ d.id)
    left j d =
        by_client
          (λ k s.
            s.device_obj ≡ some d
            → (lookup d.id (delete dev.id a.clients_by_id) ≡ some k)
              × (s.deploy_msg ≡ some d.deploy_profile)
              × (d.deploy_profile.did ≡ d.id))
          c gone a.clients j (λ p. cc)
          (λ apart p.
            let (found, announced, own) = h.held j d p in
            (
              lookup-delete dev.id d.id a.clients_by_id h.names
                  ∙ rw (other_client c j dev d e p apart) found,
              announced,
              own,
            ))

    deleted :
        (id : Text) (j : ℕ)
        → lookup id (delete dev.id a.clients_by_id) ≡ some j
        → (d : DeviceObj) × ((put_client c gone a.clients j).device_obj ≡ some d) × (d.id ≡ id)
    deleted id j there =
        let read = sym (lookup-delete dev.id id a.clients_by_id h.names) ∙ there in
        elim (Bool-cases (text_eq dev.id id)) [
          | inl same ↦ let wrong = rw same at read in cc
          | inr apart ↦
              let found = rw apart at read in
              let (d, p, q) = h.indexed id j found in
              elim (Bool-cases (c == j)) [
                | inl same ↦
                    let f : (a.clients c).device_obj ≡ some d =
                      subst (λ k. (a.clients k).device_obj ≡ some d) (same_client c j same) p in
                    let one : some dev ≡ some d = sym e ∙ f in
                    let names : dev.id ≡ id = ap DeviceObj.id (some_inj one) ∙ q in
                    let yes : text_eq dev.id id ≡ true = rw names (text_eq_refl id) in cc
                | inr other ↦ (d, rw other p, q)
              ]
        ]

-- `disconnected`.
pub disconnected-IsRegistered :
    (c : ℕ) (a : Acceptor) → IsRegistered a → IsRegistered (disconnected c a)
unfolding disconnected registered IsOrderly
disconnected-IsRegistered c a h =
    split_option IsRegistered (a.clients c).device_obj _ _ (λ e. h)
      (λ dev e.
        let (found, announced, own) = h.held c dev e in
        let here : (if holds (lookup dev.id a.clients_by_id) c
              then delete dev.id a.clients_by_id
              else a.clients_by_id)
            ≡ delete dev.id a.clients_by_id =
          let yes : (c == c) ≡ true = ground arith in rw (found, yes) refl in
        let gone : ClientExtra = record {
          device_obj = none;
          deploy_msg = (a.clients c).deploy_msg;
        } in
        subst
          (λ table. IsRegistered (record {
            clients_by_id = table;
            clients = put_client c gone a.clients;
            out = drop_device dev.id ∷ a.out;
          }))
          (sym here)
          (record {
            names = delete-IsTable dev.id a.clients_by_id h.names;
            indexed = λ id j there. deleted a h c dev e gone refl id j there;
            held = λ j d there. left a h c dev e gone refl j d there;
            told = λ id.
                ap (λ o. if text_eq dev.id id then none else o) (h.told id)
                ∙ sym (lookup-delete dev.id id a.clients_by_id h.names);
            orderly = ((c, own_device a h c dev e), h.orderly);
          }))
