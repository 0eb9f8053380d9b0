-- ===== src/Thinq2/Acceptor/Reached.antt =====
-- The registry in every state that the acceptor reaches.
use mathlib.Core.Path.{subst}
use rethink.Common.{
  ℕ, ◌≡◌, refl, sym, ap, ◌∙◌, inl, inr, true, false, none, some, List, [], ◌∷◌, ◌==◌, if◌then◌else◌,
  Bool-cases, split_if, split_option,
}
use rethink.Mqtt.Topic.{Text, text_eq}
use rethink.Mqtt.Topic.Matching.{text_eq→eq, text_eq_refl}
use rethink.Mqtt.Table.{lookup, put, lookup-put, put-IsTable}
use rethink.Mqtt.Access.Topics.{is_safe_device_id}
use rethink.Thinq2.Messages.{Json, ClipMessage, metadata_of}
use rethink.Thinq2.Acceptor.{
  DeviceObj, ClientExtra, Acceptor, UtcDate, Surroundings, drop_existing, register,
  complete_provisioning, mqtt, no_clients, AcceptorEvent, published, gone, accept_event, accept_all,
}
use rethink.Thinq2.Acceptor.Registry.{
  registered, IsOrderly, IsRegistered, by_client, put_client_same, same_client, some_inj,
  disconnected-IsRegistered,
}
use rethink.Thinq2.Acceptor.Runs.{drop_existing_lem, mqtt_with_lem}

module _ (around : Surroundings) where
  pub register-IsRegistered :
      (id : Text) (deploy : ClipMessage) (c : ℕ) (a : Acceptor)
      → IsRegistered a
      → (a.clients c).device_obj ≡ none
      → lookup id a.clients_by_id ≡ none
      → deploy.did ≡ id
      → IsRegistered (register around id deploy c a)
  unfolding register registered IsOrderly
  register-IsRegistered id deploy c a h free missing own =
      let dev : DeviceObj = record {
        id = id;
        meta = metadata_of deploy;
        source_ip = around.source_ip c;
        deploy_profile = deploy;
      } in
      let s : ClientExtra = record { device_obj = some dev; deploy_msg = some deploy } in
      record {
        names = put-IsTable id c a.clients_by_id h.names;
        indexed = λ i k there.
            let read = sym (lookup-put id i c a.clients_by_id) ∙ there in
            elim (Bool-cases (text_eq id i)) [
              | inl same ↦
                  let mine : k ≡ c = sym (some_inj (rw same at read)) in
                  (dev, rw (mine, put_client_same c s a.clients) refl, text_eq→eq id i same)
              | inr apart ↦
                  let (d, p, q) = h.indexed i k (rw apart at read) in
                  elim (Bool-cases (c == k)) [
                    | inl same ↦
                        let f : (a.clients c).device_obj ≡ some d =
                          subst (λ n. (a.clients n).device_obj ≡ some d) (same_client c k same) p in
                        let wrong = sym free ∙ f in cc
                    | inr other ↦ (d, rw other p, q)
                  ]
            ];
        held = λ j d.
            by_client
              (λ k r.
                r.device_obj ≡ some d
                → (lookup d.id (put id c a.clients_by_id) ≡ some k)
                  × (r.deploy_msg ≡ some d.deploy_profile)
                  × (d.deploy_profile.did ≡ d.id))
              c s a.clients j
              (λ p.
                let same = some_inj p in
                let yes : text_eq id id ≡ true = text_eq_refl id in
                subst
                  (λ e.
                    (lookup e.id (put id c a.clients_by_id) ≡ some c)
                    × (some deploy ≡ some e.deploy_profile)
                    × (e.deploy_profile.did ≡ e.id))
                  same (lookup-put id id c a.clients_by_id ∙ rw yes refl, refl, own))
              (λ apart p.
                let (found, announced, mine) = h.held j d p in
                let other : text_eq id d.id ≡ false = elim (Bool-cases (text_eq id d.id)) [
                  | inl same ↦
                      let wrong : lookup id a.clients_by_id ≡ some j =
                        subst (λ n. lookup n a.clients_by_id ≡ some j)
                          (sym (text_eq→eq id d.id same)) found in
                      let clash = sym missing ∙ wrong in cc
                  | inr e ↦ e
                ] in
                (lookup-put id d.id c a.clients_by_id ∙ rw other found, announced, mine));
        told = λ i.
            ap (λ o. if text_eq id i then some c else o) (h.told i)
            ∙ sym (lookup-put id i c a.clients_by_id);
        orderly = (h.told id ∙ missing, h.orderly);
      }

  module _ (mid : ℕ) (now : UtcDate) where
    complete_provisioning-IsRegistered :
        (id : Text) (c : ℕ) (a : Acceptor)
        → IsRegistered a
        → IsRegistered (complete_provisioning around mid now id c a)
    unfolding complete_provisioning
    complete_provisioning-IsRegistered id c a h =
        split_if IsRegistered (is_safe_device_id id) _ _
          (λ e.
            split_option IsRegistered (a.clients c).deploy_msg _ _ (λ f. h)
              (λ deploy f.
                split_if IsRegistered (text_eq deploy.did id) _ _
                  (λ g.
                    split_option IsRegistered (a.clients c).device_obj
                      (register around id deploy c
                        (drop_existing around mid now (lookup id a.clients_by_id) a))
                      (λ device. a)
                      (λ free.
                        let (kept, free_after, missing) =
                          drop_existing_lem around mid now id c a (lookup id a.clients_by_id) h refl
                            free in
                        register-IsRegistered id deploy c _ kept free_after missing
                          (text_eq→eq deploy.did id g))
                      (λ device busy. h))
                  (λ g. h)))
          (λ e. h)

    mqtt-IsRegistered :
        (topic : Text) (payload : Json) (c : ℕ) (a : Acceptor)
        → IsRegistered a
        → IsRegistered (mqtt around mid now topic payload c a)
    unfolding mqtt
    mqtt-IsRegistered topic payload c a h =
        mqtt_with_lem (complete_provisioning around mid now) c a IsRegistered (λ b s. s.0)
          (λ id. complete_provisioning-IsRegistered id c a h) h around mid now topic payload

  accept_all-IsRegistered :
      (events : List AcceptorEvent) (a : Acceptor)
      → IsRegistered a
      → IsRegistered (accept_all around events a)
  unfolding accept_all accept_event
  accept_all-IsRegistered [] a h = h
  accept_all-IsRegistered (published mid now topic payload c ∷ events) a h =
      accept_all-IsRegistered events _ (mqtt-IsRegistered mid now topic payload c a h)
  accept_all-IsRegistered (gone c ∷ events) a h =
      accept_all-IsRegistered events _ (disconnected-IsRegistered c a h)

pub no_clients-IsRegistered : IsRegistered no_clients
unfolding lookup registered IsOrderly
no_clients-IsRegistered = record {
  names = tt;
  indexed = λ id c there. cc;
  held = λ c dev e. cc;
  told = λ id. refl;
  orderly = tt;
}

reached :
    (around : Surroundings) (events : List AcceptorEvent)
    → IsRegistered (accept_all around events no_clients)
reached around events = accept_all-IsRegistered around events no_clients no_clients-IsRegistered

-- Whatever clients send and whenever they go, the index reads as what listeners were told: a device is
-- in it under the client for which it was last announced as new, and out of it once it was dropped. A
-- device is announced as new only while it is not there and dropped only while it is, and whatever is
-- passed on as from a device came from the client that it is registered for.
pub accept_all-registered :
    (around : Surroundings) (events : List AcceptorEvent)
    → let a = accept_all around events no_clients in
      ((id : Text) → lookup id a.clients_by_id ≡ registered id a.out) × IsOrderly a.out
accept_all-registered around events =
    let h = reached around events in (λ id. sym (h.told id), h.orderly)

-- Whatever clients send and whenever they go, two clients never have devices with the same id, a client
-- that has a device is the one in the index under its id, and the profile that the device has is the
-- client's last announcement, which names that id.
pub accept_all_exclusive :
    (around : Surroundings) (events : List AcceptorEvent) (c j : ℕ) (dev other : DeviceObj)
    → ((accept_all around events no_clients).clients c).device_obj ≡ some dev
    → ((accept_all around events no_clients).clients j).device_obj ≡ some other
    → dev.id ≡ other.id
    → (c ≡ j)
      × (lookup dev.id (accept_all around events no_clients).clients_by_id ≡ some c)
      × (((accept_all around events no_clients).clients c).deploy_msg ≡ some dev.deploy_profile)
      × (dev.deploy_profile.did ≡ dev.id)
accept_all_exclusive around events c j dev other e f same =
    let a = accept_all around events no_clients in
    let h = reached around events in
    let (found, announced, own) = h.held c dev e in
    let second : lookup dev.id a.clients_by_id ≡ some j =
      subst (λ n. lookup n a.clients_by_id ≡ some j) (sym same) (h.held j other f).0 in
    (some_inj (sym found ∙ second), found, announced, own)
