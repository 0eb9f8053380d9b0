-- ===== src/Thinq2/Acceptor/Steps.antt =====
-- Each message and disconnection, on the registry.
use mathlib.Core.Path.{subst}
use rethink.Common.{
  ℕ, ◌≡◌, refl, sym, ap, ◌∙◌, inl, inr, true, false, ◌&&◌, Option, none, some, arith, ◌==◌,
  Bool-cases, split_if, split_option,
}
use rethink.Mqtt.Topic.{Text}
use rethink.Mqtt.Topic.Matching.{text_eq→eq}
use rethink.Mqtt.Table.{lookup}
use rethink.Thinq2.Messages.{ClipMessage}
use rethink.Thinq2.Acceptor.{
  DeviceObj, ClientExtra, Acceptor, put_client, disconnected, allows, allows_device, undeploy,
  with_profile, announce,
}
use rethink.Thinq2.Acceptor.Registry.{
  registered, IsOrderly, IsRegistered, IsLocal, by_client, same_client, some_inj,
  disconnected-IsRegistered,
}

-- What an operation for a client does: the registry stays in order, and only that client's fields change.
abbrev pub IsStep : ℕ → Acceptor → Acceptor → Type 0
IsStep c a b = IsRegistered b × IsLocal c a b

put_client-IsLocal :
    (c : ℕ) (s : ClientExtra) (a : Acceptor) (j : ℕ)
    → (c == j) ≡ false
    → put_client c s a.clients j ≡ a.clients j
put_client-IsLocal c s a j e = rw e refl

pub disconnected-IsLocal : (c : ℕ) (a : Acceptor) → IsLocal c a (disconnected c a)
unfolding disconnected
disconnected-IsLocal c a =
    split_option (IsLocal c a) (a.clients c).device_obj _ _ (λ e j apart. refl)
      (λ dev e j apart. rw apart refl)

pub disconnected-gone : (c : ℕ) (a : Acceptor) → ((disconnected c a).clients c).device_obj ≡ none
unfolding disconnected
disconnected-gone c a =
    split_option (λ (r : Acceptor). (r.clients c).device_obj ≡ none) (a.clients c).device_obj _ _
      (λ e. e) (λ dev e. let yes : (c == c) ≡ true = ground arith in rw yes refl)

-- A client without a device that forgets its announcement.
forget-IsRegistered :
    (c : ℕ) (a : Acceptor)
    → IsRegistered a
    → (a.clients c).device_obj ≡ none
    → IsRegistered (record a {
      clients =
          put_client c
            (record { device_obj = (a.clients c).device_obj; deploy_msg = none })
            a.clients;
    })
forget-IsRegistered c a h e =
    let s : ClientExtra = record { device_obj = (a.clients c).device_obj; deploy_msg = none } in
    record {
      names = h.names;
      indexed = λ id j there.
          let (d, p, q) = h.indexed id j there in
          elim (Bool-cases (c == j)) [
            | inl same ↦
                let f : (a.clients c).device_obj ≡ some d =
                  subst (λ k. (a.clients k).device_obj ≡ some d) (same_client c j same) p in
                let wrong = sym e ∙ f in cc
            | inr other ↦ (d, rw other p, q)
          ];
      held = λ j d.
          by_client
            (λ k r.
              r.device_obj ≡ some d
              → (lookup d.id a.clients_by_id ≡ some k)
                × (r.deploy_msg ≡ some d.deploy_profile)
                × (d.deploy_profile.did ≡ d.id))
            c s a.clients j (λ p. let wrong = sym e ∙ p in cc) (λ apart p. h.held j d p);
      told = h.told;
      orderly = h.orderly;
    }

pub undeploy-IsStep :
    (did : Text) (c : ℕ) (a : Acceptor) → IsRegistered a → IsStep c a (undeploy did c a)
unfolding undeploy
undeploy-IsStep did c a h =
    split_if (IsStep c a)
      (allows (a.clients c).deploy_msg did && allows_device (a.clients c).device_obj did) _ _
      (λ e. (
        forget-IsRegistered c (disconnected c a) (disconnected-IsRegistered c a h)
            (disconnected-gone c a),
        λ j apart. rw apart (disconnected-IsLocal c a j apart),
      ))
      (λ e. (h, λ j apart. refl))

-- What `with_profile` leaves of a device.
with_profile_lem :
    (deploy : ClipMessage) (device : Option DeviceObj) (d : DeviceObj)
    → with_profile deploy device ≡ some d
    → (old : DeviceObj) × (device ≡ some old) × (d.id ≡ old.id) × (d.deploy_profile ≡ deploy)
with_profile_lem deploy none d e = cc
with_profile_lem deploy (some old) d e =
    let same = sym (some_inj e) in
    (old, refl, ap DeviceObj.id same, ap DeviceObj.deploy_profile same)

with_profile_back :
    (deploy : ClipMessage) (device : Option DeviceObj) (old : DeviceObj)
    → device ≡ some old
    → with_profile deploy device ≡ some (record old { deploy_profile = deploy })
with_profile_back deploy device old e = rw e refl

allows_device_lem :
    (device : Option DeviceObj) (did : Text) (dev : DeviceObj)
    → allows_device device did ≡ true
    → device ≡ some dev
    → dev.id ≡ did
allows_device_lem none did dev test e = cc
allows_device_lem (some old) did dev test e =
    sym (ap DeviceObj.id (some_inj e)) ∙ text_eq→eq old.id did test

pub announce-IsStep :
    (mid : ℕ) (deploy : ClipMessage) (c : ℕ) (a : Acceptor)
    → IsRegistered a
    → IsStep c a (announce mid deploy c a)
unfolding announce registered IsOrderly
announce-IsStep mid deploy c a h =
    let s : ClientExtra = record {
      device_obj = with_profile deploy (a.clients c).device_obj;
      deploy_msg = some deploy;
    } in
    split_if (IsStep c a)
      (allows (a.clients c).deploy_msg deploy.did
        && allows_device (a.clients c).device_obj deploy.did)
      _ _
      (λ e. (
        record {
          names = h.names;
          indexed = λ id j there.
              let (d, p, q) = h.indexed id j there in
              elim (Bool-cases (c == j)) [
                | inl same ↦
                    let f : (a.clients c).device_obj ≡ some d =
                      subst (λ k. (a.clients k).device_obj ≡ some d) (same_client c j same) p in
                    (
                      record d { deploy_profile = deploy },
                      rw same (with_profile_back deploy (a.clients c).device_obj d f),
                      q,
                    )
                | inr other ↦ (d, rw other p, q)
              ];
          held = λ j d.
              by_client
                (λ k r.
                  r.device_obj ≡ some d
                  → (lookup d.id a.clients_by_id ≡ some k)
                    × (r.deploy_msg ≡ some d.deploy_profile)
                    × (d.deploy_profile.did ≡ d.id))
                c s a.clients j
                (λ p.
                  let (old, was, id_same, profile) =
                    with_profile_lem deploy (a.clients c).device_obj d p in
                  let there = (h.held c old was).0 in
                  let own =
                    allows_device_lem (a.clients c).device_obj deploy.did old (ground arith) was in
                  (
                    rw id_same there,
                    ap some (sym profile),
                    ap ClipMessage.did profile ∙ sym own ∙ sym id_same,
                  ))
                (λ apart p. h.held j d p);
          told = h.told;
          orderly = h.orderly;
        },
        λ j apart. rw apart refl,
      ))
      (λ e. (h, λ j apart. refl))
