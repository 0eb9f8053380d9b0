-- ===== src/Thinq2/Acceptor/Return.antt =====
-- A device that drops its registration and announces itself again.
use rethink.Common.{ℕ, ◌≡◌, refl, ap, ◌∙◌, true, ◌&&◌, none, some}
use rethink.Mqtt.Topic.{Text, text_eq}
use rethink.Mqtt.Topic.Matching.{text_eq_refl}
use rethink.Mqtt.Table.{lookup, lookup-put}
use rethink.Mqtt.Access.Topics.{is_safe_device_id}
use rethink.Thinq2.Messages.{ClipMessage, metadata_of}
use rethink.Thinq2.Acceptor.{
  DeviceObj, ClientExtra, Acceptor, UtcDate, disconnected, undeploy, announce, Surroundings,
  drop_existing, register, complete_provisioning, allows, allows_device,
}
use rethink.Thinq2.Acceptor.Registry.{IsRegistered, put_client_same}
use rethink.Thinq2.Acceptor.Steps.{disconnected-gone}

-- The device that a client gets for an announcement.
abbrev pub device_of : Surroundings → ℕ → ClipMessage → DeviceObj
device_of around c deploy = record {
  id = deploy.did;
  meta = metadata_of deploy;
  source_ip = around.source_ip c;
  deploy_profile = deploy;
}

undeployed :
    (id : Text) (c : ℕ) (a : Acceptor)
    → (allows (a.clients c).deploy_msg id && allows_device (a.clients c).device_obj id) ≡ true
    → (undeploy id c a).clients c ≡ record { device_obj = none; deploy_msg = none }
unfolding undeploy
undeployed id c a fits =
    let nobody = disconnected-gone c a in
    rw fits (
      put_client_same c
        (record { device_obj = ((disconnected c a).clients c).device_obj; deploy_msg = none })
        (disconnected c a).clients
      ∙ rw nobody refl)

announced :
    (mid : ℕ) (deploy : ClipMessage) (c : ℕ) (a : Acceptor)
    → a.clients c ≡ record { device_obj = none; deploy_msg = none }
    → (announce mid deploy c a).clients c ≡ record { device_obj = none; deploy_msg = some deploy }
unfolding announce
announced mid deploy c a e =
    rw e (put_client_same c (record { device_obj = none; deploy_msg = some deploy }) a.clients)

completed :
    (around : Surroundings) (mid : ℕ) (now : UtcDate) (deploy : ClipMessage) (c : ℕ) (a : Acceptor)
    → a.clients c ≡ record { device_obj = none; deploy_msg = some deploy }
    → is_safe_device_id deploy.did ≡ true
    → let b = complete_provisioning around mid now deploy.did c a in
      (lookup deploy.did b.clients_by_id ≡ some c)
      × ((b.clients c).device_obj ≡ some (device_of around c deploy))
unfolding complete_provisioning register
completed around mid now deploy c a e safe =
    let before = drop_existing around mid now (lookup deploy.did a.clients_by_id) a in
    let same : text_eq deploy.did deploy.did ≡ true = text_eq_refl deploy.did in
    let s : ClientExtra = record {
      device_obj = some (device_of around c deploy);
      deploy_msg = some deploy;
    } in
    let told : (a.clients c).deploy_msg ≡ some deploy = ap ClientExtra.deploy_msg e in
    let free : (a.clients c).device_obj ≡ none = ap ClientExtra.device_obj e in
    rw (safe, told, same, free)
      (
        lookup-put deploy.did deploy.did c before.clients_by_id ∙ rw same refl,
        ap ClientExtra.device_obj (put_client_same c s before.clients),
      )

-- A registered device that sends `undeploy`, then a new announcement, then the acknowledgement is
-- registered again under the same client, with the new announcement as its profile. The id is one that
-- topics may name.
pub undeploy-complete_provisioning :
    (around : Surroundings) (mid : ℕ) (now : UtcDate) (deploy : ClipMessage) (dev : DeviceObj)
    (c : ℕ) (a : Acceptor)
    → IsRegistered a
    → (a.clients c).device_obj ≡ some dev
    → dev.id ≡ deploy.did
    → is_safe_device_id deploy.did ≡ true
    → let b =
        complete_provisioning around mid now deploy.did c
          (announce mid deploy c (undeploy deploy.did c a)) in
      (lookup deploy.did b.clients_by_id ≡ some c)
      × ((b.clients c).device_obj ≡ some (device_of around c deploy))
undeploy-complete_provisioning around mid now deploy dev c a h e named safe =
    let (found, profile, own) = h.held c dev e in
    let first : text_eq dev.deploy_profile.did deploy.did ≡ true =
      rw (own, named) (text_eq_refl deploy.did) in
    let second : text_eq dev.id deploy.did ≡ true = rw named (text_eq_refl deploy.did) in
    let fits : (allows (a.clients c).deploy_msg deploy.did
          && allows_device (a.clients c).device_obj deploy.did)
        ≡ true =
      rw (profile, e, first, second) refl in
    let left = undeployed deploy.did c a fits in
    let told = announced mid deploy c (undeploy deploy.did c a) left in
    completed around mid now deploy c (announce mid deploy c (undeploy deploy.did c a)) told safe
