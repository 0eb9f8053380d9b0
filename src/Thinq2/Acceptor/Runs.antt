-- ===== src/Thinq2/Acceptor/Runs.antt =====
-- Any sequence of messages and disconnections, on the registry.
use mathlib.Core.Path.{subst}
use rethink.Common.{
  ℕ, ◌≡◌, refl, sym, ◌∙◌, inl, inr, Bool, ◌&&◌, Option, none, some, ◌∷◌, arith, ◌==◌, if◌then◌else◌,
  Bool-cases, Option-cases, split_if, split_option,
}
use rethink.Mqtt.Topic.{Text}
use rethink.Mqtt.Table.{lookup}
use rethink.Mqtt.Access.{TopicKind, message, provisioning, lime}
use rethink.Mqtt.Access.Topics.{parse_device_topic}
use rethink.Thinq2.Messages.{
  Json, ClipMessage, command_is, text_of, get, data_text, valid_message, valid_deploy_message,
  complete_provisioning_ack_text, req_timesync_text, device_packet_text, undeploy_text,
}
use rethink.Thinq2.Acceptor.{
  device_data, bridge_message, time_sync, Acceptor, UtcDate, sync_bytes, is_device, forward,
  device_message, device_provisioning, Surroundings, mqtt_with, destroy_existing, drop_existing,
}
use rethink.Thinq2.Acceptor.Registry.{
  registered, IsOrderly, IsRegistered, same_client, tell, is_device_lem, disconnected-IsRegistered,
}
use rethink.Thinq2.Acceptor.Steps.{
  IsStep, disconnected-IsLocal, disconnected-gone, undeploy-IsStep, announce-IsStep,
}

forward-IsStep :
    (msg : ClipMessage) (c : ℕ) (a : Acceptor) → IsRegistered a → IsStep c a (forward msg c a)
unfolding forward registered IsOrderly
forward-IsStep msg c a h =
    split_if (IsStep c a) (is_device (a.clients c).device_obj msg.did) _ _
      (λ e.
        let own = is_device_lem a h c msg.did (a.clients c).device_obj refl e in
        let Q : Acceptor → Type 0 = λ b.
          (IsRegistered b)
          × (registered msg.did b.out ≡ some c)
          × ((j : ℕ) → b.clients j ≡ a.clients j) in
        let after_data : Acceptor = elim (text_of (get data_text msg.fields)) [
          | none ↦ a
          | some hex ↦
              if command_is msg device_packet_text
              then record a { out = device_data c msg.did hex ∷ a.out }
              else a
        ] in
        let (sent, still, same) : Q after_data =
          split_option Q (text_of (get data_text msg.fields)) _ _ (λ f. (h, own, λ j. refl))
            (λ hex f.
              split_if Q (command_is msg device_packet_text) _ _
                (λ g. (
                  tell a h (device_data c msg.did hex) (λ id. refl) (λ before. (own, before)),
                  own,
                  λ j. refl,
                ))
                (λ g. (h, own, λ j. refl))) in
        (
          tell after_data sent (bridge_message c msg.did msg) (λ id. refl)
              (λ before. (still, before)),
          λ j apart. same j,
        ))
      (λ e. (h, λ j apart. refl))

-- A message or an announcement, given what `completeProvisioning` does.
module _ (complete : Text → ℕ → Acceptor → Acceptor) (c : ℕ) (a : Acceptor) (Q : Acceptor → Type 0)
    (from_step : (b : Acceptor) → IsStep c a b → Q b)
    (completed : (id : Text) → Q (complete id c a)) (h : IsRegistered a) where
  device_message_lem : (now : UtcDate) (msg : ClipMessage) → Q (device_message complete now msg c a)
  unfolding device_message registered IsOrderly
  device_message_lem now msg =
      split_if Q (command_is msg complete_provisioning_ack_text) _ _ (λ e. completed msg.did)
        (λ e.
          split_if Q
            (command_is msg req_timesync_text && is_device (a.clients c).device_obj msg.did) _ _
            (λ f.
              let own = is_device_lem a h c msg.did (a.clients c).device_obj refl (ground arith) in
              from_step _ (
                tell a h (time_sync c msg.did (sync_bytes now)) (λ id. refl)
                    (λ before. (own, before)),
                λ j apart. refl,
              ))
            (λ f. from_step _ (forward-IsStep msg c a h)))

  device_provisioning_lem :
      (is_white : ℕ → Bool) (mid : ℕ) (msg : ClipMessage)
      → Q (device_provisioning is_white mid msg c a)
  unfolding device_provisioning
  device_provisioning_lem is_white mid msg =
      split_if Q (command_is msg undeploy_text) _ _
        (λ e. from_step _ (undeploy-IsStep msg.did c a h))
        (λ e.
          split_option Q (valid_deploy_message is_white msg) _ _
            (λ f. from_step a (h, λ j apart. refl))
            (λ deploy f. from_step _ (announce-IsStep mid deploy c a h)))

  by_kind :
      (kind : TopicKind) (x y z : Acceptor)
      → Q x
      → Q y
      → Q z
      → let result : Acceptor = elim kind [ lime ↦ x | message ↦ y | provisioning ↦ z ] in Q result
  by_kind lime x y z p q r = p
  by_kind message x y z p q r = q
  by_kind provisioning x y z p q r = r

  pub mqtt_with_lem :
      (around : Surroundings) (mid : ℕ) (now : UtcDate) (topic : Text) (payload : Json)
      → Q (mqtt_with around mid now complete topic payload c a)
  unfolding mqtt_with
  mqtt_with_lem around mid now topic payload =
      let nothing = from_step a (h, λ j apart. refl) in
      split_option Q (parse_device_topic around.byte_length topic) _ _ (λ e. nothing)
        (λ parsed e.
          split_option Q (valid_message payload parsed.device_id) _ _ (λ f. nothing)
            (λ checked f.
              by_kind parsed.kind _ _ _ nothing (device_message_lem now checked)
                (device_provisioning_lem around.is_white mid checked)))

module _ (around : Surroundings) (mid : ℕ) (now : UtcDate) where
  will-IsStep :
      (topic : Text) (payload : Json) (c : ℕ) (a : Acceptor)
      → IsRegistered a
      → IsStep c a (mqtt_with around mid now (λ id client same. same) topic payload c a)
  will-IsStep topic payload c a h =
      mqtt_with_lem (λ id client same. same) c a (IsStep c a) (λ b s. s)
        (λ id. (h, λ j apart. refl)) h around mid now topic payload

  -- A client that is closed has no device afterwards, and the others keep theirs.
  destroy_existing_lem :
      (c : ℕ) (a : Acceptor)
      → IsRegistered a
      → IsStep c a (destroy_existing around mid now c a)
        × (((destroy_existing around mid now c a).clients c).device_obj ≡ none)
  unfolding destroy_existing
  destroy_existing_lem c a h =
      let Q : Acceptor → Type 0 = λ b. IsStep c a b × ((b.clients c).device_obj ≡ none) in
      split_option Q (around.will c) _ _
        (λ e. ((disconnected-IsRegistered c a h, disconnected-IsLocal c a), disconnected-gone c a))
        (λ will e.
          let willed = mqtt_with around mid now (λ id client same. same) will.0 will.1 c a in
          let (kept, local) = will-IsStep will.0 will.1 c a h in
          (
            (
              disconnected-IsRegistered c willed kept,
              λ j apart. disconnected-IsLocal c willed j apart ∙ local j apart,
            ),
            disconnected-gone c willed,
          ))

  -- Before a client is registered, nobody is any more.
  pub drop_existing_lem :
      (id : Text) (c : ℕ) (a : Acceptor) (existing : Option ℕ)
      → IsRegistered a
      → lookup id a.clients_by_id ≡ existing
      → (a.clients c).device_obj ≡ none
      → IsRegistered (drop_existing around mid now existing a)
        × (((drop_existing around mid now existing a).clients c).device_obj ≡ none)
        × (lookup id (drop_existing around mid now existing a).clients_by_id ≡ none)
  drop_existing_lem id c a none h e free = (h, free, e)
  drop_existing_lem id c a (some existing) h e free =
      let b = destroy_existing around mid now existing a in
      let ((kept, local), gone) = destroy_existing_lem existing a h in
      let (old, was, named) = h.indexed id existing e in
      let free_after : (b.clients c).device_obj ≡ none = elim (Bool-cases (existing == c)) [
        | inl same ↦ rw (same_client existing c same) gone
        | inr apart ↦ rw (local c apart) free
      ] in
      let missing : lookup id b.clients_by_id ≡ none =
        elim (Option-cases (lookup id b.clients_by_id)) [
          | inl nothing ↦ nothing
          | inr (j, there) ↦
              let (d, p, q) = kept.indexed id j there in
              elim (Bool-cases (existing == j)) [
                | inl same ↦
                    let here : (b.clients existing).device_obj ≡ some d =
                      subst (λ k. (b.clients k).device_obj ≡ some d) (same_client existing j same)
                        p in
                    let wrong = sym gone ∙ here in cc
                | inr apart ↦
                    let before : (a.clients j).device_obj ≡ some d =
                      subst (λ s. s.device_obj ≡ some d) (local j apart) p in
                    let found = (h.held j d before).0 in
                    let again : lookup id a.clients_by_id ≡ some j =
                      subst (λ n. lookup n a.clients_by_id ≡ some j) q found in
                    let one = sym e ∙ again in absurd (ground (arith, one, apart))
              ]
        ] in
      (kept, free_after, missing)
