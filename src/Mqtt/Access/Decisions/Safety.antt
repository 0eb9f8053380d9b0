-- ===== src/Mqtt/Access/Decisions/Safety.antt =====
-- What the access policy allows an appliance.
use rethink.Common.{
  ℕ, ◌≡◌, refl, Bool, true, false, not, ◌&&◌, ◌||◌, Option, none, some, List, [], ◌∷◌, arith, All,
  ◌↔◌, split_if, split_option, if◌then◌else◌,
}
use rethink.Mqtt.Topic.{Text, text_eq}
use rethink.Mqtt.Topic.Matching.{text_eq→eq, text_eq_refl}
use rethink.Mqtt.Table.{lookup}
use rethink.Mqtt.Broker.{Packet}
use rethink.Mqtt.Access.{
  InventoryEntry, DeviceTopic, ApplianceSession, Session, appliance, diagnostic, Claim, Access,
  is_lime, is_truthy, is_provisioning, has_text, current, bind, filter, only, is_stale,
}
use rethink.Mqtt.Access.Topics.{parse_device_topic, payload_did}
use rethink.Mqtt.Access.Claims.{HasClaims, current-entry_id, bind_lem}
use rethink.Mqtt.Access.Decisions.{current_of, is_own, publish_appliance, publish, deliver}
use mathlib.Core.Path.{subst}
use mathlib.Core.List.{Memᴰ}

-- The entry has a claim on the device, and the client is among those that it is for.
abbrev pub IsClaimed : Text → Text → Text → Access → Type 0
IsClaimed entry_id id client access =
    (claim : Claim) × (lookup entry_id access.claims ≡ some claim)
    × (claim.id ≡ id)
    × (has_text claim.clients client ≡ true)

-- The branches of a decision, one at a time.
pub by_if :
    (P : Access × Bool → Type 0) (test : Bool) (x y : Access × Bool)
    → (test ≡ true → P x)
    → (test ≡ false → P y)
    → P (if test then x else y)
by_if P true x y a b = a refl
by_if P false x y a b = b refl

pub by_option :
    {A : Type 0} (P : Access × Bool → Type 0) (o : Option A) (x : Access × Bool)
    (f : A → Access × Bool)
    → P x
    → ((a : A) → o ≡ some a → P (f a))
    → let result : Access × Bool = elim o [ none ↦ x | some a ↦ f a ] in P result
by_option P none x f a b = a
by_option P (some v) x f a b = b v refl

pub by_session :
    (P : Access × Bool → Type 0) (s : Session) (d : List Text → Bool → Access × Bool)
    (f : ApplianceSession → Access × Bool)
    → ((ids : List Text) (write : Bool) → s ≡ diagnostic ids write → P (d ids write))
    → ((own : ApplianceSession) → s ≡ appliance own → P (f own))
    → let result : Access × Bool = elim s [
      | diagnostic ids write ↦ d ids write
      | appliance own ↦ f own
    ] in
      P result
by_session P (diagnostic ids write) d f a b = a ids write refl
by_session P (appliance own) d f a b = b own refl

is_own-eq : (device_id : Text) (id : Option Text) → is_own device_id id ≡ true → id ≡ some device_id
is_own-eq device_id none h = cc
is_own-eq device_id (some id) h = rw (text_eq→eq device_id id h) refl

-- The session was not revoked, and `current` finds an entry of the inventory with its id and address.
abbrev pub IsLive : List InventoryEntry → ApplianceSession → Type 0
IsLive entries own =
    (entry : InventoryEntry) × ((current entries own).1 ≡ some entry)
    × (own.revoked ≡ false)
    × Memᴰ entry entries
    × (entry.entry_id ≡ own.entry_id)
    × (entry.ip ≡ own.ip)

abbrev IsIn : {A : Type 0} → (A → Bool) → List A → A → Type 0
IsIn test xs x = (test x ≡ true) × Memᴰ x xs

tail-All :
    {A : Type 0} (test : A → Bool) (x : A) (xs ys : List A)
    → All (IsIn test xs) ys
    → All (IsIn test (x ∷ xs)) ys
tail-All test x xs [] h = tt
tail-All test x xs (y ∷ ys) ((e, m), h) = ((e, Memᴰ.tail m), tail-All test x xs ys h)

filter-IsIn : {A : Type 0} (test : A → Bool) (xs : List A) → All (IsIn test xs) (filter test xs)
filter-IsIn test [] = tt
filter-IsIn test (x ∷ xs) =
    let rest = tail-All test x xs (filter test xs) (filter-IsIn test xs) in
    split_if (All (IsIn test (x ∷ xs))) (test x) _ _ (λ e. ((e, Memᴰ.head refl), rest)) (λ e. rest)

only-All : {A : Type 0} (P : A → Type 0) (xs : List A) (x : A) → only xs ≡ some x → All P xs → P x
only-All P [] x e h = cc
only-All P (y ∷ []) x e (p, h) = let same : y ≡ x = ground arith in subst P same p
only-All P (y ∷ z ∷ xs) x e h = cc

is_found-IsLive :
    (entries : List InventoryEntry) (own : ApplianceSession)
    → (elim (current entries own).1 [ none ↦ false | some e ↦ true ]) ≡ true
    → IsLive entries own
unfolding current is_stale
is_found-IsLive entries own h =
    let P : ApplianceSession × Option InventoryEntry → Type 0 = λ r.
      (elim r.1 [ none ↦ false | some e ↦ true ]) ≡ true
      → (entry : InventoryEntry) × (r.1 ≡ some entry)
        × (own.revoked ≡ false)
        × Memᴰ entry entries
        × (entry.entry_id ≡ own.entry_id)
        × (entry.ip ≡ own.ip) in
    let test : InventoryEntry → Bool = λ entry. text_eq entry.entry_id own.entry_id in
    split_if P own.revoked _ _ (λ e f. cc)
      (λ valid.
        split_option P (only (filter test entries)) _ _ (λ e f. cc)
          (λ entry e.
            let (same, member) =
              only-All (IsIn test entries) _ entry e (filter-IsIn test entries) in
            let id = text_eq→eq entry.entry_id own.entry_id same in
            split_if P (is_stale entries own entry) _ _ (λ f g. cc)
              (λ f.
                let ip = text_eq→eq entry.ip own.ip (ground arith) in
                split_if P (is_truthy entry.device_id && is_truthy own.id) _ _
                  (λ g k. (entry, refl, valid, member, id, ip))
                  (λ g k. (entry, refl, valid, member, id, ip)))))
      h

pub current_of-HasClaims :
    (entries : List InventoryEntry) (client : Text) (session : ApplianceSession) (access : Access)
    → HasClaims access.claims
    → HasClaims (current_of entries client session access).0.claims
unfolding current_of
current_of-HasClaims entries client session access h = h

module _ (byte_length : Text → ℕ) (json_did : Text → Option Text)
    (entries : List InventoryEntry) where
  publish_appliance-IsClaimed :
      (client : Text) (session : ApplianceSession) (topic : DeviceTopic) (access : Access)
      → (publish_appliance byte_length json_did entries client session topic access).1 ≡ true
      → (is_lime topic.kind ≡ false)
        × IsClaimed session.entry_id topic.device_id client
            (publish_appliance byte_length json_did entries client session topic access).0
  unfolding publish_appliance
  publish_appliance-IsClaimed client session topic access h =
      let seen = current_of entries client session access in
      let after = (current entries session).0 in
      let P : Access × Bool → Type 0 = λ r.
        (r.1 ≡ true)
        → (is_lime topic.kind ≡ false) × IsClaimed session.entry_id topic.device_id client r.0 in
      by_if P (not seen.1 || is_lime topic.kind) _ _ (λ e f. cc)
        (λ e.
          by_if P (not (is_truthy session.id) && not (is_provisioning topic.kind)) _ _ (λ f g. cc)
            (λ f g. (
              ground arith,
              subst
                  (λ e.
                    IsClaimed e topic.device_id client
                      (bind entries after client topic.device_id seen.0).0)
                  (current-entry_id entries session)
                  (bind_lem entries after client topic.device_id seen.0 g),
            )))
        h

  -- If a client with an appliance's session may publish a message, its topic names a device, is not one
  -- of those that go to appliances, the message says the same device, and that device is claimed for
  -- the entry of the session and for this client.
  pub publish-IsClaimed :
      (packet : Packet) (client : Text) (own : ApplianceSession) (access : Access)
      → lookup client access.sessions ≡ some (appliance own)
      → (publish byte_length json_did entries packet client access).1 ≡ true
      → (topic : DeviceTopic) × (parse_device_topic byte_length packet.topic ≡ some topic)
        × (payload_did json_did packet.payload ≡ some topic.device_id)
        × (is_lime topic.kind ≡ false)
        × IsClaimed own.entry_id topic.device_id client
            (publish byte_length json_did entries packet client access).0
  unfolding publish
  publish-IsClaimed packet client own access h allowed =
      let P : Access × Bool → Type 0 = λ r.
        (r.1 ≡ true)
        → (topic : DeviceTopic) × (parse_device_topic byte_length packet.topic ≡ some topic)
          × (payload_did json_did packet.payload ≡ some topic.device_id)
          × (is_lime topic.kind ≡ false)
          × IsClaimed own.entry_id topic.device_id client r.0 in
      by_option P (lookup client access.sessions) (access, false) _ (λ e. cc)
        (λ session found.
          by_option P (parse_device_topic byte_length packet.topic) (access, false) _ (λ e. cc)
            (λ topic parsed.
              by_option P (payload_did json_did packet.payload) (access, false) _ (λ e. cc)
                (λ did said.
                  by_if P (not (text_eq did topic.device_id)) _ _ (λ e f. cc)
                    (λ same.
                      by_session P session _ _ (λ ids write e. cc)
                        (λ other e g.
                          let mine : other ≡ own = ground arith in
                          let agreed : did ≡ topic.device_id =
                            text_eq→eq did topic.device_id (ground arith) in
                          let (not_lime, claimed) =
                            publish_appliance-IsClaimed client other topic access g in
                          (
                            topic,
                            parsed,
                            rw (said, agreed) refl,
                            not_lime,
                            rw (← mine) claimed,
                          ))))))
        allowed

  -- What is addressed to the appliance of a session that still stands.
  abbrev pub IsAddressed : Text → ApplianceSession → Type 0
  IsAddressed topic_name own =
      (topic : DeviceTopic) × (parse_device_topic byte_length topic_name ≡ some topic)
      × (is_lime topic.kind ≡ true)
      × (own.id ≡ some topic.device_id)
      × IsLive entries own

  -- A client with an appliance's session is sent exactly what is addressed, on a topic for appliances,
  -- to the device that it is bound to, while the session was not revoked and `current` finds an entry
  -- for it, which is an entry of the inventory with the id and the address of the session. Asking
  -- changes no claim, whatever the answer.
  pub deliver_lem :
      (topic_name client : Text) (own : ApplianceSession) (access : Access)
      → lookup client access.sessions ≡ some (appliance own)
      → let (after, is_sent) = deliver byte_length json_did entries topic_name client access in
        (after.claims ≡ access.claims) × ((is_sent ≡ true) ↔ IsAddressed topic_name own)
  unfolding deliver current_of
  deliver_lem topic_name client own access h =
      rw (deliver, h)
        (split_option
          (λ (r : Access × Bool).
            (r.0.claims ≡ access.claims) × ((r.1 ≡ true) ↔ IsAddressed topic_name own))
          (parse_device_topic byte_length topic_name) _ _
          (λ e. (refl, (λ f. cc, λ (topic, parsed, lime, bound, live). cc)))
          (λ topic e. (
            refl,
            (
              λ f. (
                topic,
                e,
                ground arith,
                is_own-eq topic.device_id own.id (ground arith),
                is_found-IsLive entries own (ground arith),
              ),
              λ (other, parsed, lime, bound, (entry, found, valid, member, id, ip)).
                  let same : other ≡ topic = ground arith in
                  rw (current_of, found, ← same, lime, bound) (text_eq_refl other.device_id),
            ),
          )))
