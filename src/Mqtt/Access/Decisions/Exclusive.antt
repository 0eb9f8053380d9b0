-- ===== src/Mqtt/Access/Decisions/Exclusive.antt =====
-- The decisions of the access policy and exclusive claims.
use rethink.Common.{
  ℕ, ◌≡◌, refl, inl, inr, Bool, true, false, not, ◌&&◌, ◌||◌, Option, none, some, List, [], ◌∷◌,
  ◌==◌, if◌then◌else◌, Bool-cases, length,
}
use rethink.Mqtt.Topic.{Text, text_eq}
use rethink.Mqtt.Table.{lookup, put}
use rethink.Mqtt.Broker.{Packet}
use rethink.Mqtt.Access.{
  only, filter, InventoryEntry, ApplianceSession, Session, appliance, diagnostic, Claim, Access,
  is_lime, is_defined, is_truthy, is_provisioning, current, bind,
}
use rethink.Mqtt.Access.Topics.{parse_device_topic, payload_did}
use rethink.Mqtt.Topic.{is_empty}
use rethink.Mqtt.Access.Claims.{HasClaims, bind-HasClaims}
use rethink.Mqtt.Access.Claims.Change.{put-HasClaims, delete-HasClaims}
use rethink.Mqtt.Access.Decisions.{
  drop_claim, current_of, Question, connects, publishes, subscribes, is_sent, disconnects, answer,
  answers, is_unusable, has_will, matched, publish_appliance, publish, subscribe, deliver, Account,
  ConnectPacket, connect_diagnostic, connect_will, connect_appliance, connect, disconnect,
  remove_client,
}
use rethink.Mqtt.Access.Decisions.Safety.{by_if, by_option, by_session, current_of-HasClaims}

by_claims :
    {A : Type 0} (o : Option A) (claims : List (Text × Claim)) (f : A → List (Text × Claim))
    → HasClaims claims
    → ((a : A) → o ≡ some a → HasClaims (f a))
    → let result : List (Text × Claim) = elim o [ none ↦ claims | some a ↦ f a ] in HasClaims result
by_claims none claims f h k = h
by_claims (some a) claims f h k = k a refl

by_owner :
    (session : Session) (claims : List (Text × Claim)) (f : ApplianceSession → List (Text × Claim))
    → HasClaims claims
    → ((own : ApplianceSession) → HasClaims (f own))
    → let result : List (Text × Claim) = elim session [
      | diagnostic ids write ↦ claims
      | appliance own ↦ f own
    ] in
      HasClaims result
by_owner (diagnostic ids write) claims f h k = h
by_owner (appliance own) claims f h k = k own

module _ (byte_length : Text → ℕ) (json_did : Text → Option Text) where
  publish-HasClaims :
      (entries : List InventoryEntry) (packet : Packet) (client : Text) (access : Access)
      → HasClaims access.claims
      → HasClaims (publish byte_length json_did entries packet client access).0.claims
  unfolding publish publish_appliance
  publish-HasClaims entries packet client access h =
      let P : Access × Bool → Type 0 = λ r. HasClaims r.0.claims in
      by_option P (lookup client access.sessions) (access, false) _ h
        (λ session found.
          by_option P (parse_device_topic byte_length packet.topic) (access, false) _ h
            (λ topic parsed.
              by_option P (payload_did json_did packet.payload) (access, false) _ h
                (λ did said.
                  by_if P (not (text_eq did topic.device_id)) _ _ (λ e. h)
                    (λ same.
                      by_session P session _ _ (λ ids write e. h)
                        (λ own e.
                          let seen = current_of entries client own access in
                          let still = current_of-HasClaims entries client own access h in
                          by_if P (not seen.1 || is_lime topic.kind) _ _ (λ f. still)
                            (λ f.
                              by_if P (not (is_truthy own.id) && not (is_provisioning topic.kind)) _
                                _ (λ g. still)
                                (λ g.
                                  bind-HasClaims entries (current entries own).0 client
                                    topic.device_id seen.0 still)))))))

  subscribe-HasClaims :
      (entries : List InventoryEntry) (topic_name client : Text) (access : Access)
      → HasClaims access.claims
      → HasClaims (subscribe byte_length json_did entries topic_name client access).0.claims
  unfolding subscribe
  subscribe-HasClaims entries topic_name client access h =
      let P : Access × Bool → Type 0 = λ r. HasClaims r.0.claims in
      by_option P (lookup client access.sessions) (access, false) _ h
        (λ session found.
          by_option P (parse_device_topic byte_length topic_name) (access, false) _ h
            (λ topic parsed.
              by_session P session _ _ (λ ids write e. h)
                (λ own e.
                  by_if P (not (is_lime topic.kind)) _ _ (λ f. h)
                    (λ f. bind-HasClaims entries own client topic.device_id access h))))

  deliver-HasClaims :
      (entries : List InventoryEntry) (topic_name client : Text) (access : Access)
      → HasClaims access.claims
      → HasClaims (deliver byte_length json_did entries topic_name client access).0.claims
  unfolding deliver
  deliver-HasClaims entries topic_name client access h =
      let P : Access × Bool → Type 0 = λ r. HasClaims r.0.claims in
      by_option P (lookup client access.sessions) (access, false) _ h
        (λ session found.
          by_option P (parse_device_topic byte_length topic_name) (access, false) _ h
            (λ topic parsed.
              by_session P session _ _ (λ ids write e. h)
                (λ own e. current_of-HasClaims entries client own access h)))

  connect_will-HasClaims :
      (entries : List InventoryEntry) (will : Packet) (client : Text) (access : Access)
      → HasClaims access.claims
      → HasClaims (connect_will byte_length json_did entries will client access).0.claims
  unfolding connect_will
  connect_will-HasClaims entries will client access h =
      let P : Access × Bool → Type 0 = λ r. HasClaims r.0.claims in
      by_option P (parse_device_topic byte_length will.topic) (access, false) _ h
        (λ topic parsed.
          by_option P (lookup client access.sessions) (access, false) _ h
            (λ session found.
              by_session P session _ _ (λ ids write e. h)
                (λ own e.
                  by_if P (is_lime topic.kind) _ _ (λ f. h)
                    (λ f.
                      let bound = bind entries own client topic.device_id access in
                      let still = bind-HasClaims entries own client topic.device_id access h in
                      by_if P (not bound.1) _ _ (λ g. still)
                        (λ g. publish-HasClaims entries will client bound.0 still)))))

  connect_diagnostic-HasClaims :
      (digest : Text → Text) (accounts : List Account) (tls aborted : Bool) (packet : ConnectPacket)
      (client : Text) (access : Access)
      → HasClaims access.claims
      → HasClaims (connect_diagnostic digest accounts tls aborted packet client access).0.claims
  unfolding connect_diagnostic
  connect_diagnostic-HasClaims digest accounts tls aborted packet client access h =
      let P : Access × Bool → Type 0 = λ r. HasClaims r.0.claims in
      by_option P packet.username (access, false) _ h
        (λ username e.
          by_option P packet.password (access, false) _ h
            (λ password f.
              by_if P (not tls || (is_empty password || has_will packet.will)) _ _ (λ g. h)
                (λ g.
                  by_option P (matched (digest username) (digest password) accounts) (access, false)
                    _ h (λ account k. by_if P aborted _ _ (λ l. h) (λ l. h)))))

  connect_appliance-HasClaims :
      (entries : List InventoryEntry) (address : Option Text) (aborted : Bool)
      (packet : ConnectPacket) (client : Text) (access : Access)
      → HasClaims access.claims
      → HasClaims
          (connect_appliance byte_length json_did entries address aborted packet client
            access).0.claims
  unfolding connect_appliance
  connect_appliance-HasClaims entries address aborted packet client access h =
      let P : Access × Bool → Type 0 = λ r. HasClaims r.0.claims in
      by_option P address (access, false) _ h
        (λ ip e.
          by_if P (is_empty ip || aborted) _ _ (λ f. h)
            (λ f.
              by_option P (only (filter (λ (entry : InventoryEntry). text_eq entry.ip ip) entries))
                (access, false) _ h
                (λ entry g.
                  let session : ApplianceSession = record {
                    entry_id = entry.entry_id;
                    ip = ip;
                    id = entry.device_id;
                    linked = is_truthy entry.device_id;
                    revoked = false;
                  } in
                  let seen : Access = record access {
                    sessions = put client (appliance session) access.sessions;
                  } in
                  let bound : Access × Bool = elim entry.device_id [
                    | none ↦ (seen, true)
                    | some id ↦
                        if is_empty id then (seen, true) else bind entries session client id seen
                  ] in
                  let still : P bound =
                    by_option P entry.device_id (seen, true) _ h
                      (λ id k.
                        by_if P (is_empty id) _ _ (λ l. h)
                          (λ l. bind-HasClaims entries session client id seen h)) in
                  by_if P (is_unusable entries entry) _ _ (λ k. h)
                    (λ k.
                      by_if P (not bound.1) _ _ (λ l. still)
                        (λ l.
                          by_option P packet.will (bound.0, true) _ still
                            (λ will m.
                              connect_will-HasClaims entries will client bound.0 still))))))

  drop_claim-HasClaims :
      (client entry_id : Text) (claims : List (Text × Claim))
      → HasClaims claims
      → HasClaims (drop_claim client entry_id claims)
  unfolding drop_claim
  drop_claim-HasClaims client entry_id claims h =
      by_claims (lookup entry_id claims) claims _ h (λ claim e.
        elim (Bool-cases (length (remove_client client claim.clients) == 0)) [
          | inl f ↦ rw f (delete-HasClaims entry_id claims h)
          | inr f ↦
              rw f (put-HasClaims entry_id claim (remove_client client claim.clients) claims h e)
        ])

  disconnect-HasClaims :
      (client : Text) (access : Access)
      → HasClaims access.claims
      → HasClaims (disconnect client access).claims
  unfolding disconnect
  disconnect-HasClaims client access h =
      by_claims (lookup client access.sessions) access.claims _ h (λ session e.
        by_owner session access.claims _ h
          (λ own. drop_claim-HasClaims client own.entry_id access.claims h))

  answer-HasClaims :
      (question : Question) (access : Access)
      → HasClaims access.claims
      → HasClaims (answer byte_length json_did question access).0.claims
  unfolding answer connect
  answer-HasClaims (connects digest accounts tls aborted entries address packet client) access h =
      by_if (λ r. HasClaims r.0.claims) (is_defined packet.username || is_defined packet.password) _
        _ (λ e. connect_diagnostic-HasClaims digest accounts tls aborted packet client access h)
        (λ e. connect_appliance-HasClaims entries address aborted packet client access h)
  answer-HasClaims (publishes entries packet client) access h =
      publish-HasClaims entries packet client access h
  answer-HasClaims (subscribes entries topic client) access h =
      subscribe-HasClaims entries topic client access h
  answer-HasClaims (is_sent entries topic client) access h =
      deliver-HasClaims entries topic client access h
  answer-HasClaims (disconnects client) access h = disconnect-HasClaims client access h

  -- Whatever the policy is asked, in whatever order and with whatever inventory at each time: no entry has
  -- two claims, and no device is claimed for two entries, if it was so before.
  pub answers-HasClaims :
      (questions : List Question) (access : Access)
      → HasClaims access.claims
      → HasClaims (answers byte_length json_did questions access).claims
  unfolding answers
  answers-HasClaims [] access h = h
  answers-HasClaims (question ∷ questions) access h =
      answers-HasClaims questions (answer byte_length json_did question access).0
        (answer-HasClaims question access h)
