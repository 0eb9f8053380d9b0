-- ===== src/Mqtt/Access/Decisions.antt =====
-- The decisions of `DeviceMQTTAccess`: `connect`, `publish`, `subscribe`, `deliver`, `disconnect`.
pub mod Safety
pub mod Exclusive
mod Tests
use rethink.Common.{
  ℕ, zero, suc, ◌+◌, ◌-◌, ◌*◌, ◌/◌, ◌%◌, ◌^◌, ◌≤◌, ◌<◌, min, bit_xor, ◌≡◌, refl, sym, ap, ◌∙◌,
  ◌≡⟨◌⟩◌, ◌∎, ◌≢◌, ◌↔◌, ◌⊎◌, inl, inr, Bool, true, false, not, ◌&&◌, ◌||◌, Option, none, some, List,
  [], ◌∷◌, ◌++◌, map, append-nil, append_assoc, arith, ltb, leb, ◌==◌, ==_iff, if◌then◌else◌,
  Bool-cases, Option-cases, all_below, all_below_sound, length, get_elem?, get_or, take, drop,
  concat, length-append, length-drop, length-take, take-append_le, drop-append_le, take_length,
  drop_length, All, All-append, All-drop, All-take, drop-get_elem?, get_elem?-eq-none,
  get_elem?_past, drop_past, bit_xor-zero, bit_xor_self, bit_xor-lt, bit_xor_bytes, bit_xor_words,
  bit_xor_comm, bit_xor_cancel, zero-bit_xor,
}
use rethink.Mqtt.Topic.{Text, text_eq, is_empty}
use rethink.Mqtt.Table.{lookup, put, delete}
use rethink.Mqtt.Broker.{Packet}
use rethink.Mqtt.Access.{
  InventoryEntry, DeviceTopic, ApplianceSession, Session, appliance, diagnostic, Claim, Access,
  is_false, is_thinq1, is_lime, is_provisioning, is_defined, is_truthy, has_text, filter, only,
  current, bind,
}
use rethink.Mqtt.Access.Topics.{parse_device_topic, payload_did, is_safe_device_id}

-- A diagnostic account as the constructor keeps it, with the digests of its name and password.
pub record Account : Type 0 where
  pub user : Text
  pub pass : Text
  pub ids : List Text
  pub write : Bool

-- `current` on a client's session, with the session as it leaves it put back.
pub current_of : List InventoryEntry → Text → ApplianceSession → Access → Access × Bool
current_of entries client session access =
    let (session', entry) = current entries session in
    (
      record access { sessions = put client (appliance session') access.sessions },
      elim entry [ none ↦ false | some e ↦ true ],
    )

-- `topic.deviceId === session.id`
abbrev pub is_own : Text → Option Text → Bool
is_own device_id none = false
is_own device_id (some id) = text_eq device_id id

-- The account whose digests are those given; a later one wins.
abbrev pub matched : Text → Text → List Account → Option Account
matched user pass [] = none
matched user pass (account ∷ accounts) = elim (matched user pass accounts) [
  | some later ↦ some later
  | none ↦ if text_eq user account.user && text_eq pass account.pass then some account else none
]

-- What `connect` reads of a connect packet.
pub record ConnectPacket : Type 0 where
  pub username : Option Text
  pub password : Option Text
  pub will : Option Packet

abbrev pub has_will : Option Packet → Bool
has_will none = false
has_will (some will) = true

-- The first part of `connect`; `digest` is the hash of `createHash`.
pub connect_diagnostic :
    (Text → Text) → List Account → Bool → Bool → ConnectPacket → Text → Access → Access × Bool
connect_diagnostic digest accounts tls aborted packet client access = elim packet.username [
  | none ↦ (access, false)
  | some username ↦ elim packet.password [
    | none ↦ (access, false)
    | some password ↦
        if not tls || (is_empty password || has_will packet.will)
        then (access, false)
        else elim (matched (digest username) (digest password) accounts) [
          | none ↦ (access, false)
          | some account ↦ if aborted then (access, false) else (
            record access {
              sessions = put client (diagnostic account.ids account.write) access.sessions;
            },
            true,
          )
        ]
  ]
]

-- The test of `connect` on the entry found.
abbrev pub is_unusable : List InventoryEntry → InventoryEntry → Bool
is_unusable entries entry =
    is_empty entry.entry_id
    || (is_thinq1 entry.platform
        || (is_false entry.auto_link
            || (not (
                  length (
                    filter (λ (other : InventoryEntry). text_eq other.entry_id entry.entry_id)
                      entries)
                  == 1)
                || elim entry.device_id [ none ↦ false | some id ↦ not (is_safe_device_id id) ])))

module _ (byte_length : Text → ℕ) (json_did : Text → Option Text) where
  -- The appliance's part of `publish`.
  pub publish_appliance :
      List InventoryEntry → Text → ApplianceSession → DeviceTopic → Access → Access × Bool
  publish_appliance entries client session topic access =
      let (after, is_current) = current_of entries client session access in
      if not is_current || is_lime topic.kind
      then (after, false)
      else if not (is_truthy session.id) && not (is_provisioning topic.kind)
      then (after, false)
      else bind entries (current entries session).0 client topic.device_id after

  -- `publish`
  pub publish : List InventoryEntry → Packet → Text → Access → Access × Bool
  publish entries packet client access = elim (lookup client access.sessions) [
    | none ↦ (access, false)
    | some session ↦ elim (parse_device_topic byte_length packet.topic) [
      | none ↦ (access, false)
      | some topic ↦ elim (payload_did json_did packet.payload) [
        | none ↦ (access, false)
        | some did ↦ if not (text_eq did topic.device_id) then (access, false) else elim session [
          | diagnostic ids write ↦ (
            access,
            write && (not packet.retain && (is_lime topic.kind && has_text ids topic.device_id)),
          )
          | appliance own ↦ publish_appliance entries client own topic access
        ]
      ]
    ]
  ]

  -- `subscribe`
  pub subscribe : List InventoryEntry → Text → Text → Access → Access × Bool
  subscribe entries topic_name client access = elim (lookup client access.sessions) [
    | none ↦ (access, false)
    | some session ↦ elim (parse_device_topic byte_length topic_name) [
      | none ↦ (access, false)
      | some topic ↦ elim session [
        | diagnostic ids write ↦ (access, has_text ids topic.device_id)
        | appliance own ↦
            if not (is_lime topic.kind)
            then (access, false)
            else bind entries own client topic.device_id access
      ]
    ]
  ]

  -- `deliver`
  pub deliver : List InventoryEntry → Text → Text → Access → Access × Bool
  deliver entries topic_name client access = elim (lookup client access.sessions) [
    | none ↦ (access, false)
    | some session ↦ elim (parse_device_topic byte_length topic_name) [
      | none ↦ (access, false)
      | some topic ↦ elim session [
        | diagnostic ids write ↦ (access, has_text ids topic.device_id)
        | appliance own ↦
            let (after, is_current) = current_of entries client own access in
            (after, is_current && (is_lime topic.kind && is_own topic.device_id own.id))
      ]
    ]
  ]

abbrev pub remove_client : Text → List Text → List Text
remove_client client clients = filter (λ other. not (text_eq other client)) clients

-- `claims` after `disconnect` of a client of the entry.
pub drop_claim : Text → Text → List (Text × Claim) → List (Text × Claim)
drop_claim client entry_id claims = elim (lookup entry_id claims) [
  | none ↦ claims
  | some claim ↦
      let left = remove_client client claim.clients in
      if length left == 0
      then delete entry_id claims
      else put entry_id (record claim { clients = left }) claims
]

-- `disconnect`
pub disconnect : Text → Access → Access
disconnect client access =
    let claims : List (Text × Claim) = elim (lookup client access.sessions) [
      | none ↦ access.claims
      | some session ↦ elim session [
        | diagnostic ids write ↦ access.claims
        | appliance own ↦ drop_claim client own.entry_id access.claims
      ]
    ] in
    record { sessions = delete client access.sessions; claims = claims }

-- A call of the policy, with the inventory and the address found at that time.
pub data Question : Type 0 where
  connects :
      (Text → Text)
      → List Account
      → Bool
      → Bool
      → List InventoryEntry
      → Option Text
      → ConnectPacket
      → Text
      → Question
  publishes : List InventoryEntry → Packet → Text → Question
  subscribes : List InventoryEntry → Text → Text → Question
  is_sent : List InventoryEntry → Text → Text → Question
  disconnects : Text → Question

module _ (byte_length : Text → ℕ) (json_did : Text → Option Text) where
  -- The branch `if (packet.will)` of `connect`; the session is read again, as `bind` may have changed it.
  pub connect_will : List InventoryEntry → Packet → Text → Access → Access × Bool
  connect_will entries will client access = elim (parse_device_topic byte_length will.topic) [
    | none ↦ (access, false)
    | some topic ↦ elim (lookup client access.sessions) [
      | none ↦ (access, false)
      | some session ↦ elim session [
        | diagnostic ids write ↦ (access, false)
        | appliance own ↦
            if is_lime topic.kind
            then (access, false)
            else let (bound, ok) = bind entries own client topic.device_id access in
              if not ok
              then (bound, false)
              else publish byte_length json_did entries will client bound
      ]
    ]
  ]

  -- The second part of `connect`, from the address that was found on.
  pub connect_appliance :
      List InventoryEntry → Option Text → Bool → ConnectPacket → Text → Access → Access × Bool
  connect_appliance entries address aborted packet client access = elim address [
    | none ↦ (access, false)
    | some ip ↦
        if is_empty ip || aborted
        then (access, false)
        else elim (only (filter (λ (entry : InventoryEntry). text_eq entry.ip ip) entries)) [
          | none ↦ (access, false)
          | some entry ↦
              let session : ApplianceSession = record {
                entry_id = entry.entry_id;
                ip = ip;
                id = entry.device_id;
                linked = is_truthy entry.device_id;
                revoked = false;
              } in
              let seen : Access = record access {
                sessions = put client (appliance session) access.sessions;
              } in
              let bound : Access × Bool = elim entry.device_id [
                | none ↦ (seen, true)
                | some id ↦
                    if is_empty id then (seen, true) else bind entries session client id seen
              ] in
              if is_unusable entries entry
              then (access, false)
              else if not bound.1
              then (bound.0, false)
              else elim packet.will [
                | none ↦ (bound.0, true)
                | some will ↦ connect_will entries will client bound.0
              ]
        ]
  ]

  -- `connect`
  pub connect :
      (Text → Text)
      → List Account
      → Bool
      → Bool
      → List InventoryEntry
      → Option Text
      → ConnectPacket
      → Text
      → Access
      → Access × Bool
  connect digest accounts tls aborted entries address packet client access =
      if is_defined packet.username || is_defined packet.password
      then connect_diagnostic digest accounts tls aborted packet client access
      else connect_appliance entries address aborted packet client access

  pub answer : Question → Access → Access × Bool
  answer (connects digest accounts tls aborted entries address packet client) access =
      connect digest accounts tls aborted entries address packet client access
  answer (publishes entries packet client) access =
      publish byte_length json_did entries packet client access
  answer (subscribes entries topic client) access =
      subscribe byte_length json_did entries topic client access
  answer (is_sent entries topic client) access =
      deliver byte_length json_did entries topic client access
  answer (disconnects client) access = (disconnect client access, true)

  pub answers : List Question → Access → Access
  answers [] access = access
  answers (question ∷ questions) access = answers questions (answer question access).0
