-- ===== src/Mqtt/Access.antt =====
-- cloud/mqtt-access.ts and cloud/device_id.ts: who may publish, subscribe and be sent what.
pub mod Topics
pub mod Claims
pub mod Decisions
use rethink.Common.{
  ℕ, zero, suc, ◌+◌, ◌-◌, ◌*◌, ◌/◌, ◌%◌, ◌^◌, ◌≤◌, ◌<◌, min, bit_xor, ◌≡◌, refl, sym, ap, ◌∙◌,
  ◌≡⟨◌⟩◌, ◌∎, ◌≢◌, ◌↔◌, ◌⊎◌, inl, inr, Bool, true, false, not, ◌&&◌, ◌||◌, Option, none, some, List,
  [], ◌∷◌, ◌++◌, map, append-nil, append_assoc, arith, ltb, leb, ◌==◌, ==_iff, if◌then◌else◌,
  Bool-cases, Option-cases, all_below, all_below_sound, length, get_elem?, get_or, take, drop,
  concat, length-append, length-drop, length-take, take-append_le, drop-append_le, take_length,
  drop_length, All, All-append, All-drop, All-take, drop-get_elem?, get_elem?-eq-none,
  get_elem?_past, drop_past, bit_xor-zero, bit_xor_self, bit_xor-lt, bit_xor_bytes, bit_xor_words,
  bit_xor_comm, bit_xor_cancel, zero-bit_xor,
}
use rethink.Mqtt.Topic.{Text, text_eq, includes, is_empty, split_slash}
use rethink.Mqtt.Table.{lookup, put, delete}

pub data Platform : Type 0 where
  thinq1 thinq2 : Platform

-- `MQTTInventoryEntry`
pub record InventoryEntry : Type 0 where
  pub entry_id : Text
  pub ip : Text
  pub device_id : Option Text
  pub auto_link : Option Bool
  pub platform : Option Platform

pub data TopicKind : Type 0 where
  lime message provisioning : TopicKind

-- What `parseDeviceTopic` returns.
pub record DeviceTopic : Type 0 where
  pub kind : TopicKind
  pub device_id : Text

-- `ApplianceSession`
pub record ApplianceSession : Type 0 where
  pub entry_id : Text
  pub ip : Text
  pub id : Option Text
  pub linked : Bool
  pub revoked : Bool

pub data Session : Type 0 where
  appliance : ApplianceSession → Session
  diagnostic : List Text → Bool → Session

-- A value of `claims`.
pub record Claim : Type 0 where
  pub id : Text
  pub clients : List Text

-- `sessions` and `claims`; a client is known by a text.
pub record Access : Type 0 where
  pub sessions : List (Text × Session)
  pub claims : List (Text × Claim)

abbrev pub option_eq : Option Text → Option Text → Bool
option_eq none none = true
option_eq (some a) (some b) = text_eq a b
option_eq none (some b) = false
option_eq (some a) none = false

abbrev pub is_defined : Option Text → Bool
is_defined none = false
is_defined (some a) = true

-- `!!value`
abbrev pub is_truthy : Option Text → Bool
is_truthy none = false
is_truthy (some a) = not (is_empty a)

abbrev pub is_false : Option Bool → Bool
is_false (some false) = true
is_false value = false

abbrev pub is_thinq1 : Option Platform → Bool
is_thinq1 (some thinq1) = true
is_thinq1 platform = false

abbrev pub is_lime : TopicKind → Bool
is_lime lime = true
is_lime kind = false

abbrev pub is_provisioning : TopicKind → Bool
is_provisioning provisioning = true
is_provisioning kind = false

abbrev pub has_text : List Text → Text → Bool
has_text [] text = false
has_text (other ∷ texts) text = text_eq other text || has_text texts text

abbrev pub filter : {A : Type 0} → (A → Bool) → List A → List A
filter test [] = []
filter test (x ∷ xs) = if test x then x ∷ filter test xs else filter test xs

abbrev pub some_of : {A : Type 0} → (A → Bool) → List A → Bool
some_of test [] = false
some_of test (x ∷ xs) = test x || some_of test xs

-- `matches.length === 1 ? matches[0] : undefined`
abbrev pub only : {A : Type 0} → List A → Option A
only (x ∷ []) = some x
only xs = none

-- The test of `current` on the entry found.
pub is_stale : List InventoryEntry → ApplianceSession → InventoryEntry → Bool
is_stale entries session entry =
    not (text_eq entry.ip session.ip)
    || (is_false entry.auto_link
        || (is_thinq1 entry.platform
            || (not (
                  length (filter (λ (other : InventoryEntry). text_eq other.ip session.ip) entries)
                  == 1)
                || ((is_defined entry.device_id
                      && (is_defined session.id && not (option_eq entry.device_id session.id)))
                    || ((session.linked && not (option_eq entry.device_id session.id))
                        || (is_truthy session.id
                            && some_of
                                (λ (other : InventoryEntry).
                                  not (text_eq other.entry_id session.entry_id)
                                  && option_eq other.device_id session.id)
                                entries))))))

-- `current`: the session as it leaves it, and the entry.
pub current : List InventoryEntry → ApplianceSession → ApplianceSession × Option InventoryEntry
current entries session =
    if session.revoked
    then (session, none)
    else elim (only
        (filter (λ (entry : InventoryEntry). text_eq entry.entry_id session.entry_id) entries)) [
          | none ↦ (record session { revoked = true }, none)
          | some entry ↦
              if is_stale entries session entry
              then (record session { revoked = true }, none)
              else if is_truthy entry.device_id && is_truthy session.id
              then (record session { linked = true }, some entry)
              else (session, some entry)
        ]

-- The body of the inner loop of `bind`: the sessions, and whether the client keeps its claim.
pub sweep_client : List InventoryEntry → Text → List (Text × Session) → List (Text × Session) × Bool
sweep_client entries client sessions = elim (lookup client sessions) [
  | none ↦ (sessions, false)
  | some session ↦ elim session [
    | diagnostic ids write ↦ (sessions, false)
    | appliance prior ↦
        let (prior', entry) = current entries prior in
        (put client (appliance prior') sessions, elim entry [ none ↦ false | some e ↦ true ])
  ]
]

pub sweep_clients :
    List InventoryEntry → List Text → List (Text × Session) → List (Text × Session) × List Text
sweep_clients entries [] sessions = (sessions, [])
sweep_clients entries (client ∷ clients) sessions =
    let (sessions', keeps) = sweep_client entries client sessions in
    let (sessions'', kept) = sweep_clients entries clients sessions' in
    (sessions'', if keeps then client ∷ kept else kept)

-- The outer loop of `bind`.
pub sweep :
    List InventoryEntry
    → List (Text × Claim)
    → List (Text × Session)
    → List (Text × Session) × List (Text × Claim)
sweep entries [] sessions = (sessions, [])
sweep entries ((entry_id, claim) ∷ claims) sessions =
    let (sessions', clients) = sweep_clients entries claim.clients sessions in
    let (sessions'', rest) = sweep entries claims sessions' in
    (
      sessions'',
      if length clients == 0 then rest else (entry_id, record claim { clients = clients }) ∷ rest,
    )

-- `[...claims].some(([entryId, claim]) => entryId !== session.entryId && claim.id === id)`
abbrev pub claimed_elsewhere : Text → Text → List (Text × Claim) → Bool
claimed_elsewhere entry_id id [] = false
claimed_elsewhere entry_id id ((other, claim) ∷ claims) =
    (not (text_eq other entry_id) && text_eq claim.id id) || claimed_elsewhere entry_id id claims

abbrev pub add_client : Text → List Text → List Text
add_client client clients = if has_text clients client then clients else clients ++ (client ∷ [])

-- The first test of `bind`, on the entry that `current` returns.
pub is_refused : List InventoryEntry → ApplianceSession → Text → InventoryEntry → Bool
is_refused entries session id entry =
    (is_defined entry.device_id && not (option_eq entry.device_id (some id)))
    || ((is_defined session.id && not (option_eq session.id (some id)))
        || some_of
            (λ (other : InventoryEntry).
              not (text_eq other.entry_id session.entry_id) && option_eq other.device_id (some id))
            entries)

-- `claim && claim.id !== id`
abbrev pub has_other_id : Text → Option Claim → Bool
has_other_id id none = false
has_other_id id (some claim) = not (text_eq claim.id id)

-- The claim with the client added, or a new one.
abbrev pub renewed : Text → Text → Option Claim → Claim
renewed client id none = record { id = id; clients = client ∷ [] }
renewed client id (some claim) = record claim { clients = add_client client claim.clients }

-- The end of `bind`: the claim is made, and the session of the client is given the id. The loops
-- before it may have changed the flags of that session.
pub take_claim : Text → Text → Text → InventoryEntry → Access → Access
take_claim client entry_id id entry access =
    let claims = put entry_id (renewed client id (lookup entry_id access.claims)) access.claims in
    let sessions : List (Text × Session) = elim (lookup client access.sessions) [
      | none ↦ access.sessions
      | some session ↦ elim session [
        | diagnostic ids write ↦ access.sessions
        | appliance own ↦
            put client
              (appliance
                (record own { id = some id; linked = own.linked || is_truthy entry.device_id }))
              access.sessions
      ]
    ] in
    record { sessions = sessions; claims = claims }

-- `bind`, for the session that the client has in `sessions`.
pub bind : List InventoryEntry → ApplianceSession → Text → Text → Access → Access × Bool
bind entries session client id access =
    let (session', found) = current entries session in
    let seen : Access = record access {
      sessions = put client (appliance session') access.sessions;
    } in
    elim found [
      | none ↦ (seen, false)
      | some entry ↦
          let (sessions, claims) = sweep entries seen.claims seen.sessions in
          let swept : Access = record { sessions = sessions; claims = claims } in
          if is_refused entries session' id entry
          then (seen, false)
          else if claimed_elsewhere session.entry_id id claims
              || has_other_id id (lookup session.entry_id claims)
          then (swept, false)
          else (take_claim client session.entry_id id entry swept, true)
    ]
