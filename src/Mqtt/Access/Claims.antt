-- ===== src/Mqtt/Access/Claims.antt =====
-- Claims of inventory entries on devices, and `bind`.
pub mod Change
use rethink.Common.{
  ℕ, zero, suc, ◌+◌, ◌-◌, ◌*◌, ◌/◌, ◌%◌, ◌^◌, ◌≤◌, ◌<◌, min, bit_xor, ◌≡◌, refl, sym, ap, ◌∙◌,
  ◌≡⟨◌⟩◌, ◌∎, ◌≢◌, ◌↔◌, ◌⊎◌, inl, inr, Bool, true, false, not, ◌&&◌, ◌||◌, Option, none, some, List,
  [], ◌∷◌, ◌++◌, map, append-nil, append_assoc, arith, ltb, leb, ◌==◌, ==_iff, if◌then◌else◌,
  Bool-cases, Option-cases, all_below, all_below_sound, length, get_elem?, get_or, take, drop,
  concat, length-append, length-drop, length-take, take-append_le, drop-append_le, take_length,
  drop_length, All, All-append, All-drop, All-take, drop-get_elem?, get_elem?-eq-none,
  get_elem?_past, drop_past, bit_xor-zero, bit_xor_self, bit_xor-lt, bit_xor_bytes, bit_xor_words,
  bit_xor_comm, bit_xor_cancel, zero-bit_xor,
}
use rethink.Mqtt.Topic.{Text, text_eq}
use rethink.Mqtt.Topic.Matching.{text_eq→eq, text_eq_refl, text_eq_apart}
use rethink.Mqtt.Table.{
  lookup, put, delete, IsTable, put-IsTable, delete-IsTable, lookup-put, AllValues, AllValues-put,
  AllValues-delete, AllValues-lookup,
}
use rethink.Mqtt.Access.{
  InventoryEntry, ApplianceSession, Session, appliance, Claim, Access, has_text, current,
  sweep_clients, sweep, claimed_elsewhere, add_client, renewed, has_other_id, is_refused,
  take_claim, bind,
}

abbrev pub Other : Text → Claim → Type 0
Other id claim = text_eq claim.id id ≡ false

-- No id is claimed twice.
abbrev pub IsExclusive : List (Text × Claim) → Type 0
IsExclusive [] = Unit
IsExclusive ((entry_id, claim) ∷ claims) = AllValues (Other claim.id) claims × IsExclusive claims

abbrev pub HasClaims : List (Text × Claim) → Type 0
HasClaims claims = IsTable claims × IsExclusive claims

module _ (entries : List InventoryEntry) where
  sweep-lookup :
      (k : Text) (claims : List (Text × Claim)) (sessions : List (Text × Session))
      → lookup k claims ≡ none
      → lookup k (sweep entries claims sessions).1 ≡ none
  unfolding sweep lookup
  sweep-lookup k [] sessions h = refl
  sweep-lookup k ((e, claim) ∷ claims) sessions h =
      let first = sweep_clients entries claim.clients sessions in
      elim (Bool-cases (text_eq e k)) [
        | inl same ↦ ground arith
        | inr apart ↦
            let rest = sweep-lookup k claims first.0 (ground arith) in
            elim (Bool-cases (length first.1 == 0)) [
              | inl f ↦ rw f rest
              | inr f ↦ rw (f, apart) rest
            ]
      ]

  sweep-AllValues :
      (id : Text) (claims : List (Text × Claim)) (sessions : List (Text × Session))
      → AllValues (Other id) claims
      → AllValues (Other id) (sweep entries claims sessions).1
  unfolding sweep
  sweep-AllValues id [] sessions h = tt
  sweep-AllValues id ((e, claim) ∷ claims) sessions (other, h) =
      let first = sweep_clients entries claim.clients sessions in
      let rest = sweep-AllValues id claims first.0 h in
      elim (Bool-cases (length first.1 == 0)) [ inl f ↦ rw f rest | inr f ↦ rw f (other, rest) ]

  -- The loops of `bind` only take claims away.
  pub sweep-HasClaims :
      (claims : List (Text × Claim)) (sessions : List (Text × Session))
      → HasClaims claims
      → HasClaims (sweep entries claims sessions).1
  unfolding sweep
  sweep-HasClaims [] sessions h = h
  sweep-HasClaims ((e, claim) ∷ claims) sessions ((fresh, table), (others, exclusive)) =
      let first = sweep_clients entries claim.clients sessions in
      let rest = sweep-HasClaims claims first.0 (table, exclusive) in
      elim (Bool-cases (length first.1 == 0)) [
        | inl f ↦ rw f rest
        | inr f ↦ rw f (
          (sweep-lookup e claims first.0 fresh, rest.0),
          (sweep-AllValues claim.id claims first.0 others, rest.1),
        )
      ]

claimed_elsewhere-apart :
    (k id : Text) (claims : List (Text × Claim))
    → lookup k claims ≡ none
    → claimed_elsewhere k id claims ≡ false
    → AllValues (Other id) claims
unfolding lookup
claimed_elsewhere-apart k id [] h c = tt
claimed_elsewhere-apart k id ((e, claim) ∷ claims) h c = elim (Bool-cases (text_eq e k)) [
  | inl same ↦ ground arith
  | inr apart ↦ (ground arith, claimed_elsewhere-apart k id claims (ground arith) (ground arith))
]

pub put-IsExclusive :
    (k : Text) (claim : Claim) (claims : List (Text × Claim))
    → IsTable claims
    → IsExclusive claims
    → claimed_elsewhere k claim.id claims ≡ false
    → IsExclusive (put k claim claims)
unfolding put
put-IsExclusive k claim [] table h c = (tt, tt)
put-IsExclusive k claim ((e, other) ∷ claims) (fresh, table) (others, h) c =
    elim (Bool-cases (text_eq e k)) [
      | inl same ↦
          let gone : lookup k claims ≡ none = rw (← text_eq→eq e k same) fresh in
          rw same (claimed_elsewhere-apart k claim.id claims gone (ground arith), h)
      | inr apart ↦
          let differs : text_eq other.id claim.id ≡ false = ground arith in
          rw apart (
            AllValues-put (Other other.id) k claim claims others
                (text_eq_apart other.id claim.id differs),
            put-IsExclusive k claim claims table h (ground arith),
          )
    ]

renewed_id :
    (client id : Text) (o : Option Claim)
    → has_other_id id o ≡ false
    → (renewed client id o).id ≡ id
renewed_id client id none h = refl
renewed_id client id (some claim) h = text_eq→eq claim.id id (ground arith)

has_text-snoc : (texts : List Text) (text : Text) → has_text (texts ++ (text ∷ [])) text ≡ true
has_text-snoc [] text = rw (text_eq_refl text) refl
has_text-snoc (other ∷ texts) text = elim (Bool-cases (text_eq other text)) [
  | inl e ↦ rw e refl
  | inr e ↦ rw e (has_text-snoc texts text)
]

has_text-add_client :
    (client : Text) (clients : List Text) → has_text (add_client client clients) client ≡ true
has_text-add_client client clients = elim (Bool-cases (has_text clients client)) [
  | inl e ↦ rw e e
  | inr e ↦ rw e (has_text-snoc clients client)
]

has_text-renewed :
    (client id : Text) (o : Option Claim) → has_text (renewed client id o).clients client ≡ true
has_text-renewed client id none = rw (text_eq_refl client) refl
has_text-renewed client id (some claim) = has_text-add_client client claim.clients

take_claim-HasClaims :
    (client entry_id id : Text) (entry : InventoryEntry) (access : Access)
    → HasClaims access.claims
    → claimed_elsewhere entry_id id access.claims ≡ false
    → has_other_id id (lookup entry_id access.claims) ≡ false
    → HasClaims (take_claim client entry_id id entry access).claims
unfolding take_claim
take_claim-HasClaims client entry_id id entry access (table, exclusive) elsewhere own =
    let claim = renewed client id (lookup entry_id access.claims) in
    (
      put-IsTable entry_id claim access.claims table,
      put-IsExclusive entry_id claim access.claims table exclusive
          (rw (renewed_id client id (lookup entry_id access.claims) own) elsewhere),
    )

-- The three ways out of `bind`.
by_entry :
    (P : Access × Bool → Type 0) (o : Option InventoryEntry) (refused : InventoryEntry → Bool)
    (taken : Bool) (x y : Access × Bool) (z : InventoryEntry → Access × Bool)
    → P x
    → P y
    → ((entry : InventoryEntry) → taken ≡ false → P (z entry))
    → let result : Access × Bool = elim o [
      | none ↦ x
      | some entry ↦ if refused entry then x else if taken then y else z entry
    ] in
      P result
by_entry P none refused taken x y z a b c = a
by_entry P (some entry) refused true x y z a b c = elim (Bool-cases (refused entry)) [
  | inl e ↦ rw e a
  | inr e ↦ rw e b
]
by_entry P (some entry) refused false x y z a b c = elim (Bool-cases (refused entry)) [
  | inl e ↦ rw e a
  | inr e ↦ rw e (c entry refl)
]

-- Whatever a client asks to be bound to, and whether it is or not: no entry of the inventory has two
-- claims, and no device is claimed for two entries, if it was so before.
pub bind-HasClaims :
    (entries : List InventoryEntry) (session : ApplianceSession) (client id : Text)
    (access : Access)
    → HasClaims access.claims
    → HasClaims (bind entries session client id access).0.claims
unfolding bind
bind-HasClaims entries session client id access h =
    let session' = (current entries session).0 in
    let swept = sweep entries access.claims (put client (appliance session') access.sessions) in
    let swept_claims =
      sweep-HasClaims entries access.claims (put client (appliance session') access.sessions) h in
    by_entry (λ r. HasClaims r.0.claims) (current entries session).1
      (is_refused entries session' id)
      (claimed_elsewhere session.entry_id id swept.1
        || has_other_id id (lookup session.entry_id swept.1))
      _ _ _ h swept_claims
      (λ entry free.
        take_claim-HasClaims client session.entry_id id entry
          (record { sessions = swept.0; claims = swept.1 }) swept_claims (ground arith)
          (ground arith))

-- If `bind` says yes, the session's entry claims the device for this client.
pub bind_lem :
    (entries : List InventoryEntry) (session : ApplianceSession) (client id : Text)
    (access : Access)
    → (bind entries session client id access).1 ≡ true
    → let claims = (bind entries session client id access).0.claims in
      (claim : Claim) × (lookup session.entry_id claims ≡ some claim)
      × (claim.id ≡ id)
      × (has_text claim.clients client ≡ true)
unfolding bind take_claim
bind_lem entries session client id access h =
    let session' = (current entries session).0 in
    let swept = sweep entries access.claims (put client (appliance session') access.sessions) in
    let own = lookup session.entry_id swept.1 in
    by_entry
      (λ r.
        (e : r.1 ≡ true)
        → (claim : Claim) × (lookup session.entry_id r.0.claims ≡ some claim)
          × (claim.id ≡ id)
          × (has_text claim.clients client ≡ true))
      (current entries session).1 (is_refused entries session' id)
      (claimed_elsewhere session.entry_id id swept.1 || has_other_id id own) _ _ _ (λ e. cc)
      (λ e. cc)
      (λ entry free e. (
        renewed client id own,
        rw
            (
              lookup-put session.entry_id session.entry_id (renewed client id own) swept.1,
              text_eq_refl session.entry_id,
            )
            refl,
        renewed_id client id own (ground arith),
        has_text-renewed client id own,
      ))
      h

-- `current` leaves a session with its entry.
pub current-entry_id :
    (entries : List InventoryEntry) (session : ApplianceSession)
    → (current entries session).0.entry_id ≡ session.entry_id
unfolding current
current-entry_id entries session = ground arith
