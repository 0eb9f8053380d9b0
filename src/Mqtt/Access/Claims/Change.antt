-- ===== src/Mqtt/Access/Claims/Change.antt =====
-- Changes of one claim, and exclusive claims.
use rethink.Common.{◌≡◌, refl, ap, inl, inr, false, some, List, [], ◌∷◌, arith, Bool-cases}
use rethink.Mqtt.Topic.{Text, text_eq}
use rethink.Mqtt.Topic.Matching.{text_eq_apart}
use rethink.Mqtt.Table.{
  lookup, put, delete, put-IsTable, delete-IsTable, AllValues, AllValues-delete, AllValues-lookup,
}
use rethink.Mqtt.Access.{Claim, claimed_elsewhere}
use mathlib.Core.Path.{subst}
use rethink.Mqtt.Access.Claims.{Other, IsExclusive, HasClaims, put-IsExclusive}

AllValues-elsewhere :
    (k id : Text) (claims : List (Text × Claim))
    → AllValues (Other id) claims
    → claimed_elsewhere k id claims ≡ false
AllValues-elsewhere k id [] h = refl
AllValues-elsewhere k id ((e, claim) ∷ claims) (other, h) =
    ground (arith, AllValues-elsewhere k id claims h)

IsExclusive-elsewhere :
    (k : Text) (claim : Claim) (claims : List (Text × Claim))
    → IsExclusive claims
    → lookup k claims ≡ some claim
    → claimed_elsewhere k claim.id claims ≡ false
unfolding lookup
IsExclusive-elsewhere k claim [] h found = cc
IsExclusive-elsewhere k claim ((e, other) ∷ claims) (others, h) found =
    elim (Bool-cases (text_eq e k)) [
      | inl same ↦
          let mine : other ≡ claim = ground arith in
          let same_id : other.id ≡ claim.id = ap (λ (c : Claim). c.id) mine in
          rw same (
            subst (λ id. claimed_elsewhere k id claims ≡ false) same_id
              (AllValues-elsewhere k other.id claims others))
      | inr apart ↦
          let later : lookup k claims ≡ some claim = ground arith in
          ground (
            arith,
            AllValues-lookup (Other other.id) k claims claim others later,
            text_eq_apart claim.id other.id,
            IsExclusive-elsewhere k claim claims h later,
          )
    ]

-- A claim may change its clients, and it may go.
pub put-HasClaims :
    (k : Text) (claim : Claim) (clients : List Text) (claims : List (Text × Claim))
    → HasClaims claims
    → lookup k claims ≡ some claim
    → HasClaims (put k (record claim { clients = clients }) claims)
put-HasClaims k claim clients claims (table, exclusive) found = (
  put-IsTable k _ claims table,
  put-IsExclusive k (record claim { clients = clients }) claims table exclusive
      (IsExclusive-elsewhere k claim claims exclusive found),
)

delete-IsExclusive :
    (k : Text) (claims : List (Text × Claim)) → IsExclusive claims → IsExclusive (delete k claims)
unfolding delete
delete-IsExclusive k [] h = tt
delete-IsExclusive k ((e, claim) ∷ claims) (others, h) = elim (Bool-cases (text_eq e k)) [
  | inl same ↦ rw same h
  | inr apart ↦
      rw apart (AllValues-delete (Other claim.id) k claims others, delete-IsExclusive k claims h)
]

pub delete-HasClaims :
    (k : Text) (claims : List (Text × Claim)) → HasClaims claims → HasClaims (delete k claims)
delete-HasClaims k claims (table, exclusive) =
    (delete-IsTable k claims table, delete-IsExclusive k claims exclusive)
