-- ===== src/Mqtt/Topic/Validity.antt =====
-- The filters that a client may subscribe to, as a grammar, and how they match.
use rethink.Common.{
  ℕ, ◌≤◌, ◌≡◌, refl, ◌↔◌, inl, inr, true, false, ◌||◌, List, [], ◌∷◌, arith, Bool-cases,
}
use rethink.Mqtt.Topic.{
  Text, text_eq, includes, plus, hash, split_slash, is_nil, valid_levels, valid_filter,
}
use rethink.Mqtt.Topic.Matching.{text_eq→eq, no_wildcard, is_nil→eq, IsNonempty}

-- Levels that are each `+`, or free of wild cards, or a last `#`.
pub data IsFilter : List Text → Type 0 where
  none_left : IsFilter []
  literal :
      {levels : List Text} (level : Text)
      → (includes level b'#' || includes level b'+') ≡ false
      → IsFilter levels
      → IsFilter (level ∷ levels)
  single : {levels : List Text} → IsFilter levels → IsFilter (plus ∷ levels)
  multi : IsFilter (hash ∷ [])

valid_levels-IsFilter : (levels : List Text) → valid_levels levels ≡ true → IsFilter levels
unfolding valid_levels
valid_levels-IsFilter [] h = none_left
valid_levels-IsFilter (level ∷ levels) h = elim (Bool-cases (text_eq level plus)) [
  | inl e ↦ rw (text_eq→eq level plus e) (single (valid_levels-IsFilter levels (ground arith)))
  | inr not_plus ↦ elim (Bool-cases (text_eq level hash)) [
    | inl e ↦
        let last : is_nil levels ≡ true = ground arith in
        rw (text_eq→eq level hash e, is_nil→eq levels last) multi
    | inr not_hash ↦
        let plain : (includes level b'#' || includes level b'+') ≡ false = ground arith in
        literal level plain (valid_levels-IsFilter levels (ground arith))
  ]
]

IsFilter-valid_levels : {levels : List Text} → IsFilter levels → valid_levels levels ≡ true
unfolding valid_levels
IsFilter-valid_levels none_left = refl
IsFilter-valid_levels (literal level h f) =
    let (a, b) = no_wildcard level h in ground (arith, IsFilter-valid_levels f)
IsFilter-valid_levels (single f) = IsFilter-valid_levels f
IsFilter-valid_levels multi = refl

-- A filter is accepted exactly when it is not empty, at most 1024 bytes long, free of the null
-- character, and each of its levels is `+`, or free of wild cards, or a `#` at the end.
pub valid_filter_iff :
    (byte_length : Text → ℕ) (filter : Text)
    → (valid_filter byte_length filter ≡ true) ↔ (
        IsNonempty filter
        × (byte_length filter ≤ 1024)
        × (includes filter 0 ≡ false)
        × IsFilter (split_slash filter))
unfolding valid_filter
valid_filter_iff byte_length filter = (
  λ h. (
    ground arith,
    ground arith,
    ground arith,
    valid_levels-IsFilter (split_slash filter) (ground arith),
  ),
  λ (a, b, c, f). ground (arith, IsFilter-valid_levels f),
)
