-- ===== src/Mqtt/Table.antt =====
-- A `Map` with texts for keys, as the list of its entries in the order of insertion.
use rethink.Common.{
  ℕ, ◌+◌, ◌≤◌, ◌≡◌, refl, inl, inr, false, Option, none, some, List, [], ◌∷◌, arith, if◌then◌else◌,
  Bool-cases, length,
}
use rethink.Mqtt.Topic.{Text, text_eq}
use rethink.Mqtt.Topic.Matching.{text_eq→eq, text_eq_refl, text_eq_apart}

module _ {V : Type 0} where
  unfoldable pub lookup : Text → List (Text × V) → Option V
  lookup k [] = none
  lookup k ((j, v) ∷ m) = if text_eq j k then some v else lookup k m

  -- `map.set(k, v)`: an entry keeps its place, a new one goes to the end.
  unfoldable pub put : Text → V → List (Text × V) → List (Text × V)
  put k v [] = (k, v) ∷ []
  put k v ((j, w) ∷ m) = if text_eq j k then (j, v) ∷ m else (j, w) ∷ put k v m

  -- `map.delete(k)`
  unfoldable pub delete : Text → List (Text × V) → List (Text × V)
  delete k [] = []
  delete k ((j, w) ∷ m) = if text_eq j k then m else (j, w) ∷ delete k m

  -- No key twice.
  abbrev pub IsTable : List (Text × V) → Type 0
  IsTable [] = Unit
  IsTable ((j, w) ∷ m) = (lookup j m ≡ none) × IsTable m

  pub lookup-put :
      (k j : Text) (v : V) (m : List (Text × V))
      → lookup j (put k v m) ≡ (if text_eq k j then some v else lookup j m)
  unfolding lookup put
  lookup-put k j v [] = refl
  lookup-put k j v ((i, w) ∷ m) = elim (Bool-cases (text_eq i k)) [
    | inl same ↦
        rw (same, text_eq→eq i k same)
          (elim (Bool-cases (text_eq k j)) [ inl e ↦ rw e | inr e ↦ rw e ])
    | inr other ↦ rw other (elim (Bool-cases (text_eq i j)) [
      | inl e ↦
          let ne : text_eq k j ≡ false = rw (← text_eq→eq i j e) (text_eq_apart i k other) in
          rw (e, ne)
      | inr e ↦ rw e (lookup-put k j v m)
    ])
  ]

  pub lookup-delete :
      (k j : Text) (m : List (Text × V))
      → IsTable m
      → lookup j (delete k m) ≡ (if text_eq k j then none else lookup j m)
  unfolding lookup delete
  lookup-delete k j [] h = elim (Bool-cases (text_eq k j)) [ inl e ↦ rw e | inr e ↦ rw e ]
  lookup-delete k j ((i, w) ∷ m) (fresh, h) = elim (Bool-cases (text_eq i k)) [
    | inl same ↦
        let e : i ≡ k = text_eq→eq i k same in
        rw (same, e)
          (elim (Bool-cases (text_eq k j)) [
            | inl f ↦ rw (f, ← text_eq→eq k j f, ← e) fresh
            | inr f ↦ rw f
          ])
    | inr other ↦ rw other (elim (Bool-cases (text_eq i j)) [
      | inl e ↦
          let ne : text_eq k j ≡ false = rw (← text_eq→eq i j e) (text_eq_apart i k other) in
          rw (e, ne)
      | inr e ↦ rw e (lookup-delete k j m h)
    ])
  ]

  pub put-IsTable : (k : Text) (v : V) (m : List (Text × V)) → IsTable m → IsTable (put k v m)
  unfolding put
  put-IsTable k v [] h = (unfold lookup in refl, tt)
  put-IsTable k v ((i, w) ∷ m) (fresh, h) = elim (Bool-cases (text_eq i k)) [
    | inl same ↦ rw same (fresh, h)
    | inr other ↦
        rw other (rw (lookup-put k i v m, text_eq_apart i k other) fresh, put-IsTable k v m h)
  ]

  pub delete-IsTable : (k : Text) (m : List (Text × V)) → IsTable m → IsTable (delete k m)
  unfolding delete
  delete-IsTable k [] h = tt
  delete-IsTable k ((i, w) ∷ m) (fresh, h) = elim (Bool-cases (text_eq i k)) [
    | inl same ↦ rw same h
    | inr other ↦
        rw other (rw (lookup-delete k i m h, text_eq_apart i k other) fresh, delete-IsTable k m h)
  ]

-- What an entry counts for, and the sum over a table.
module _ {V : Type 0} (f : Text → V → ℕ) where
  abbrev pub weight : List (Text × V) → ℕ
  weight [] = 0
  weight ((k, v) ∷ m) = f k v + weight m

  abbrev pub old_weight : Text → Option V → ℕ
  old_weight k none = 0
  old_weight k (some v) = f k v

  pub weight-put :
      (k : Text) (v : V) (m : List (Text × V))
      → weight (put k v m) + old_weight k (lookup k m) ≡ weight m + f k v
  unfolding put lookup
  weight-put k v [] = omega arith
  weight-put k v ((i, w) ∷ m) = elim (Bool-cases (text_eq i k)) [
    | inl same ↦ rw (same, text_eq→eq i k same) (omega arith)
    | inr other ↦ rw other (omega (arith, weight-put k v m))
  ]

  pub weight-delete :
      (k : Text) (m : List (Text × V)) → weight (delete k m) + old_weight k (lookup k m) ≡ weight m
  unfolding delete lookup
  weight-delete k [] = omega arith
  weight-delete k ((i, w) ∷ m) = elim (Bool-cases (text_eq i k)) [
    | inl same ↦ rw (same, text_eq→eq i k same) (omega arith)
    | inr other ↦ rw other (omega (arith, weight-delete k m))
  ]

module _ {V : Type 0} where
  -- How many entries a write adds.
  abbrev pub added : Option V → ℕ
  added none = 1
  added (some v) = 0

  pub length-put :
      (k : Text) (v : V) (m : List (Text × V)) → length (put k v m) ≡ length m + added (lookup k m)
  unfolding put lookup
  length-put k v [] = refl
  length-put k v ((i, w) ∷ m) = elim (Bool-cases (text_eq i k)) [
    | inl same ↦ rw same (omega arith)
    | inr other ↦ rw other (omega (arith, length-put k v m))
  ]

  pub length-delete :
      (k : Text) (m : List (Text × V)) → length (delete k m) + 1 ≡ length m + added (lookup k m)
  unfolding delete lookup
  length-delete k [] = omega arith
  length-delete k ((i, w) ∷ m) = elim (Bool-cases (text_eq i k)) [
    | inl same ↦ rw same (omega arith)
    | inr other ↦ rw other (omega (arith, length-delete k m))
  ]

module _ {V : Type 0} (P : V → Type 0) where
  -- What holds of every value that is kept.
  abbrev pub AllValues : List (Text × V) → Type 0
  AllValues [] = Unit
  AllValues ((k, v) ∷ m) = P v × AllValues m

  pub AllValues-put :
      (k : Text) (v : V) (m : List (Text × V)) → AllValues m → P v → AllValues (put k v m)
  unfolding put
  AllValues-put k v [] h p = (p, tt)
  AllValues-put k v ((i, w) ∷ m) (q, h) p = elim (Bool-cases (text_eq i k)) [
    | inl same ↦ rw same (p, h)
    | inr other ↦ rw other (q, AllValues-put k v m h p)
  ]

  pub AllValues-delete : (k : Text) (m : List (Text × V)) → AllValues m → AllValues (delete k m)
  unfolding delete
  AllValues-delete k [] h = tt
  AllValues-delete k ((i, w) ∷ m) (q, h) = elim (Bool-cases (text_eq i k)) [
    | inl same ↦ rw same h
    | inr other ↦ rw other (q, AllValues-delete k m h)
  ]

  pub AllValues-lookup :
      (k : Text) (m : List (Text × V)) (v : V) → AllValues m → lookup k m ≡ some v → P v
  unfolding lookup
  AllValues-lookup k [] v h e = cc
  AllValues-lookup k ((i, w) ∷ m) v (q, h) e = elim (Bool-cases (text_eq i k)) [
    | inl same ↦ let found : w ≡ v = ground arith in rw (← found) q
    | inr other ↦ AllValues-lookup k m v h (ground arith)
  ]

module _ {V : Type 0} where
  added-le : (o : Option V) → added o ≤ 1
  added-le none = omega arith
  added-le (some v) = omega arith

  pub length-delete_le : (k : Text) (m : List (Text × V)) → length (delete k m) ≤ length m
  length-delete_le k m = omega (arith, length-delete k m, added-le (lookup k m))

  pub length-put_le : (k : Text) (v : V) (m : List (Text × V)) → length (put k v m) ≤ length m + 1
  length-put_le k v m = omega (arith, length-put k v m, added-le (lookup k m))

  pub lookup-head : (k : Text) (v : V) (m : List (Text × V)) → lookup k ((k, v) ∷ m) ≡ some v
  unfolding lookup
  lookup-head k v m = rw (text_eq_refl k) refl

  pub delete-head : (k : Text) (v : V) (m : List (Text × V)) → delete k ((k, v) ∷ m) ≡ m
  unfolding delete
  delete-head k v m = rw (text_eq_refl k) refl

module _ {V : Type 0} (f : Text → V → ℕ) where
  -- A write replaces what the other entries count for by no more than its own share.
  pub weight-put-delete :
      (k : Text) (v : V) (m : List (Text × V))
      → weight f (put k v m) ≡ weight f (delete k m) + f k v
  weight-put-delete k v m = omega (arith, weight-put f k v m, weight-delete f k m)

  pub weight-lookup :
      (k : Text) (v : V) (m : List (Text × V))
      → lookup k m ≡ some v
      → weight f m ≡ weight f (delete k m) + f k v
  weight-lookup k v m e =
      let old : old_weight f k (lookup k m) ≡ f k v = rw e refl in
      omega (arith, weight-delete f k m, old)

  pub weight-delete-put :
      (k : Text) (v : V) (m : List (Text × V))
      → weight f (delete k (put k v m)) ≡ weight f (delete k m)
  weight-delete-put k v m =
      let found : lookup k (put k v m) ≡ some v = rw (lookup-put k k v m, text_eq_refl k) refl in
      omega (arith, weight-lookup k v (put k v m) found, weight-put-delete k v m)

  pub weight-new :
      (k : Text) (v : V) (m : List (Text × V))
      → lookup k m ≡ none
      → weight f (put k v m) ≡ weight f m + f k v
  weight-new k v m e =
      let old : old_weight f k (lookup k m) ≡ 0 = rw e refl in
      omega (arith, weight-put f k v m, old)
