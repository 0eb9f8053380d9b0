-- ===== src/Mqtt/Broker/Budget.antt =====
-- One client's subscriptions and the budget that all clients share: granting and removing.
use rethink.Common.{
  ℕ, ◌+◌, ◌≤◌, ◌<◌, ◌≡◌, refl, inl, inr, Bool, true, false, not, ◌||◌, none, some, List, [], ◌∷◌,
  arith, ltb, leb, Bool-cases, Option-cases, length,
}
use rethink.Mqtt.Topic.{Text, valid_filter}
use rethink.Mqtt.Table.{
  lookup, put, IsTable, put-IsTable, delete-IsTable, weight, old_weight, weight-put, weight-delete,
  added, length-put, length-delete, lookup-head, delete-head, AllValues, AllValues-put,
  AllValues-delete,
}
use rethink.Mqtt.Broker.{
  SubscriptionBudget, Granting, grant, grant_all, remove_subscription, remove_all, keys, has_key,
  max_client_subscriptions, max_subscriptions, max_filter_bytes,
}

module _ {V : Type 0} where
  pub has_key-none : (k : Text) (m : List (Text × V)) → lookup k m ≡ none → has_key k m ≡ false
  has_key-none k m e = rw (has_key, e) refl

  pub has_key-some :
      (k : Text) (m : List (Text × V)) (v : V) → lookup k m ≡ some v → has_key k m ≡ true
  has_key-some k m v e = rw (has_key, e) refl

module _ (byte_length : Text → ℕ) where
  abbrev pub size_of : Text → Text → ℕ
  size_of topic pattern = byte_length topic

  abbrev pub IsValid : Text → Type 0
  IsValid pattern = valid_filter byte_length pattern ≡ true

  -- What is true of one client's subscriptions.
  abbrev pub HasFilters : List (Text × Text) → Type 0
  HasFilters subscriptions =
      IsTable subscriptions
      × (length subscriptions ≤ max_client_subscriptions)
      × AllValues IsValid subscriptions

  -- The budget counts these subscriptions, and `n` others that take `size` bytes; it is kept to.
  abbrev pub IsHeld : ℕ → ℕ → List (Text × Text) → SubscriptionBudget → Type 0
  IsHeld n size subscriptions budget =
      HasFilters subscriptions
      × (budget.count ≡ n + length subscriptions)
      × (budget.bytes ≡ size + weight size_of subscriptions)
      × (budget.count ≤ max_subscriptions)
      × (budget.bytes ≤ max_filter_bytes)

  module _ (n size : ℕ) where
    put-IsHeld :
        (topic : Text) (subscriptions : List (Text × Text)) (budget : SubscriptionBudget)
        → IsHeld n size subscriptions budget
        → lookup topic subscriptions ≡ none
        → IsValid topic
        → length subscriptions < max_client_subscriptions
        → budget.count < max_subscriptions
        → budget.bytes + byte_length topic ≤ max_filter_bytes
        → IsHeld n size
            (put topic topic subscriptions)
            (record { count = budget.count + 1; bytes = budget.bytes + byte_length topic })
    put-IsHeld topic subscriptions budget ((table, few, valid), count, bytes, h, g) fresh ok a b c =
        let size = length-put topic topic subscriptions in
        let total = weight-put size_of topic topic subscriptions in
        let one : added (lookup topic subscriptions) ≡ 1 = rw fresh refl in
        let zero : old_weight size_of topic (lookup topic subscriptions) ≡ 0 = rw fresh refl in
        (
          (
            put-IsTable topic topic subscriptions table,
            omega (arith, size, one),
            AllValues-put IsValid topic topic subscriptions valid ok,
          ),
          omega (arith, size, one, count),
          omega (arith, total, zero, bytes),
          omega (arith, b),
          omega (arith, c),
        )

    -- A grant, whether it is given or refused.
    pub grant-IsHeld :
        (allowed : Text → Bool) (g : Granting) (topic : Text)
        → IsHeld n size g.subscriptions g.budget
        → let after = (grant byte_length allowed g topic).0 in
          IsHeld n size after.subscriptions after.budget
    unfolding grant
    grant-IsHeld allowed g topic h =
        elim (Bool-cases (not (valid_filter byte_length topic) || not (allowed topic))) [
          | inl e ↦ rw e h
          | inr e ↦ elim (Option-cases (lookup topic g.subscriptions)) [
            | inr (p, f) ↦ rw (e, has_key-some topic g.subscriptions p f) h
            | inl f ↦
                elim (Bool-cases (
                  leb max_client_subscriptions (length g.subscriptions)
                  || leb max_subscriptions g.budget.count
                  || ltb max_filter_bytes (g.budget.bytes + byte_length topic))) [
                    | inl full ↦ rw (e, has_key-none topic g.subscriptions f, full) h
                    | inr room ↦
                        rw (e, has_key-none topic g.subscriptions f, room)
                          (put-IsHeld topic g.subscriptions g.budget h f (ground arith)
                            (ground arith) (ground arith) (ground arith))
                  ]
          ]
        ]

    pub grant_all-IsHeld :
        (allowed : Text → Bool) (g : Granting) (topics : List Text)
        → IsHeld n size g.subscriptions g.budget
        → let after = (grant_all byte_length allowed g topics).0 in
          IsHeld n size after.subscriptions after.budget
    unfolding grant_all
    grant_all-IsHeld allowed g [] h = h
    grant_all-IsHeld allowed g (topic ∷ topics) h =
        grant_all-IsHeld allowed (grant byte_length allowed g topic).0 topics
          (grant-IsHeld allowed g topic h)

    pub remove_subscription-IsHeld :
        (topic : Text) (subscriptions : List (Text × Text)) (budget : SubscriptionBudget)
        → IsHeld n size subscriptions budget
        → let after = remove_subscription byte_length topic (subscriptions, budget) in
          IsHeld n size after.0 after.1
    unfolding remove_subscription
    remove_subscription-IsHeld topic subscriptions budget h =
        elim (Option-cases (lookup topic subscriptions)) [
          | inl e ↦ rw (has_key, e) h
          | inr (p, e) ↦
              let ((table, few, valid), count, bytes, small, slim) = h in
              let shorter = length-delete topic subscriptions in
              let lighter = weight-delete size_of topic subscriptions in
              let none_added : added (lookup topic subscriptions) ≡ 0 = rw e refl in
              let old : old_weight size_of topic (lookup topic subscriptions) ≡ byte_length topic =
                rw e refl in
              rw (has_key, e)
                (
                  (
                    delete-IsTable topic subscriptions table,
                    omega (arith, shorter, none_added),
                    AllValues-delete IsValid topic subscriptions valid,
                  ),
                  omega (arith, shorter, none_added),
                  omega (arith, lighter, old),
                  omega arith,
                  omega arith,
                )
        ]

    pub remove_all-IsHeld :
        (topics : List Text) (subscriptions : List (Text × Text)) (budget : SubscriptionBudget)
        → IsHeld n size subscriptions budget
        → let after = remove_all byte_length topics (subscriptions, budget) in
          IsHeld n size after.0 after.1
    unfolding remove_all
    remove_all-IsHeld [] subscriptions budget h = h
    remove_all-IsHeld (topic ∷ topics) subscriptions budget h =
        let after = remove_subscription byte_length topic (subscriptions, budget) in
        remove_all-IsHeld topics after.0 after.1
          (remove_subscription-IsHeld topic subscriptions budget h)

  -- The loop of `destroy` leaves no subscription.
  pub remove_all-keys :
      (subscriptions : List (Text × Text)) (budget : SubscriptionBudget)
      → (remove_all byte_length (keys subscriptions) (subscriptions, budget)).0 ≡ []
  unfolding remove_all remove_subscription
  remove_all-keys [] budget = refl
  remove_all-keys ((k, v) ∷ m) budget =
      rw
        (
          remove_all,
          remove_subscription,
          has_key-some k ((k, v) ∷ m) v (lookup-head k v m),
          delete-head k v m,
        )
        (remove_all-keys m _)
