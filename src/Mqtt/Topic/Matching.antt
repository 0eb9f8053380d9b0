-- ===== src/Mqtt/Topic/Matching.antt =====
-- The loop over levels against the matching of MQTT.
use rethink.Common.{
  ℕ, zero, suc, ◌+◌, ◌≤◌, ◌<◌, ◌≡◌, refl, ap, ◌↔◌, ◌⊎◌, inl, inr, Bool, true, false, not, ◌&&◌,
  ◌||◌, List, [], ◌∷◌, arith, ◌==◌, if◌then◌else◌, Bool-cases, Option-cases, length, get_elem?,
  drop, length-drop, drop-get_elem?, get_elem?-eq-none, get_elem?_past, drop_past,
}
use rethink.Mqtt.Topic.{
  Text, text_eq, includes, plus, hash, split_slash, is_nil, match_from, is_empty,
  mqtt_topic_matches,
}

-- A topic's levels match a filter's: a level without wild cards matches itself, `+` any one level,
-- and `#`, at the end, whatever is left, also nothing.
pub data Matches : List Text → List Text → Type 0 where
  done : Matches [] []
  exact :
      {filter topic : List Text} (level : Text)
      → (includes level b'#' || includes level b'+') ≡ false
      → Matches filter topic
      → Matches (level ∷ filter) (level ∷ topic)
  any_one :
      {filter topic : List Text} (level : Text)
      → Matches filter topic
      → Matches (plus ∷ filter) (level ∷ topic)
  any_rest : {topic : List Text} → Matches (hash ∷ []) topic

pub text_eq→eq : (s t : Text) → text_eq s t ≡ true → s ≡ t
text_eq→eq [] [] h = refl
text_eq→eq [] (d ∷ t) h = cc
text_eq→eq (c ∷ s) [] h = cc
text_eq→eq (c ∷ s) (d ∷ t) h = ground (arith, text_eq→eq s t)

pub text_eq_refl : (s : Text) → text_eq s s ≡ true
text_eq_refl [] = refl
text_eq_refl (c ∷ s) = ground (arith, text_eq_refl s)

pub text_eq_iff : (s t : Text) → (text_eq s t ≡ true) ↔ (s ≡ t)
text_eq_iff s t = (text_eq→eq s t, λ e. rw e (text_eq_refl t))

pub text_eq_apart : (s t : Text) → text_eq s t ≡ false → text_eq t s ≡ false
text_eq_apart s t h = elim (Bool-cases (text_eq t s)) [
  | inl e ↦ let same = rw (text_eq→eq t s e) at h in ground (arith, text_eq_refl s, same)
  | inr e ↦ e
]

-- What the loop does besides: past the end of the topic `+` is still passed over, so a filter whose
-- last levels are `+` and then `#` takes a topic that ends before them.
pub data PlusesThenHash : List Text → Type 0 where
  last_two : PlusesThenHash (plus ∷ hash ∷ [])
  one_more : {filter : List Text} → PlusesThenHash filter → PlusesThenHash (plus ∷ filter)

pub data EndsEarly : List Text → List Text → Type 0 where
  ends : {filter : List Text} → PlusesThenHash filter → EndsEarly filter []
  exact :
      {filter topic : List Text} (level : Text)
      → (includes level b'#' || includes level b'+') ≡ false
      → EndsEarly filter topic
      → EndsEarly (level ∷ filter) (level ∷ topic)
  any_one :
      {filter topic : List Text} (level : Text)
      → EndsEarly filter topic
      → EndsEarly (plus ∷ filter) (level ∷ topic)

-- The loop by recursion on both lists: `over` past the end of the topic, `accept` before.
over : List Text → Bool
over [] = false
over (level ∷ filter) =
    if text_eq level hash then is_nil filter else text_eq level plus && over filter

accept : List Text → List Text → Bool
accept [] topic = is_nil topic
accept (level ∷ filter) [] = over (level ∷ filter)
accept (level ∷ filter) (found ∷ topic) =
    if text_eq level hash
    then is_nil filter
    else if text_eq level plus
    then accept filter topic
    else not (includes level b'#' || includes level b'+')
      && (text_eq level found && accept filter topic)

match_from-over :
    (topic filter : List Text) (i : ℕ) → length topic < i → match_from topic filter i ≡ over filter
unfolding match_from over
match_from-over topic [] i h = ground arith
match_from-over topic (level ∷ filter) i h =
    rw (get_elem?_past i topic (omega arith)) (ground (arith, match_from-over topic filter (suc i)))

match_from-accept :
    (topic filter : List Text) (i : ℕ)
    → i ≤ length topic
    → match_from topic filter i ≡ accept filter (drop i topic)
unfolding match_from accept over
match_from-accept topic [] i h = at_end topic i h
  where
    at_end :
        (topic : List Text) (i : ℕ) → i ≤ length topic → (length topic == i) ≡ is_nil (drop i topic)
    at_end [] i h = let e : i ≡ 0 = omega arith in rw e
    at_end (x ∷ topic) zero h = ground arith
    at_end (x ∷ topic) (suc i) h = ground (arith, at_end topic i)
match_from-accept topic (level ∷ filter) i h = elim (Option-cases (get_elem? topic i)) [
  | inl missing ↦
      let past = get_elem?-eq-none i topic missing in
      rw (drop_past i topic past, missing) (ground (arith, match_from-over topic filter (suc i)))
  | inr (found, there) ↦
      let size = ap length (drop-get_elem? i topic found there) in
      let within : suc i ≤ length topic = omega (arith, size, length-drop i topic) in
      rw (drop-get_elem? i topic found there, there)
        (ground (arith, match_from-accept topic filter (suc i) within))
]

pub no_wildcard :
    (level : Text)
    → (includes level b'#' || includes level b'+') ≡ false
    → (text_eq level hash ≡ false) × (text_eq level plus ≡ false)
no_wildcard [] h = (refl, refl)
no_wildcard (c ∷ []) h = (ground arith, ground arith)
no_wildcard (c ∷ d ∷ level) h = (ground arith, ground arith)

pub is_nil→eq : (levels : List Text) → is_nil levels ≡ true → levels ≡ []
is_nil→eq [] h = refl
is_nil→eq (level ∷ levels) h = cc

over_sound :
    (filter : List Text) → over filter ≡ true → (filter ≡ hash ∷ []) ⊎ PlusesThenHash filter
unfolding over
over_sound [] h = cc
over_sound (level ∷ filter) h = elim (Bool-cases (text_eq level hash)) [
  | inl is_hash ↦
      let e = text_eq→eq level hash is_hash in inl (rw (e, is_nil→eq filter (ground arith)))
  | inr other ↦
      let is_plus : text_eq level plus ≡ true = ground arith in
      let rest : over filter ≡ true = ground arith in
      rw (text_eq→eq level plus is_plus) (elim (over_sound filter rest) [
        | inl e ↦ inr (rw e last_two)
        | inr more ↦ inr (one_more more)
      ])
]

accept_sound :
    (filter topic : List Text)
    → accept filter topic ≡ true
    → Matches filter topic ⊎ EndsEarly filter topic
unfolding accept
accept_sound [] topic h = inl (rw (is_nil→eq topic h) done)
accept_sound (level ∷ filter) [] h = elim (over_sound (level ∷ filter) h) [
  | inl e ↦ inl (rw e any_rest)
  | inr early ↦ inr (ends early)
]
accept_sound (level ∷ filter) (found ∷ topic) h = elim (Bool-cases (text_eq level hash)) [
  | inl is_hash ↦
      let rest : is_nil filter ≡ true = ground arith in
      inl (rw (text_eq→eq level hash is_hash, is_nil→eq filter rest) any_rest)
  | inr not_hash ↦ elim (Bool-cases (text_eq level plus)) [
    | inl is_plus ↦
        let rest : accept filter topic ≡ true = ground arith in
        rw (text_eq→eq level plus is_plus) (elim (accept_sound filter topic rest) [
          | inl m ↦ inl (any_one found m)
          | inr early ↦ inr (any_one found early)
        ])
    | inr literal ↦
        let same : text_eq level found ≡ true = ground arith in
        let rest : accept filter topic ≡ true = ground arith in
        let plain : (includes level b'#' || includes level b'+') ≡ false = ground arith in
        rw (← text_eq→eq level found same) (elim (accept_sound filter topic rest) [
          | inl m ↦ inl (exact level plain m)
          | inr early ↦ inr (exact level plain early)
        ])
  ]
]

over-PlusesThenHash : {filter : List Text} → PlusesThenHash filter → over filter ≡ true
unfolding over
over-PlusesThenHash last_two = refl
over-PlusesThenHash (one_more p) = over-PlusesThenHash p

accept-Matches : {filter topic : List Text} → Matches filter topic → accept filter topic ≡ true
unfolding accept
accept-Matches done = refl
accept-Matches (exact level h m) =
    let (a, b) = no_wildcard level h in rw (a, b, h, text_eq_refl level) (accept-Matches m)
accept-Matches (any_one level m) = accept-Matches m
accept-Matches (any_rest {topic}) = any_end topic
  where
    any_end : (topic : List Text) → accept (hash ∷ []) topic ≡ true
    any_end [] = unfold over in refl
    any_end (x ∷ topic) = refl

accept-EndsEarly : {filter topic : List Text} → EndsEarly filter topic → accept filter topic ≡ true
unfolding accept over
accept-EndsEarly (ends p) = past p
  where
    past : {filter : List Text} → PlusesThenHash filter → accept filter [] ≡ true
    past last_two = unfold over in refl
    past (one_more p) = over-PlusesThenHash p
accept-EndsEarly (exact level h m) =
    let (a, b) = no_wildcard level h in rw (a, b, h, text_eq_refl level) (accept-EndsEarly m)
accept-EndsEarly (any_one level m) = accept-EndsEarly m

abbrev pub IsNonempty : Text → Type 0
IsNonempty text = is_empty text ≡ false

-- A topic is taken for a filter exactly when neither is empty and their levels match as MQTT has it, or
-- the topic ends early: every level that it has matches, and the filter goes on with one or more `+`
-- and a last `#`. (MQTT lets `#` stand for no level, and `+` only for one.)
pub mqtt_topic_matches_iff :
    (topic filter : Text)
    → (mqtt_topic_matches topic filter ≡ true) ↔ (
        IsNonempty topic
        × IsNonempty filter
        × (Matches (split_slash filter) (split_slash topic)
            ⊎ EndsEarly (split_slash filter) (split_slash topic)))
unfolding mqtt_topic_matches
mqtt_topic_matches_iff topic filter =
    let loop = match_from-accept (split_slash topic) (split_slash filter) 0 (omega arith) in
    let levels = split_slash filter in
    (
      λ h. (ground arith, ground arith, accept_sound levels (split_slash topic) (ground arith)),
      λ (a, b, m).
          rw (a, b, loop)
            (elim m [ inl matches ↦ accept-Matches matches | inr early ↦ accept-EndsEarly early ]),
    )

-- The two relations exclude each other: by their lengths.
length-Matches :
    {filter topic : List Text} → Matches filter topic → length filter ≤ length topic + 1
length-Matches done = omega arith
length-Matches (exact level h m) = omega (arith, length-Matches m)
length-Matches (any_one level m) = omega (arith, length-Matches m)
length-Matches any_rest = omega arith

length-PlusesThenHash : {filter : List Text} → PlusesThenHash filter → 2 ≤ length filter
length-PlusesThenHash last_two = omega arith
length-PlusesThenHash (one_more p) = omega (arith, length-PlusesThenHash p)

length-EndsEarly :
    {filter topic : List Text} → EndsEarly filter topic → length topic + 2 ≤ length filter
length-EndsEarly (ends p) = omega (arith, length-PlusesThenHash p)
length-EndsEarly (exact level h m) = omega (arith, length-EndsEarly m)
length-EndsEarly (any_one level m) = omega (arith, length-EndsEarly m)

-- A topic that ends before the last `+` and `#` of a filter is taken for it, although it does not match
-- it: `a` is taken for `a/+/#`.
pub mqtt_topic_matches-EndsEarly :
    (topic filter : Text)
    → IsNonempty topic
    → IsNonempty filter
    → EndsEarly (split_slash filter) (split_slash topic)
    → (mqtt_topic_matches topic filter ≡ true)
      × (¬ Matches (split_slash filter) (split_slash topic))
mqtt_topic_matches-EndsEarly topic filter a b early = (
  (mqtt_topic_matches_iff topic filter).1 (a, b, inr early),
  λ m. omega (arith, length-Matches m, length-EndsEarly early),
)
