-- ===== src/RepeatedLog/Accounting.antt =====
-- What becomes of each report: printed, counted by a printed line, or still held back.
mod Tests
use rethink.Common.{
  ℕ, zero, suc, ◌+◌, ◌-◌, ◌*◌, ◌/◌, ◌%◌, ◌^◌, ◌≤◌, ◌<◌, min, bit_xor, ◌≡◌, refl, sym, ap, ◌∙◌,
  ◌≡⟨◌⟩◌, ◌∎, ◌≢◌, ◌↔◌, ◌⊎◌, inl, inr, Bool, true, false, not, ◌&&◌, ◌||◌, Option, none, some, List,
  [], ◌∷◌, ◌++◌, map, append-nil, append_assoc, arith, ltb, leb, ◌==◌, ==_iff, if◌then◌else◌,
  Bool-cases, Option-cases, all_below, all_below_sound, length, get_elem?, get_or, take, drop,
  concat, length-append, length-drop, length-take, take-append_le, drop-append_le, take_length,
  drop_length, All, All-append, All-drop, All-take, drop-get_elem?, get_elem?-eq-none,
  get_elem?_past, drop_past, bit_xor-zero, bit_xor_self, bit_xor-lt, bit_xor_bytes, bit_xor_words,
  bit_xor_comm, bit_xor_cancel, zero-bit_xor,
}
use rethink.Mqtt.Topic.{Text, text_eq}
use rethink.Mqtt.Topic.Matching.{text_eq→eq, text_eq_refl}
use rethink.Mqtt.Table.{lookup, put, lookup-put}
use rethink.RepeatedLog.{Seen, report, reports, printed}

-- How many reports of a key there are.
abbrev pub calls_of : Text → List (Text × ℕ) → ℕ
calls_of key [] = 0
calls_of key ((other, now) ∷ calls) =
    if text_eq other key then 1 + calls_of key calls else calls_of key calls

-- How many reports a printed line stands for: the first line of a key is given 0.
abbrev pub reports_in : ℕ → ℕ
reports_in zero = 1
reports_in (suc held) = suc held

abbrev pub reported_of : Text → List (Text × ℕ) → ℕ
reported_of key [] = 0
reported_of key ((other, held) ∷ lines) =
    if text_eq other key then reports_in held + reported_of key lines else reported_of key lines

abbrev pub held_by : Option Seen → ℕ
held_by none = 0
held_by (some state) = state.held

reports_in-pos : (n : ℕ) → reports_in (n + 1) ≡ n + 1
reports_in-pos n = ground arith

report-first :
    (every : ℕ) (key : Text) (now : ℕ) (seen : List (Text × Seen))
    → lookup key seen ≡ none
    → report every key now seen ≡ (put key (record { reported_at = now; held = 0 }) seen, some 0)
unfolding report
report-first every key now seen e = rw (report, e) refl

report-repeated :
    (every : ℕ) (key : Text) (now : ℕ) (seen : List (Text × Seen)) (state : Seen)
    → lookup key seen ≡ some state
    → report every key now seen ≡ (
        if ltb now (state.reported_at + every)
        then (put key (record state { held = state.held + 1 }) seen, none)
        else (put key (record { reported_at = now; held = 0 }) seen, some (state.held + 1)))
unfolding report
report-repeated every key now seen state e = rw (report, e) refl

abbrev printed_for : Option ℕ → ℕ
printed_for none = 0
printed_for (some held) = reports_in held

reported_of-printed :
    (key other : Text) (line : Option ℕ) (lines : List (Text × ℕ))
    → reported_of key (printed other line lines) ≡ (
        if text_eq other key
        then printed_for line + reported_of key lines
        else reported_of key lines)
reported_of-printed key other none lines = elim (Bool-cases (text_eq other key)) [
  | inl e ↦ rw e (omega arith)
  | inr e ↦ rw e refl
]
reported_of-printed key other (some held) lines = refl

held_by-put :
    (key other : Text) (state : Seen) (seen : List (Text × Seen))
    → held_by (lookup key (put other state seen))
      ≡ (if text_eq other key then state.held else held_by (lookup key seen))
held_by-put key other state seen = elim (Bool-cases (text_eq other key)) [
  | inl e ↦ rw (lookup-put other key state seen, e) refl
  | inr e ↦ rw (lookup-put other key state seen, e) refl
]

-- What a report of one key prints and leaves held, for any key.
written :
    (key other : Text) (state : Seen) (line : Option ℕ) (seen : List (Text × Seen))
    (lines : List (Text × ℕ))
    → printed_for line + state.held ≡ 1 + held_by (lookup other seen)
    → reported_of key (printed other line lines) + held_by (lookup key (put other state seen))
      ≡ (if text_eq other key then 1 + reported_of key lines else reported_of key lines)
        + held_by (lookup key seen)
written key other state line seen lines total = elim (Bool-cases (text_eq other key)) [
  | inl e ↦
      let same : held_by (lookup other seen) ≡ held_by (lookup key seen) =
        ap (λ k. held_by (lookup k seen)) (text_eq→eq other key e) in
      rw (reported_of-printed key other line lines, held_by-put key other state seen, e)
        (omega (arith, total, same))
  | inr e ↦ rw (reported_of-printed key other line lines, held_by-put key other state seen, e) refl
]

report-counts :
    (every : ℕ) (key other : Text) (now : ℕ) (seen : List (Text × Seen)) (lines : List (Text × ℕ))
    → let after = report every other now seen in
      reported_of key (printed other after.1 lines) + held_by (lookup key after.0)
      ≡ (if text_eq other key then 1 + reported_of key lines else reported_of key lines)
        + held_by (lookup key seen)
report-counts every key other now seen lines = elim (Option-cases (lookup other seen)) [
  | inl e ↦
      rw (report-first every other now seen e) (written key other _ (some 0) seen lines (rw e refl))
  | inr (state, e) ↦ elim (Bool-cases (ltb now (state.reported_at + every))) [
    | inl f ↦
        rw (report-repeated every other now seen state e, f)
          (written key other _ none seen lines (rw e (omega arith)))
    | inr f ↦
        rw (report-repeated every other now seen state e, f)
          (written key other _ (some (state.held + 1)) seen lines
            (rw e (omega (arith, reports_in-pos state.held))))
  ]
]

-- The reports of a key, with those that were held back before, are those that its printed lines stand for, the
-- first line for one and any later line for the number that it is given, and those still held back.
pub reports-counts :
    (every : ℕ) (key : Text) (calls : List (Text × ℕ)) (seen : List (Text × Seen))
    → let after = reports every calls seen in
      reported_of key after.1 + held_by (lookup key after.0)
      ≡ calls_of key calls + held_by (lookup key seen)
unfolding reports
reports-counts every key [] seen = refl
reports-counts every key ((other, now) ∷ calls) seen =
    let first = report every other now seen in
    let later = reports every calls first.0 in
    let here = report-counts every key other now seen later.1 in
    let rest = reports-counts every key calls first.0 in
    elim (Bool-cases (text_eq other key)) [
      | inl e ↦ let counted = rw e at here in rw e (omega (arith, counted, rest))
      | inr e ↦ let counted = rw e at here in rw e (omega (arith, counted, rest))
    ]
