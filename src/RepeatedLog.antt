-- ===== src/RepeatedLog.antt =====
-- `collapseRepeats` of util/repeated_log.ts: a line that repeats is printed once an interval.
pub mod Accounting
use rethink.Common.{
  ℕ, zero, suc, ◌+◌, ◌-◌, ◌*◌, ◌/◌, ◌%◌, ◌^◌, ◌≤◌, ◌<◌, min, bit_xor, ◌≡◌, refl, sym, ap, ◌∙◌,
  ◌≡⟨◌⟩◌, ◌∎, ◌≢◌, ◌↔◌, ◌⊎◌, inl, inr, Bool, true, false, not, ◌&&◌, ◌||◌, Option, none, some, List,
  [], ◌∷◌, ◌++◌, map, append-nil, append_assoc, arith, ltb, leb, ◌==◌, ==_iff, if◌then◌else◌,
  Bool-cases, Option-cases, all_below, all_below_sound, length, get_elem?, get_or, take, drop,
  concat, length-append, length-drop, length-take, take-append_le, drop-append_le, take_length,
  drop_length, All, All-append, All-drop, All-take, drop-get_elem?, get_elem?-eq-none,
  get_elem?_past, drop_past, bit_xor-zero, bit_xor_self, bit_xor-lt, bit_xor_bytes, bit_xor_words,
  bit_xor_comm, bit_xor_cancel, zero-bit_xor,
}
use rethink.Mqtt.Topic.{Text}
use rethink.Mqtt.Table.{lookup, put}

-- A value of `seen`.
pub record Seen : Type 0 where
  pub reported_at : ℕ
  pub held : ℕ

-- `report`: `seen` as it leaves it, and the number that the printed line is given, if one is printed.
pub report : ℕ → Text → ℕ → List (Text × Seen) → List (Text × Seen) × Option ℕ
report every key now seen = elim (lookup key seen) [
  | none ↦ (put key (record { reported_at = now; held = 0 }) seen, some 0)
  | some state ↦
      if ltb now (state.reported_at + every)
      then (put key (record state { held = state.held + 1 }) seen, none)
      else (put key (record { reported_at = now; held = 0 }) seen, some (state.held + 1))
]

abbrev printed : Text → Option ℕ → List (Text × ℕ) → List (Text × ℕ)
printed key none lines = lines
printed key (some held) lines = (key, held) ∷ lines

-- A run of reports, each of a key at a time, and the lines that are printed.
pub reports : ℕ → List (Text × ℕ) → List (Text × Seen) → List (Text × Seen) × List (Text × ℕ)
reports every [] seen = (seen, [])
reports every ((key, now) ∷ calls) seen =
    let (seen', line) = report every key now seen in
    let (seen'', lines) = reports every calls seen' in (seen'', printed key line lines)
