-- ===== src/Mqtt/Topic.antt =====
-- Topics and topic filters: `mqttTopicMatches` and `validFilter` of cloud/mqtt-broker.ts. A text is
-- the list of its characters' codes.
pub mod Matching
pub mod Validity
mod Tests
use rethink.Common.{
  ℕ, zero, suc, ◌+◌, ◌-◌, ◌*◌, ◌/◌, ◌%◌, ◌^◌, ◌≤◌, ◌<◌, min, bit_xor, ◌≡◌, refl, sym, ap, ◌∙◌,
  ◌≡⟨◌⟩◌, ◌∎, ◌≢◌, ◌↔◌, ◌⊎◌, inl, inr, Bool, true, false, not, ◌&&◌, ◌||◌, Option, none, some, List,
  [], ◌∷◌, ◌++◌, map, append-nil, append_assoc, arith, ltb, leb, ◌==◌, ==_iff, if◌then◌else◌,
  Bool-cases, Option-cases, all_below, all_below_sound, length, get_elem?, get_or, take, drop,
  concat, length-append, length-drop, length-take, take-append_le, drop-append_le, take_length,
  drop_length, All, All-append, All-drop, All-take, bit_xor-zero, bit_xor_self, bit_xor-lt,
  bit_xor_bytes, bit_xor_words, bit_xor_comm, bit_xor_cancel, zero-bit_xor,
}

abbrev pub Text : Type 0
Text = List ℕ

abbrev pub text_eq : Text → Text → Bool
text_eq [] [] = true
text_eq [] (d ∷ t) = false
text_eq (c ∷ s) [] = false
text_eq (c ∷ s) (d ∷ t) = c == d && text_eq s t

-- `text.includes(c)`
abbrev pub includes : Text → ℕ → Bool
includes [] c = false
includes (d ∷ text) c = d == c || includes text c

abbrev pub plus : Text
plus = b'+' ∷ []

abbrev pub hash : Text
hash = b'#' ∷ []

abbrev add_to_first : ℕ → List Text → List Text
add_to_first c [] = (c ∷ []) ∷ []
add_to_first c (level ∷ levels) = (c ∷ level) ∷ levels

-- `text.split('/')`
unfoldable pub split_slash : Text → List Text
split_slash [] = [] ∷ []
split_slash (c ∷ text) =
    if c == b'/' then [] ∷ split_slash text else add_to_first c (split_slash text)

-- `level === topicLevels[index]`, where an index behind the end reads `undefined`.
abbrev pub is_level : Text → Option Text → Bool
is_level level none = false
is_level level (some found) = text_eq level found

abbrev pub is_nil : List Text → Bool
is_nil [] = true
is_nil (level ∷ levels) = false

-- The loop over `filterLevels` from `index` on, and the comparison behind it.
pub match_from : List Text → List Text → ℕ → Bool
match_from topic_levels [] index = length topic_levels == index
match_from topic_levels (level ∷ filter_levels) index =
    let rest = match_from topic_levels filter_levels (suc index) in
    let wild = includes level b'#' || includes level b'+' in
    if text_eq level hash
    then is_nil filter_levels
    else if not (text_eq level plus) && wild
    then false
    else if not (text_eq level plus) && not (is_level level (get_elem? topic_levels index))
    then false
    else rest

abbrev pub is_empty : Text → Bool
is_empty [] = true
is_empty (c ∷ text) = false

-- `mqttTopicMatches`
pub mqtt_topic_matches : Text → Text → Bool
mqtt_topic_matches topic filter =
    if is_empty topic || is_empty filter
    then false
    else match_from (split_slash topic) (split_slash filter) 0

-- The callback of `every` in `validFilter`, on a level and the levels behind it.
pub valid_levels : List Text → Bool
valid_levels [] = true
valid_levels (level ∷ levels) =
    (text_eq level plus
      || (if text_eq level hash
          then is_nil levels
          else not (includes level b'+' || includes level b'#')))
    && valid_levels levels

abbrev pub max_filter_length : ℕ
max_filter_length = 1024

-- `validFilter`; `byte_length` is `Buffer.byteLength`.
pub valid_filter : (Text → ℕ) → Text → Bool
valid_filter byte_length filter =
    not (is_empty filter)
    && (leb (byte_length filter) max_filter_length
        && (not (includes filter 0) && valid_levels (split_slash filter)))
