-- ===== src/Mqtt/Topic/Tests.antt =====
-- Topics and filters by hand, and the theorems at concrete inputs.
use rethink.Common.{◌≤◌, ◌≡◌, refl, ◌↔◌, ◌⊎◌, true, false, [], ◌∷◌, length}
use rethink.Mqtt.Topic.{
  Text, split_slash, mqtt_topic_matches, match_from, valid_filter, valid_levels, includes,
}
use rethink.Mqtt.Topic.Matching.{
  Matches, last_two, EndsEarly, ends, IsNonempty, mqtt_topic_matches-EndsEarly,
  mqtt_topic_matches_iff,
}
use rethink.Mqtt.Topic.Validity.{IsFilter, valid_filter_iff}

-- `a`, `a/+/#` and `a/#`.
abbrev topic_a : Text
topic_a = b'a' ∷ []

abbrev filter_late : Text
filter_late = b'a' ∷ b'/' ∷ b'+' ∷ b'/' ∷ b'#' ∷ []

abbrev filter_all : Text
filter_all = b'a' ∷ b'/' ∷ b'#' ∷ []

parent_matches : mqtt_topic_matches topic_a filter_all ≡ true
unfolding mqtt_topic_matches match_from split_slash
parent_matches = refl

late_accepted : valid_filter length filter_late ≡ true
unfolding valid_filter valid_levels split_slash
late_accepted = refl

topic_a-EndsEarly : EndsEarly (split_slash filter_late) (split_slash topic_a)
unfolding split_slash
topic_a-EndsEarly = EndsEarly.exact topic_a refl (ends last_two)

mqtt_topic_matches-EndsEarly_example :
    (mqtt_topic_matches topic_a filter_late ≡ true)
    × (¬ Matches (split_slash filter_late) (split_slash topic_a))
mqtt_topic_matches-EndsEarly_example =
    mqtt_topic_matches-EndsEarly topic_a filter_late refl refl topic_a-EndsEarly

mqtt_topic_matches_iff_example : (mqtt_topic_matches topic_a filter_all ≡ true) ↔ (
    IsNonempty topic_a
    × IsNonempty filter_all
    × (Matches (split_slash filter_all) (split_slash topic_a)
        ⊎ EndsEarly (split_slash filter_all) (split_slash topic_a)))
mqtt_topic_matches_iff_example = mqtt_topic_matches_iff topic_a filter_all

valid_filter_iff_example : (valid_filter length filter_late ≡ true) ↔ (
    IsNonempty filter_late
    × (length filter_late ≤ 1024)
    × (includes filter_late 0 ≡ false)
    × IsFilter (split_slash filter_late))
valid_filter_iff_example = valid_filter_iff length filter_late
