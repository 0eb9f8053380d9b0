-- ===== src/Mqtt/Access/Topics.antt =====
-- `parseDeviceTopic`, `parseDevicePayload` and `isSafeDeviceId`.
use rethink.Common.{
  ℕ, Bool, true, ◌&&◌, ◌||◌, Option, none, some, List, [], ◌∷◌, ltb, leb, ◌==◌, if◌then◌else◌,
  length,
}
use rethink.Mqtt.Topic.{Text, text_eq, includes, is_empty, split_slash}
use rethink.Mqtt.Access.{DeviceTopic, TopicKind, lime, message, provisioning}

-- `[A-Za-z0-9._:-]`
abbrev pub is_id_char : ℕ → Bool
is_id_char c =
    (leb b'A' c && leb c b'Z')
    || ((leb b'a' c && leb c b'z')
        || ((leb b'0' c && leb c b'9') || (c == b'.' || (c == b'_' || (c == b':' || c == b'-')))))

abbrev pub every_id_char : Text → Bool
every_id_char [] = true
every_id_char (c ∷ text) = is_id_char c && every_id_char text

-- `isSafeDeviceId`, on a text
unfoldable pub is_safe_device_id : Text → Bool
is_safe_device_id value = ltb 0 (length value) && (leb (length value) 128 && every_id_char value)

abbrev pub lime_level : Text
lime_level = b'l' ∷ b'i' ∷ b'm' ∷ b'e' ∷ []

abbrev pub clip_level : Text
clip_level = b'c' ∷ b'l' ∷ b'i' ∷ b'p' ∷ []

abbrev pub devices_level : Text
devices_level = b'd' ∷ b'e' ∷ b'v' ∷ b'i' ∷ b'c' ∷ b'e' ∷ b's' ∷ []

abbrev pub message_level : Text
message_level = b'm' ∷ b'e' ∷ b's' ∷ b's' ∷ b'a' ∷ b'g' ∷ b'e' ∷ []

abbrev pub provisioning_level : Text
provisioning_level =
    b'p' ∷ b'r' ∷ b'o' ∷ b'v' ∷ b'i' ∷ b's' ∷ b'i' ∷ b'o' ∷ b'n' ∷ b'i' ∷ b'n' ∷ b'g' ∷ []

abbrev pub kind_of : Text → Option TopicKind
kind_of level =
    if text_eq level message_level
    then some message
    else if text_eq level provisioning_level
    then some provisioning
    else none

-- The levels from the last `clip` on that stands between two slashes.
abbrev last_clip : List Text → Option (List Text)
last_clip [] = none
last_clip (level ∷ []) = none
last_clip (level ∷ next ∷ levels) = elim (last_clip (next ∷ levels)) [
  | some found ↦ some found
  | none ↦ if text_eq level clip_level then some (level ∷ next ∷ levels) else none
]

-- The levels of `normalized`.
abbrev normalized : List Text → List Text
normalized [] = []
normalized (level ∷ []) = level ∷ []
normalized (level ∷ next ∷ levels) =
    if text_eq level clip_level
    then level ∷ next ∷ levels
    else elim (last_clip (next ∷ levels)) [ some found ↦ found | none ↦ level ∷ next ∷ levels ]

abbrev lime_topic : List Text → Option DeviceTopic
lime_topic (a ∷ b ∷ id ∷ []) =
    if text_eq a lime_level && (text_eq b devices_level && is_safe_device_id id)
    then some (record { kind = lime; device_id = id })
    else none
lime_topic levels = none

abbrev clip_topic : List Text → Option DeviceTopic
clip_topic (a ∷ b ∷ c ∷ id ∷ []) =
    if text_eq a clip_level && (text_eq c devices_level && is_safe_device_id id)
    then elim (kind_of b) [
      | none ↦ none
      | some kind ↦ some (record { kind = kind; device_id = id })
    ]
    else none
clip_topic levels = none

-- `parseDeviceTopic`
unfoldable pub parse_device_topic : (Text → ℕ) → Text → Option DeviceTopic
parse_device_topic byte_length topic =
    if is_empty topic
      || (ltb 1024 (byte_length topic)
          || (includes topic b'+' || (includes topic b'#' || includes topic 0)))
    then none
    else elim (lime_topic (split_slash topic)) [
      | some found ↦ some found
      | none ↦ clip_topic (normalized (split_slash topic))
    ]

-- `text.slice(0, -1)` where it ends with a null character.
abbrev without_null : Text → Text
without_null [] = []
without_null (c ∷ []) = if c == 0 then [] else c ∷ []
without_null (c ∷ d ∷ text) = c ∷ without_null (d ∷ text)

-- `did` of what `parseDevicePayload` returns. `json_did` is `JSON.parse` with the tests behind it:
-- the text that an object has for `did`, if it has one.
unfoldable pub payload_did : (Text → Option Text) → Text → Option Text
payload_did json_did payload =
    if ltb 65536 (length payload) then none else json_did (without_null payload)
