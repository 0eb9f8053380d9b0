-- ===== src/Devices/AabbDevice/Tests.antt =====
-- An AABB device that changes and receives.
use rethink.Common.{ℕ, ◌≡◌, refl, none, List, [], ◌∷◌}
use rethink.Devices.TlvDevice.{Value, number_value}
use rethink.Devices.AabbDevice.{AabbDevice, publish_each}
use rethink.Devices.AabbDevice.Cache.{
  last_published, last_report, IsNews, IsSeen, publish_each-last_report,
}
use rethink.Mqtt.Topic.{Text}
use rethink.Mqtt.Table.{lookup}
use rethink.Devices.AabbDevice.Frames.{send_frame-encode_aabb}
use rethink.Devices.AabbDevice.{frame, send_frame, process_frame}
use rethink.Wire.Packet.{HexCodec, AabbEncodeInput, encode_aabb}

abbrev empty_device : AabbDevice
empty_device = record { publish_cache = []; out = [] }

abbrev changes : List (Text × Value)
changes = (97 ∷ [], number_value 1) ∷ (97 ∷ [], number_value 1) ∷ (97 ∷ [], number_value 2) ∷ []

empty-IsSeen : IsSeen empty_device
unfolding lookup last_published IsNews
empty-IsSeen = (λ prop. refl, tt)

publish_each-last_report_example :
    IsSeen (publish_each changes empty_device)
    × ((prop : Text)
        → last_published prop (publish_each changes empty_device).out
          ≡ last_report prop changes (last_published prop empty_device.out))
publish_each-last_report_example = publish_each-last_report changes empty_device empty-IsSeen

abbrev byte_codec : HexCodec
byte_codec = record {
  to_hex = λ bytes. bytes;
  of_hex = λ text. text;
  strip = λ text. text;
  of_hex-to_hex = λ bytes h. refl;
  strip-to_hex = λ bytes. refl;
}

abbrev input : AabbEncodeInput
input = record { direction = none; body = 1 ∷ 2 ∷ [] }

-- A handler that keeps the body that it was given last.
abbrev keep_body : List ℕ → AabbDevice → AabbDevice
keep_body body device = record device { out = frame body ∷ [] }

send_frame-encode_aabb_example :
    (send_frame (1 ∷ 2 ∷ []) empty_device
      ≡ record empty_device { out = frame (encode_aabb byte_codec input) ∷ [] })
    × (process_frame keep_body (encode_aabb byte_codec input) empty_device
        ≡ keep_body (1 ∷ 2 ∷ []) empty_device)
send_frame-encode_aabb_example = send_frame-encode_aabb byte_codec input keep_body empty_device
