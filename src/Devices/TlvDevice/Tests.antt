-- ===== src/Devices/TlvDevice/Tests.antt =====
-- Devices that run a few steps.
use rethink.Common.{ℕ, ◌<◌, ◌≡◌, refl, true, false, none, some, List, [], ◌∷◌, arith, length}
use rethink.Wire.Tlv
use rethink.Wire.Tlv.{Tlv, build_one}
use rethink.Wire.Packet.{encode_tlv}
use rethink.Wire.Packet.Encode.{elements_of}
use rethink.Devices.TlvDevice.{
  string_value, written, attach_tags, FieldDefinition, packet, Device, emit, Hooks, base_hooks,
  add_field, send, send_payload,
}
use rethink.Devices.TlvDevice.Handlers.{
  process_data, Event, config_set, discovery_asked, query_tick, data_received, started, run, step,
  is_running,
}
use rethink.Devices.TlvDevice.Queries.{
  created, query_caps, is_tlv_reply, is_push_frame, start, set_query_interval,
}
use rethink.Devices.TlvDevice.Invariant.{base_hooks-HooksKeep}
use rethink.Devices.TlvDevice.Health.{
  announced_offline, IsHealthy, IsTruthful, IsHeard, run-IsTruthful, refreshes, refreshes-offline,
}
use rethink.Devices.TlvDevice.Startup.{
  capabilities_count, values_too_early, IsInOrder, run-IsInOrder,
}
use rethink.Devices.TlvDevice.Writes.{input_of, send-encode_tlv}

abbrev hooks : Hooks
hooks = base_hooks length

-- The reply 04 00 00 00 87 02 01 .. with one record.
abbrev reply : List ℕ
reply = 0 ∷ 0 ∷ 4 ∷ 0 ∷ 0 ∷ 0 ∷ 0x87 ∷ 2 ∷ 1 ∷ 9 ∷ 2 ∷ 0x7d ∷ 0x41 ∷ 0 ∷ 0 ∷ []

abbrev events : List Event
events =
    started 0
    ∷ config_set true
    ∷ query_tick 1
    ∷ query_tick 2
    ∷ query_tick 3
    ∷ discovery_asked
    ∷ data_received 4 reply
    ∷ []

created-IsTruthful : IsTruthful created
unfolding created announced_offline send send_payload
created-IsTruthful = (refl, refl)

created-IsInOrder : IsInOrder created
unfolding created capabilities_count values_too_early send send_payload
created-IsInOrder = (refl, omega arith, refl)

run-IsTruthful_example : IsTruthful (run hooks events created)
run-IsTruthful_example =
    run-IsTruthful hooks events created (base_hooks-HooksKeep length IsTruthful)
      (refl, (refl, (refl, (refl, (refl, (refl, (refl, tt))))))) created-IsTruthful

run-IsInOrder_example : IsInOrder (run hooks events created)
run-IsInOrder_example =
    run-IsInOrder hooks events created (base_hooks-HooksKeep length IsInOrder)
      (refl, (refl, (refl, (refl, (refl, (refl, (refl, tt))))))) created-IsInOrder

abbrev fresh : Device
fresh = run hooks (started 0 ∷ []) created

fresh-IsHealthy : IsHealthy fresh
unfolding run step start set_query_interval created query_caps announced_offline send send_payload
fresh-IsHealthy = (refl, refl)

fresh_running : is_running fresh.query_timer ≡ true
unfolding run step start set_query_interval created query_caps send send_payload
fresh_running = refl

reply_test : (is_push_frame reply ≡ false) × (is_tlv_reply reply ≡ true)
unfolding is_push_frame is_tlv_reply
reply_test = (refl, refl)

refreshes-offline_example :
    let silent_device = run hooks (refreshes (1 ∷ 2 ∷ 3 ∷ [])) fresh in
    (silent_device.silent ≡ true)
    × (announced_offline silent_device.out ≡ true)
    × IsHeard (process_data hooks 5 reply silent_device)
refreshes-offline_example =
    refreshes-offline hooks (1 ∷ 2 ∷ 3 ∷ []) 5 reply fresh (base_hooks-HooksKeep length IsHeard)
      fresh_running fresh-IsHealthy (omega arith) reply_test.0 reply_test.1

payload_short : length (Tlv.build (elements_of ((0x1f5, 2) ∷ []))) < 256
unfolding Tlv.build build_one
payload_short = omega arith

send-encode_tlv_example :
    (p : List ℕ) × (encode_tlv (input_of 1 1 2 2 1 ((0x1f5, 2) ∷ [])) ≡ some p)
    × (send (1 ∷ 1 ∷ 2 ∷ 2 ∷ 1 ∷ []) (elements_of ((0x1f5, 2) ∷ [])) created
        ≡ emit (packet p) created)
send-encode_tlv_example =
    send-encode_tlv 1 1 2 2 1 ((0x1f5, 2) ∷ []) created (ground arith) payload_short

-- A field with tag 0x253, whose write takes tag 0x1f7 along.
abbrev humidity : FieldDefinition
humidity = record {
  id = some 0x253;
  name = 104 ∷ [];
  comp = 99 ∷ [];
  state_topic = none;
  readable = none;
  writable = none;
  write_xform = some (λ text. written (string_value text));
  write_attach = attach_tags (0x1f7 ∷ []);
  read_xform = none;
  read_callback = none;
  write_callback = none;
}

abbrev with_field : Device
with_field = (add_field [] humidity none created).0
