-- ===== src/Devices/TlvDevice/Writes.antt =====
-- The frames that a TLV device sends, and what a write of a property puts on the wire.
use rethink.Common.{
  ℕ, ◌-◌, ◌%◌, ◌<◌, ◌≡◌, ap, true, Option, none, some, List, [], ◌∷◌, ◌++◌, map, arith, length,
  drop, All, All-append,
}
use rethink.Wire.Crc16.{crc16}
use rethink.Wire.Crc16.Laws.{crc16-lt, crc_bytes}
use rethink.Wire.Tlv
use rethink.Wire.Tlv.{Tlv, build_one}
use rethink.Wire.Tlv.Laws.{on_wire}
use rethink.Wire.Packet.{TlvEncodeInput, to_device, subarray, encode_tlv}
use rethink.Wire.Packet.Encode.{
  IsByte, IsByteInput, buffer_from_bytes, elements_of, packet_of, packet-IsByte,
  encode_tlv-packet_of,
}
use rethink.Devices.TlvDevice.{read, write, packet, Device, emit, send, send_payload}

-- The codec's input for a frame that the handler sends.
abbrev pub input_of : ℕ → ℕ → ℕ → ℕ → ℕ → List (ℕ × ℕ) → TlvEncodeInput
input_of b0 b1 b2 b3 b4 tlv = record {
  direction = to_device;
  tlv = tlv;
  a = some b0;
  s = some b1;
  byte5 = some b2;
  byte6 = some b3;
  byte7 = some b4;
}

module _ (b0 b1 b2 b3 b4 : ℕ) (bytes : All IsByte (b0 ∷ b1 ∷ b2 ∷ b3 ∷ b4 ∷ [])) where
  input_of-IsByteInput : (tlv : List (ℕ × ℕ)) → IsByteInput (input_of b0 b1 b2 b3 b4 tlv)
  input_of-IsByteInput tlv = record {
    a = bytes.0;
    s = bytes.1.0;
    byte5 = λ d h. bytes.1.1.0;
    byte6 = λ d h. bytes.1.1.1.0;
    byte7 = λ d h. bytes.1.1.1.1.0;
  }

  -- The frame around a payload, and its checksum.
  abbrev pub framed : List ℕ → List ℕ
  framed payload = 0x04 ∷ 0x00 ∷ 0x00 ∷ 0x00 ∷ 0x65 ∷ b2 ∷ b3 ∷ b4 ∷ length payload ∷ payload

  framed-IsByte :
      (payload : List ℕ) → All IsByte payload → length payload < 256 → All IsByte (framed payload)
  framed-IsByte payload h k =
      let (c0, (c1, (c2, (c3, (c4, c5))))) = bytes in
      (
        omega arith,
        (omega arith, (omega arith, (omega arith, (omega arith, (c2, (c3, (c4, (k, h)))))))),
      )

  pub send_payload_lem :
      (payload : List ℕ) (d : Device)
      → All IsByte payload
      → length payload < 256
      → send_payload (b0 ∷ b1 ∷ b2 ∷ b3 ∷ b4 ∷ []) payload d
        ≡ emit (packet (b0 ∷ b1 ∷ (framed payload ++ crc_bytes (framed payload)))) d
  unfolding send_payload
  send_payload_lem payload d h k =
      let whole : All IsByte (b0 ∷ b1 ∷ (framed payload ++ crc_bytes (framed payload))) = (
        bytes.0,
        (
          bytes.1.0,
          All-append IsByte (framed payload) (crc_bytes (framed payload))
              (framed-IsByte payload h k) (omega (arith, crc16-lt (framed payload))),
        ),
      ) in
      ap (λ p. emit (packet p) d)
        (buffer_from_bytes (b0 ∷ b1 ∷ (framed payload ++ crc_bytes (framed payload))) whole)

-- A frame that a handler sends with five header bytes and at most 255 bytes of payload is the packet
-- that the packet codec makes of the same header and records.
pub send-encode_tlv :
    (b0 b1 b2 b3 b4 : ℕ) (tlv : List (ℕ × ℕ)) (d : Device)
    → All IsByte (b0 ∷ b1 ∷ b2 ∷ b3 ∷ b4 ∷ [])
    → length (Tlv.build (elements_of tlv)) < 256
    → (p : List ℕ) × (encode_tlv (input_of b0 b1 b2 b3 b4 tlv) ≡ some p)
      × (send (b0 ∷ b1 ∷ b2 ∷ b3 ∷ b4 ∷ []) (elements_of tlv) d ≡ emit (packet p) d)
unfolding send send_payload
send-encode_tlv b0 b1 b2 b3 b4 tlv d bytes short =
    let input = input_of b0 b1 b2 b3 b4 tlv in
    let good = input_of-IsByteInput b0 b1 b2 b3 b4 bytes tlv in
    (
      packet_of input,
      encode_tlv-packet_of input good short,
      ap (λ p. emit (packet p) d)
          (buffer_from_bytes (packet_of input) (packet-IsByte input good short)),
    )

-- A record as the appliance reads it; a tag that was never seen is sent as three zeros.
abbrev pub as_sent : ℕ → Option ℕ → Tlv
as_sent tag (some v) = on_wire (record { t = tag; l = none; v = v })
as_sent tag none = record { t = tag % 1024; l = some 3; v = 0 }

abbrev pub sent_records : List (ℕ × ℕ) → List ℕ → List Tlv
sent_records raw tags = map (λ tag. as_sent tag (read tag raw)) tags

-- What a write leaves: the value is kept, one packet is sent, and the refresh timer is armed.
abbrev pub IsSent : ℕ → ℕ → List ℕ → Device → Device → Type 0
IsSent id value tags d next =
    (p : List ℕ) × (next.out ≡ packet p ∷ d.out)
    × (crc16 (drop 2 p) ≡ 0)
    × (Tlv.parse (subarray p 11 (length p - 2))
        ≡ on_wire (record { t = id; l = none; v = value })
          ∷ sent_records (write id value d.raw_clip_state) tags)
    × (next.raw_clip_state ≡ write id value d.raw_clip_state)
    × (next.write_refresh_timeout ≡ true)
