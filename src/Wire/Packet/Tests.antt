-- ===== src/Wire/Packet/Tests.antt =====
-- A hexadecimal codec that meets the assumptions, packets by hand, and the theorems at concrete inputs.
use rethink.Common.{
  ℕ, ◌+◌, ◌-◌, ◌*◌, ◌/◌, ◌%◌, ◌<◌, ◌≡◌, refl, inl, true, false, none, some, List, [], ◌∷◌, arith,
  ltb, leb, if◌then◌else◌, length, All,
}
use rethink.Wire.Tlv
use rethink.Wire.Crc16.{crc16}
use rethink.Wire.Packet.{
  HexCodec, from_device, to_device, TlvEncodeInput, AabbEncodeInput, tlv, aabb_packet, encode_tlv,
  encode_aabb, encode_packet, decode_packet, aabb_checksum, is_aabb,
}
use rethink.Wire.Packet.Encode.{IsByteInput, payload_of}
use rethink.Wire.Packet.RoundTrip.{decoded_of, decode_packet-encode_packet}
use rethink.Wire.Packet.Aabb.{decode_packet-encode_aabb}

abbrev digit : ℕ → ℕ
digit n = if ltb n 10 then 48 + n else 87 + n

abbrev digit_value : ℕ → ℕ
digit_value c = if ltb c 58 then c - 48 else c - 87

abbrev hex_of : List ℕ → List ℕ
hex_of [] = []
hex_of (b ∷ bytes) = digit (b / 16 % 16) ∷ digit (b % 16) ∷ hex_of bytes

abbrev bytes_of : List ℕ → List ℕ
bytes_of (c ∷ d ∷ text) = (digit_value c * 16 + digit_value d) ∷ bytes_of text
bytes_of (c ∷ []) = []
bytes_of [] = []

abbrev without_spaces : List ℕ → List ℕ
without_spaces [] = []
without_spaces (c ∷ text) = if leb c 32 then without_spaces text else c ∷ without_spaces text

bytes_of-hex_of : (bytes : List ℕ) → All (λ b. b < 256) bytes → bytes_of (hex_of bytes) ≡ bytes
bytes_of-hex_of [] h = refl
bytes_of-hex_of (b ∷ bytes) (p, h) =
    let e : digit_value (digit (b / 16 % 16)) * 16 + digit_value (digit (b % 16)) ≡ b =
      ground arith in
    rw (e, bytes_of-hex_of bytes h)

without_spaces-hex_of : (bytes : List ℕ) → without_spaces (hex_of bytes) ≡ hex_of bytes
without_spaces-hex_of [] = refl
without_spaces-hex_of (b ∷ bytes) =
    let high : leb (digit (b / 16 % 16)) 32 ≡ false = ground arith in
    let low : leb (digit (b % 16)) 32 ≡ false = ground arith in
    rw (high, low, without_spaces-hex_of bytes)

abbrev plain_hex : HexCodec
plain_hex = record {
  to_hex = hex_of;
  of_hex = bytes_of;
  strip = without_spaces;
  of_hex-to_hex = bytes_of-hex_of;
  strip-to_hex = without_spaces-hex_of;
}

abbrev state_report : TlvEncodeInput
state_report = record {
  direction = from_device;
  tlv = (0x1f7, 1) ∷ (0x1fd, 44) ∷ [];
  a = none;
  s = none;
  byte5 = none;
  byte6 = none;
  byte7 = some 9;
}

abbrev query : TlvEncodeInput
query = record {
  direction = to_device;
  tlv = (0x1f5, 2) ∷ [];
  a = some 1;
  s = some 1;
  byte5 = none;
  byte6 = none;
  byte7 = none;
}

query_bytes :
    encode_tlv query
    ≡ some (1 ∷ 1 ∷ 4 ∷ 0 ∷ 0 ∷ 0 ∷ 0x65 ∷ 2 ∷ 2 ∷ 1 ∷ 2 ∷ 0x7d ∷ 0x42 ∷ 0x5a ∷ 0x6e ∷ [])
unfolding encode_tlv Tlv.build crc16
query_bytes = refl

query-IsByteInput : IsByteInput query
query-IsByteInput = record {
  a = omega arith;
  s = omega arith;
  byte5 = λ d h. h;
  byte6 = λ d h. h;
  byte7 = λ d h. h;
}

payload_fits : length (payload_of query) < 256
unfolding Tlv.build
payload_fits = omega arith

decode_packet-encode_packet_example :
    (p : List ℕ × List ℕ) × (encode_packet plain_hex (tlv query) ≡ some p)
    × (decode_packet plain_hex p.0 ≡ decoded_of query to_device)
decode_packet-encode_packet_example =
    decode_packet-encode_packet plain_hex query query-IsByteInput payload_fits (inl (omega arith))

abbrev empty_body : AabbEncodeInput
empty_body = record { direction = none; body = [] }

abbrev two_bytes : AabbEncodeInput
two_bytes = record { direction = none; body = 0x66 ∷ 0x30 ∷ 0x30 ∷ 0x31 ∷ [] }

decode_packet-encode_aabb_example :
    decode_packet plain_hex (hex_of (encode_aabb plain_hex two_bytes))
    ≡ aabb_packet (record { checksum_ok = true; length = 6; body = 0x66 ∷ 0x30 ∷ 0x30 ∷ 0x31 ∷ [] })
decode_packet-encode_aabb_example = decode_packet-encode_aabb plain_hex two_bytes (omega arith)

-- A packet to the device that begins with 0xaa and whose checksum ends in 0xbb is taken for AABB.
abbrev mistaken : TlvEncodeInput
mistaken = record {
  direction = to_device;
  tlv = (0x1f5, 137) ∷ [];
  a = some 0xaa;
  s = none;
  byte5 = none;
  byte6 = none;
  byte7 = none;
}

abbrev mistaken_bytes : List ℕ
mistaken_bytes =
    0xaa ∷ 0 ∷ 4 ∷ 0 ∷ 0 ∷ 0 ∷ 0x65 ∷ 2 ∷ 2 ∷ 1 ∷ 3 ∷ 0x7d ∷ 0x50 ∷ 137 ∷ 0x86 ∷ 0xbb ∷ []

mistaken_for_aabb :
    (encode_tlv mistaken ≡ some mistaken_bytes)
    × (decode_packet plain_hex (hex_of mistaken_bytes)
        ≡ aabb_packet (record {
          checksum_ok = false;
          length = 0;
          body = hex_of (4 ∷ 0 ∷ 0 ∷ 0 ∷ 0x65 ∷ 2 ∷ 2 ∷ 1 ∷ 3 ∷ 0x7d ∷ 0x50 ∷ 137 ∷ []);
        }))
unfolding encode_tlv Tlv.build crc16 decode_packet is_aabb aabb_checksum
mistaken_for_aabb = (refl, refl)
