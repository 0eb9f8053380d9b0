-- ===== src/Wire/Packet/RoundTrip.antt =====
-- `decodePacket` of what `encodePacket` wrote for a TLV input.
use rethink.Common.{
  ℕ, suc, ◌+◌, ◌-◌, ◌/◌, ◌%◌, ◌<◌, ◌≡◌, refl, sym, ap, ◌∙◌, ◌≢◌, ◌⊎◌, true, false, none, some, List,
  [], ◌∷◌, ◌++◌, map, append-nil, arith, ltb, ◌==◌, length, get_or, drop, length-append,
  take-append_le, take_length,
}
use rethink.Wire.Tlv.{Tlv}
use rethink.Wire.Tlv
use rethink.Wire.Tlv.Laws.{on_wire, parse-build}
use rethink.Wire.Crc16.{crc16}
use rethink.Wire.Crc16.Laws.{crc16-append_crc, crc_bytes}
use rethink.Wire.Packet.{
  HexCodec, Direction, tlv, encode_packet, from_device, to_device, TlvEncodeInput, Decoded,
  tlv_packet, or_default, uart_of, prefix_of, is_aabb, is_push, is_tlv, decode_packet, decode_tlv,
  subarray,
}
use rethink.Wire.Packet.Encode.{
  IsByteInput, elements_of, payload_of, packet_of, packet-IsByte, encode_tlv-packet_of,
}

-- What the receiver is expected to find in a packet.
abbrev pub decoded_of : TlvEncodeInput → Direction → Decoded
decoded_of input from_device = tlv_packet (record {
  direction = from_device;
  crc_ok = true;
  tlv = map on_wire (elements_of input.tlv);
  frame = record {
    kind = 0x87;
    byte5 = or_default input.byte5 2;
    byte6 = or_default input.byte6 4;
    byte7 = or_default input.byte7 0;
    len = length (payload_of input);
  };
  a = none;
  s = none;
})
decoded_of input to_device = tlv_packet (record {
  direction = to_device;
  crc_ok = true;
  tlv = map on_wire (elements_of input.tlv);
  frame = record {
    kind = 0x65;
    byte5 = or_default input.byte5 2;
    byte6 = or_default input.byte6 2;
    byte7 = or_default input.byte7 1;
    len = length (payload_of input);
  };
  a = some (or_default input.a 0);
  s = some (or_default input.s 0);
})

-- A buffer that does not both begin with 0xaa and end in 0xbb is not taken for an AABB packet.
abbrev pub IsNotAabb : TlvEncodeInput → Direction → Type 0
IsNotAabb input from_device = Unit
IsNotAabb input to_device =
    (or_default input.a 0 ≢ 0xaa)
    ⊎ (crc16 (uart_of to_device input (payload_of input)) % 256 ≢ 0xbb)

get_or_last : (xs : List ℕ) (a b : ℕ) → get_or (xs ++ (a ∷ b ∷ [])) (suc (length xs)) 0 ≡ b
get_or_last [] a b = refl
get_or_last (x ∷ xs) a b = get_or_last xs a b

length-two : (xs : List ℕ) (a b : ℕ) → length (xs ++ (a ∷ b ∷ [])) ≡ length xs + 2
length-two xs a b = length-append xs (a ∷ b ∷ [])

-- A frame with any prefix and any header bytes, followed by its checksum.
module _ (p0 p1 kind b5 b6 b7 : ℕ) (payload : List ℕ) where
  abbrev framed : List ℕ
  framed = 4 ∷ 0 ∷ 0 ∷ 0 ∷ kind ∷ b5 ∷ b6 ∷ b7 ∷ length payload ∷ payload

  abbrev packet : List ℕ
  packet = p0 ∷ p1 ∷ (framed ++ crc_bytes framed)

  length-packet : length packet ≡ length payload + 13
  length-packet = omega (arith, length-two payload (crc16 framed / 256) (crc16 framed % 256))

  packet_fits : ltb (length packet) (11 + length payload + 2) ≡ false
  packet_fits = let e = length-packet in ground arith

  packet_crc : (crc16 (drop 2 packet) == 0) ≡ true
  packet_crc = rw (crc16-append_crc framed)

  packet_payload : subarray packet 11 (11 + length payload) ≡ payload
  packet_payload =
      let e : 11 + length payload - 11 ≡ length payload = omega arith in
      rw e (
        take-append_le (length payload) payload (crc_bytes framed) (omega arith)
        ∙ take_length payload)

  packet_last : get_or packet (length packet - 1) 0 ≡ crc16 framed % 256
  packet_last =
      let e : length packet - 1
          ≡ suc (suc (suc (suc (suc (suc (suc (suc (suc (suc (suc (suc (length payload)))))))))))) =
        omega (arith, length-packet) in
      rw e (get_or_last payload (crc16 framed / 256) (crc16 framed % 256))

parse_payload :
    (input : TlvEncodeInput) → Tlv.parse (payload_of input) ≡ map on_wire (elements_of input.tlv)
parse_payload input =
    ap Tlv.parse (sym (append-nil (payload_of input)))
    ∙ parse-build (elements_of input.tlv) []
    ∙ (unfold Tlv.parse in append-nil (map on_wire (elements_of input.tlv)))

decode_layout :
    (d : Direction) (input : TlvEncodeInput) (text : List ℕ)
    → decode_tlv text (
        prefix_of d input
        ++ (uart_of d input (payload_of input) ++ crc_bytes (uart_of d input (payload_of input))))
      ≡ decoded_of input d
decode_layout from_device input text =
    let b5 = or_default input.byte5 2 in
    let b6 = or_default input.byte6 4 in
    let b7 = or_default input.byte7 0 in
    let bytes = payload_of input in
    rw (
      packet_fits 0 0 0x87 b5 b6 b7 bytes,
      packet_crc 0 0 0x87 b5 b6 b7 bytes,
      packet_payload 0 0 0x87 b5 b6 b7 bytes,
      parse_payload input,
    )
decode_layout to_device input text =
    let a = or_default input.a 0 in
    let s = or_default input.s 0 in
    let b5 = or_default input.byte5 2 in
    let b6 = or_default input.byte6 2 in
    let b7 = or_default input.byte7 1 in
    let bytes = payload_of input in
    rw (
      packet_fits a s 0x65 b5 b6 b7 bytes,
      packet_crc a s 0x65 b5 b6 b7 bytes,
      packet_payload a s 0x65 b5 b6 b7 bytes,
      parse_payload input,
    )

-- The framing that the receiver settles on.
chosen_framing :
    (d : Direction) (input : TlvEncodeInput)
    → IsNotAabb input d
    → let buf =
        prefix_of d input
        ++ (uart_of d input (payload_of input) ++ crc_bytes (uart_of d input (payload_of input))) in
      (is_aabb buf ≡ false) × (is_push buf ≡ false) × (is_tlv buf ≡ true)
unfolding is_aabb is_push is_tlv
chosen_framing from_device input h =
    let b5 = or_default input.byte5 2 in
    let b6 = or_default input.byte6 4 in
    let b7 = or_default input.byte7 0 in
    let n = length-packet 0 0 0x87 b5 b6 b7 (payload_of input) in
    (ground arith, ground arith, ground arith)
chosen_framing to_device input h =
    let a = or_default input.a 0 in
    let s = or_default input.s 0 in
    let b5 = or_default input.byte5 2 in
    let b6 = or_default input.byte6 2 in
    let b7 = or_default input.byte7 1 in
    let n = length-packet a s 0x65 b5 b6 b7 (payload_of input) in
    let last = packet_last a s 0x65 b5 b6 b7 (payload_of input) in
    (ground arith, ground arith, ground arith)

-- An input of bytes whose payload fits in 255 of them is encoded, and its text is decoded to the
-- same direction, header bytes and records, with the checksum found right; provided that a packet to
-- the device does not begin with 0xaa and end in 0xbb.
pub decode_packet-encode_packet :
    (hex : HexCodec) (input : TlvEncodeInput)
    → IsByteInput input
    → length (payload_of input) < 256
    → IsNotAabb input input.direction
    → (p : List ℕ × List ℕ) × (encode_packet hex (tlv input) ≡ some p)
      × (decode_packet hex p.0 ≡ decoded_of input input.direction)
unfolding encode_packet decode_packet
decode_packet-encode_packet hex input bytes short other =
    let buf = packet_of input in
    let (not_aabb, not_push, is_tlv) = chosen_framing input.direction input other in
    let sent = encode_tlv-packet_of input bytes short in
    let read : hex.of_hex (hex.strip (hex.to_hex buf)) ≡ buf =
      rw (hex.strip-to_hex buf) (hex.of_hex-to_hex buf (packet-IsByte input bytes short)) in
    (
      (hex.to_hex buf, buf),
      rw (sent, encode_packet),
      rw (read, not_aabb, not_push, is_tlv) (decode_layout input.direction input (hex.to_hex buf)),
    )
