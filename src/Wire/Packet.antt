-- ===== src/Wire/Packet.antt =====
-- util/packet-codec.ts: packets built from their fields and taken apart again. A `Buffer` is a list
-- of bytes and a hexadecimal text the list of its characters; an index behind the end reads 0 where
-- the code would read `undefined`, and every read below stands behind the code's own length check.
pub mod Encode
pub mod RoundTrip
pub mod Aabb
mod Tests
use rethink.Common.{
  ℕ, zero, suc, ◌+◌, ◌-◌, ◌*◌, ◌/◌, ◌%◌, ◌^◌, ◌≤◌, ◌<◌, min, bit_xor, ◌≡◌, refl, sym, ap, ◌∙◌,
  ◌≡⟨◌⟩◌, ◌∎, ◌≢◌, ◌↔◌, ◌⊎◌, inl, inr, Bool, true, false, not, ◌&&◌, ◌||◌, Option, none, some, List,
  [], ◌∷◌, ◌++◌, map, append-nil, append_assoc, arith, ltb, leb, ◌==◌, ==_iff, if◌then◌else◌,
  Bool-cases, Option-cases, all_below, all_below_sound, length, get_elem?, get_or, take, drop,
  concat, length-append, length-drop, length-take, take-append_le, drop-append_le, take_length,
  drop_length, All, All-append, All-drop, All-take, bit_xor-zero, bit_xor_self, bit_xor-lt,
  bit_xor_bytes, bit_xor_words, bit_xor_comm, bit_xor_cancel, zero-bit_xor,
}
use rethink.Wire.Tlv.{Tlv}
use rethink.Wire.Tlv
use rethink.Wire.Crc16.{crc16}

-- What Node's `Buffer` and `String.replace` provide: the hexadecimal text of a buffer in lower case,
-- the buffer of such a text, and a text less its white space.
pub record HexCodec : Type 0 where
  pub to_hex : List ℕ → List ℕ
  pub of_hex : List ℕ → List ℕ
  pub strip : List ℕ → List ℕ
  pub of_hex-to_hex : (bytes : List ℕ) → All (λ b. b < 256) bytes → of_hex (to_hex bytes) ≡ bytes
  pub strip-to_hex : (bytes : List ℕ) → strip (to_hex bytes) ≡ to_hex bytes

pub data Direction : Type 0 where
  from_device to_device : Direction

pub record TlvEncodeInput : Type 0 where
  pub direction : Direction
  pub tlv : List (ℕ × ℕ)
  pub a : Option ℕ
  pub s : Option ℕ
  pub byte5 : Option ℕ
  pub byte6 : Option ℕ
  pub byte7 : Option ℕ

pub record AabbEncodeInput : Type 0 where
  pub direction : Option Direction
  pub body : List ℕ

pub data EncodeInput : Type 0 where
  tlv : TlvEncodeInput → EncodeInput
  aabb : AabbEncodeInput → EncodeInput

pub record Frame : Type 0 where
  pub kind : ℕ
  pub byte5 : ℕ
  pub byte6 : ℕ
  pub byte7 : ℕ
  pub len : ℕ

pub record DecodedTlv : Type 0 where
  pub direction : Direction
  pub crc_ok : Bool
  pub tlv : List Tlv
  pub frame : Frame
  pub a : Option ℕ
  pub s : Option ℕ

pub record DecodedAabb : Type 0 where
  pub checksum_ok : Bool
  pub length : ℕ
  pub body : List ℕ

pub record DecodedTlvPush : Type 0 where
  pub crc_ok : Bool
  pub payload : List ℕ
  pub variant : ℕ
  pub marker : ℕ
  pub sequence : ℕ
  pub signature : List ℕ
  pub len : ℕ

pub data Reason : Type 0 where
  tlv_length_overruns unrecognized_framing : Reason

pub data Decoded : Type 0 where
  tlv_packet : DecodedTlv → Decoded
  tlv_push : DecodedTlvPush → Decoded
  aabb_packet : DecodedAabb → Decoded
  unknown : List ℕ → Reason → Decoded

-- `Buffer.from` of an array of numbers keeps the low byte of each.
abbrev pub buffer_from : List ℕ → List ℕ
buffer_from numbers = map (λ n. n % 256) numbers

-- `buf.subarray(from, to)`.
abbrev pub subarray : List ℕ → ℕ → ℕ → List ℕ
subarray buf from to = take (to - from) (drop from buf)

-- `given ?? default`.
abbrev pub or_default : Option ℕ → ℕ → ℕ
or_default none d = d
or_default (some n) d = n

abbrev pub sum_from : ℕ → List ℕ → ℕ
sum_from sum [] = sum
sum_from sum (b ∷ bytes) = sum_from (sum + b) bytes

-- `aabbChecksum`.
unfoldable pub aabb_checksum : List ℕ → ℕ
aabb_checksum packet_without_checksum = bit_xor (sum_from 0 packet_without_checksum % 256) 0x55

-- The `uart` array of `encodeTlv`, for each direction.
abbrev pub uart_of : Direction → TlvEncodeInput → List ℕ → List ℕ
uart_of from_device input tlv_bytes =
    0x04
    ∷ 0x00
    ∷ 0x00
    ∷ 0x00
    ∷ 0x87
    ∷ or_default input.byte5 0x02
    ∷ or_default input.byte6 0x04
    ∷ or_default input.byte7 0x00
    ∷ length tlv_bytes
    ∷ tlv_bytes
uart_of to_device input tlv_bytes =
    0x04
    ∷ 0x00
    ∷ 0x00
    ∷ 0x00
    ∷ 0x65
    ∷ or_default input.byte5 2
    ∷ or_default input.byte6 2
    ∷ or_default input.byte7 1
    ∷ length tlv_bytes
    ∷ tlv_bytes

-- Its `prefix` array.
abbrev pub prefix_of : Direction → TlvEncodeInput → List ℕ
prefix_of from_device input = 0x00 ∷ 0x00 ∷ []
prefix_of to_device input = or_default input.a 0 ∷ or_default input.s 0 ∷ []

-- `encodeTlv`; `none` where the code throws because the payload exceeds 255 bytes.
pub encode_tlv : TlvEncodeInput → Option (List ℕ)
encode_tlv input =
    let tlv_bytes =
      Tlv.build (map (λ (e : ℕ × ℕ). record { t = e.0; l = none; v = e.1 }) input.tlv) in
    let uart = uart_of input.direction input tlv_bytes in
    let crc = crc16 uart in
    if ltb 255 (length tlv_bytes)
    then none
    else some (
        buffer_from
          (prefix_of input.direction input ++ (uart ++ ((crc / 256 % 256) ∷ (crc % 256) ∷ []))))

-- `encodeAabb`.
pub encode_aabb : HexCodec → AabbEncodeInput → List ℕ
encode_aabb hex input =
    let inner = hex.of_hex input.body in
    let head = buffer_from (0xaa ∷ (length inner + 4) ∷ []) in
    head ++ (inner ++ buffer_from (aabb_checksum (head ++ inner) ∷ 0xbb ∷ []))

-- `encodePacket`, which returns the text and the buffer.
pub encode_packet : HexCodec → EncodeInput → Option (List ℕ × List ℕ)
encode_packet hex (aabb input) =
    let buffer = encode_aabb hex input in some (hex.to_hex buffer, buffer)
encode_packet hex (tlv input) = elim (encode_tlv input) [
  | none ↦ none
  | some buffer ↦ some (hex.to_hex buffer, buffer)
]

-- The conditions under which `decodePacket` takes a buffer for each of the three framings.
pub is_aabb : List ℕ → Bool
is_aabb buf = leb 5 (length buf) && get_or buf 0 0 == 0xaa && get_or buf (length buf - 1) 0 == 0xbb

pub is_push : List ℕ → Bool
is_push buf =
    leb 18 (length buf)
    && (get_or buf 2 0 == 0x04
        && get_or buf 3 0 == 0x00
        && get_or buf 4 0 == 0x00
        && get_or buf 5 0 == 0x00
        && get_or buf 6 0 == 0xa8
        && (get_or buf 7 0 == 0x66 || get_or buf 7 0 == 0x67))

pub is_tlv : List ℕ → Bool
is_tlv buf =
    leb 13 (length buf)
    && (get_or buf 2 0 == 0x04
        && (get_or buf 6 0 == 0x87 || get_or buf 6 0 == 0xa7 || get_or buf 6 0 == 0x65))

abbrev pub decode_aabb : HexCodec → List ℕ → Decoded
decode_aabb hex buf =
    let expected = aabb_checksum (subarray buf 0 (length buf - 2)) in
    aabb_packet (record {
      checksum_ok = get_or buf (length buf - 2) 0 == expected;
      length = get_or buf 1 0;
      body = hex.to_hex (subarray buf 2 (length buf - 2));
    })

abbrev pub decode_push : HexCodec → List ℕ → Decoded
decode_push hex buf =
    let payload = subarray buf 8 (length buf - 2) in
    tlv_push (record {
      crc_ok = crc16 (drop 2 buf) == 0;
      payload = hex.to_hex payload;
      variant = get_or buf 7 0;
      marker = get_or payload 0 0;
      sequence = get_or payload 7 0;
      signature = hex.to_hex (subarray payload 1 6);
      len = length payload;
    })

abbrev pub decode_tlv : List ℕ → List ℕ → Decoded
decode_tlv text buf =
    let len = get_or buf 10 0 in
    let crc_ok = crc16 (drop 2 buf) == 0 in
    let tlv = Tlv.parse (subarray buf 11 (11 + len)) in
    let frame : Frame = record {
      kind = get_or buf 6 0;
      byte5 = get_or buf 7 0;
      byte6 = get_or buf 8 0;
      byte7 = get_or buf 9 0;
      len = len;
    } in
    if ltb (length buf) (11 + len + 2)
    then unknown text tlv_length_overruns
    else if get_or buf 6 0 == 0x65
    then tlv_packet (record {
      direction = to_device;
      crc_ok = crc_ok;
      tlv = tlv;
      frame = frame;
      a = some (get_or buf 0 0);
      s = some (get_or buf 1 0);
    })
    else tlv_packet (record {
      direction = from_device;
      crc_ok = crc_ok;
      tlv = tlv;
      frame = frame;
      a = none;
      s = none;
    })

-- `decodePacket`.
pub decode_packet : HexCodec → List ℕ → Decoded
decode_packet hex text =
    let buf = hex.of_hex (hex.strip text) in
    if is_aabb buf
    then decode_aabb hex buf
    else if is_push buf
    then decode_push hex buf
    else if is_tlv buf
    then decode_tlv text buf
    else unknown text unrecognized_framing
