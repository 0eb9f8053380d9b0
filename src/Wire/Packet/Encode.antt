-- ===== src/Wire/Packet/Encode.antt =====
-- What `encodeTlv` writes: bytes only, so `Buffer.from` changes nothing, and the checksum of the
-- frame at the end.
use rethink.Common.{
  ℕ, ◌/◌, ◌%◌, ◌<◌, ◌≡◌, refl, ap, true, false, none, some, List, [], ◌∷◌, ◌++◌, map, arith, ltb,
  length, All, All-append,
}
use rethink.Wire.Tlv.{Tlv}
use rethink.Wire.Tlv
use rethink.Wire.Tlv.Laws.{build-IsByte}
use rethink.Wire.Crc16.{crc16}
use rethink.Wire.Crc16.Laws.{crc16-lt, crc_bytes}
use rethink.Wire.Packet.{
  Direction, from_device, to_device, TlvEncodeInput, buffer_from, or_default, uart_of, prefix_of,
  encode_tlv,
}

abbrev pub IsByte : ℕ → Type 0
IsByte b = b < 256

-- The numbers that a caller may choose freely are bytes.
pub record IsByteInput (input : TlvEncodeInput) : Type 0 where
  pub a : or_default input.a 0 < 256
  pub s : or_default input.s 0 < 256
  pub byte5 : (d : ℕ) → d < 256 → or_default input.byte5 d < 256
  pub byte6 : (d : ℕ) → d < 256 → or_default input.byte6 d < 256
  pub byte7 : (d : ℕ) → d < 256 → or_default input.byte7 d < 256

pub buffer_from_bytes : (bytes : List ℕ) → All IsByte bytes → buffer_from bytes ≡ bytes
buffer_from_bytes [] h = refl
buffer_from_bytes (b ∷ bytes) (p, h) =
    let e : b % 256 ≡ b = omega arith in rw (e, buffer_from_bytes bytes h)

-- The records to be sent, as `encodeTlv` hands them to `build`.
abbrev pub elements_of : List (ℕ × ℕ) → List Tlv
elements_of tlv = map (λ (e : ℕ × ℕ). record { t = e.0; l = none; v = e.1 }) tlv

-- The payload of an input, and its frame.
abbrev pub payload_of : TlvEncodeInput → List ℕ
payload_of input = Tlv.build (elements_of input.tlv)

abbrev pub frame_of : TlvEncodeInput → List ℕ
frame_of input = uart_of input.direction input (payload_of input)

-- The packet: the prefix, the frame, and the frame's checksum.
abbrev pub packet_of : TlvEncodeInput → List ℕ
packet_of input = prefix_of input.direction input ++ (frame_of input ++ crc_bytes (frame_of input))

module _ (input : TlvEncodeInput) (bytes : IsByteInput input) where
  uart-IsByte :
      (d : Direction) (payload : List ℕ)
      → All IsByte payload
      → length payload < 256
      → All IsByte (uart_of d input payload)
  uart-IsByte from_device payload h k = (
    omega arith,
    (
      omega arith,
      (
        omega arith,
        (
          omega arith,
          (
            omega arith,
            (
              bytes.byte5 2 (omega arith),
              (bytes.byte6 4 (omega arith), (bytes.byte7 0 (omega arith), (k, h))),
            ),
          ),
        ),
      ),
    ),
  )
  uart-IsByte to_device payload h k = (
    omega arith,
    (
      omega arith,
      (
        omega arith,
        (
          omega arith,
          (
            omega arith,
            (
              bytes.byte5 2 (omega arith),
              (bytes.byte6 2 (omega arith), (bytes.byte7 1 (omega arith), (k, h))),
            ),
          ),
        ),
      ),
    ),
  )

  prefix-IsByte : (d : Direction) → All IsByte (prefix_of d input)
  prefix-IsByte from_device = omega arith
  prefix-IsByte to_device = (bytes.a, (bytes.s, tt))

  pub packet-IsByte : length (payload_of input) < 256 → All IsByte (packet_of input)
  packet-IsByte h =
      let frame =
        uart-IsByte input.direction (payload_of input) (build-IsByte (elements_of input.tlv)) h in
      All-append IsByte (prefix_of input.direction input)
        (frame_of input ++ crc_bytes (frame_of input)) (prefix-IsByte input.direction)
        (All-append IsByte (frame_of input) (crc_bytes (frame_of input)) frame
          (omega (arith, crc16-lt (frame_of input))))

  -- A payload of at most 255 bytes is sent, in that layout.
  pub encode_tlv-packet_of :
      length (payload_of input) < 256 → encode_tlv input ≡ some (packet_of input)
  unfolding encode_tlv
  encode_tlv-packet_of h =
      let c = crc16 (frame_of input) in
      let short : ltb 255 (length (payload_of input)) ≡ false = ground arith in
      let high : c / 256 % 256 ≡ c / 256 = omega (arith, crc16-lt (frame_of input)) in
      rw (short, high) (ap some (buffer_from_bytes (packet_of input) (packet-IsByte h)))

-- A longer payload is refused.
pub encode_tlv-too_long :
    (input : TlvEncodeInput) → 255 < length (payload_of input) → encode_tlv input ≡ none
unfolding encode_tlv
encode_tlv-too_long input h =
    let long : ltb 255 (length (payload_of input)) ≡ true = ground arith in rw long
