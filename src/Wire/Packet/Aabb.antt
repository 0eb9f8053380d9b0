-- ===== src/Wire/Packet/Aabb.antt =====
-- `decodePacket` of what `encodeAabb` wrote.
use rethink.Common.{
  ℕ, suc, ◌+◌, ◌-◌, ◌%◌, ◌<◌, ◌≡◌, ap, ◌∙◌, inl, inr, true, false, List, [], ◌∷◌, ◌++◌, arith, ltb,
  leb, ◌==◌, if◌then◌else◌, Bool-cases, length, get_or, length-append, take-append_le, take_length,
  All, All-append, bit_xor-lt,
}
use rethink.Wire.Packet.{
  HexCodec, AabbEncodeInput, aabb_packet, unknown, unrecognized_framing, sum_from, aabb_checksum,
  encode_aabb, is_aabb, is_push, is_tlv, decode_packet, decode_aabb, subarray,
}
use rethink.Wire.Packet.Encode.{IsByte}

pub aabb_checksum-lt : (bytes : List ℕ) → aabb_checksum bytes < 256
unfolding aabb_checksum
aabb_checksum-lt bytes = bit_xor-lt 8 (sum_from 0 bytes % 256) 0x55 (omega arith) (omega arith)

-- What is sent for an inner body: start, length, body, checksum, end.
abbrev pub aabb_of : List ℕ → List ℕ
aabb_of inner =
    0xaa
    ∷ ((length inner + 4) % 256)
    ∷ (inner ++ (aabb_checksum (0xaa ∷ ((length inner + 4) % 256) ∷ inner) ∷ 0xbb ∷ []))

pub encode_aabb-aabb_of :
    (hex : HexCodec) (input : AabbEncodeInput)
    → encode_aabb hex input ≡ aabb_of (hex.of_hex input.body)
unfolding encode_aabb
encode_aabb-aabb_of hex input =
    let inner = hex.of_hex input.body in
    let c = aabb_checksum (0xaa ∷ ((length inner + 4) % 256) ∷ inner) in
    let e : c % 256 ≡ c =
      omega (arith, aabb_checksum-lt (0xaa ∷ ((length inner + 4) % 256) ∷ inner)) in
    rw e

aabb_of-IsByte : (inner : List ℕ) → All IsByte inner → All IsByte (aabb_of inner)
aabb_of-IsByte inner h =
    let c = aabb_checksum (0xaa ∷ ((length inner + 4) % 256) ∷ inner) in
    (
      omega arith,
      (
        omega arith,
        All-append IsByte inner (c ∷ 0xbb ∷ []) h
            (omega (arith, aabb_checksum-lt (0xaa ∷ ((length inner + 4) % 256) ∷ inner))),
      ),
    )

get_or-append : (xs ys : List ℕ) (i : ℕ) → get_or (xs ++ ys) (length xs + i) 0 ≡ get_or ys i 0
get_or-append [] ys i = let e : 0 + i ≡ i = omega arith in rw e
get_or-append (x ∷ xs) ys i =
    let e : suc (length xs) + i ≡ suc (length xs + i) = omega arith in rw e (get_or-append xs ys i)

module _ (inner : List ℕ) where
  abbrev checksum : ℕ
  checksum = aabb_checksum (0xaa ∷ ((length inner + 4) % 256) ∷ inner)

  pub length-aabb_of : length (aabb_of inner) ≡ length inner + 4
  length-aabb_of = omega (arith, length-append inner (checksum ∷ 0xbb ∷ []))

  pub aabb_of_last : get_or (aabb_of inner) (length (aabb_of inner) - 1) 0 ≡ 0xbb
  aabb_of_last =
      let e : length (aabb_of inner) - 1 ≡ suc (suc (length inner + 1)) =
        omega (arith, length-aabb_of) in
      rw e (get_or-append inner (checksum ∷ 0xbb ∷ []) 1)

  aabb_of-checksum : get_or (aabb_of inner) (length (aabb_of inner) - 2) 0 ≡ checksum
  aabb_of-checksum =
      let e : length (aabb_of inner) - 2 ≡ suc (suc (length inner + 0)) =
        omega (arith, length-aabb_of) in
      rw e (get_or-append inner (checksum ∷ 0xbb ∷ []) 0)

  aabb_of_front :
      subarray (aabb_of inner) 0 (length (aabb_of inner) - 2)
      ≡ 0xaa ∷ ((length inner + 4) % 256) ∷ inner
  aabb_of_front =
      let e : length (aabb_of inner) - 2 - 0 ≡ suc (suc (length inner)) =
        omega (arith, length-aabb_of) in
      rw e (
        ap (λ t. 0xaa ∷ ((length inner + 4) % 256) ∷ t)
          (take-append_le (length inner) inner (checksum ∷ 0xbb ∷ []) (omega arith)
            ∙ take_length inner))

  pub aabb_of_body : subarray (aabb_of inner) 2 (length (aabb_of inner) - 2) ≡ inner
  aabb_of_body =
      let e : length (aabb_of inner) - 2 - 2 ≡ length inner = omega (arith, length-aabb_of) in
      rw e (
        take-append_le (length inner) inner (checksum ∷ 0xbb ∷ []) (omega arith)
        ∙ take_length inner)

  aabb_of-decode_aabb :
      (hex : HexCodec)
      → decode_aabb hex (aabb_of inner)
        ≡ aabb_packet (record {
          checksum_ok = true;
          length = (length inner + 4) % 256;
          body = hex.to_hex inner;
        })
  aabb_of-decode_aabb hex =
      let same : (checksum == checksum) ≡ true = ground arith in
      rw (aabb_of_front, aabb_of-checksum, aabb_of_body, same)

  aabb_of-is_aabb : is_aabb (aabb_of inner) ≡ ltb 0 (length inner)
  unfolding is_aabb
  aabb_of-is_aabb = ground (arith, length-aabb_of, aabb_of_last)

-- Four bytes are too few for the other two framings.
short_unknown : (buf : List ℕ) → length buf < 13 → (is_push buf ≡ false) × (is_tlv buf ≡ false)
unfolding is_push is_tlv
short_unknown buf h =
    let p : leb 18 (length buf) ≡ false = ground arith in
    let q : leb 13 (length buf) ≡ false = ground arith in (rw p, rw q)

-- A body of at least one byte comes back with the checksum found right and the length byte that was
-- sent; an empty body is sent as four bytes, which the decoder does not recognise.
pub decode_packet-encode_aabb :
    (hex : HexCodec) (input : AabbEncodeInput)
    → All IsByte (hex.of_hex input.body)
    → let inner = hex.of_hex input.body in
      let text = hex.to_hex (encode_aabb hex input) in
      decode_packet hex text ≡ (
        if ltb 0 (length inner)
        then aabb_packet (record {
          checksum_ok = true;
          length = (length inner + 4) % 256;
          body = hex.to_hex inner;
        })
        else unknown text unrecognized_framing)
unfolding decode_packet
decode_packet-encode_aabb hex input h =
    let inner = hex.of_hex input.body in
    let text = hex.to_hex (aabb_of inner) in
    let read : hex.of_hex (hex.strip text) ≡ aabb_of inner =
      rw (hex.strip-to_hex (aabb_of inner))
        (hex.of_hex-to_hex (aabb_of inner) (aabb_of-IsByte inner h)) in
    rw encode_aabb-aabb_of (
      rw (read, aabb_of-is_aabb inner)
        (elim (Bool-cases (ltb 0 (length inner))) [
          | inl full ↦ rw full (aabb_of-decode_aabb inner hex)
          | inr empty ↦
              let (not_push, not_tlv) =
                short_unknown (aabb_of inner) (ground (arith, length-aabb_of inner)) in
              rw (empty, not_push, not_tlv)
        ]))
