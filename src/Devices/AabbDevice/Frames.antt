-- ===== src/Devices/AabbDevice/Frames.antt =====
-- The frames of an AABB device against those of the packet codec.
use rethink.Common.{
  ℕ, suc, ◌+◌, ◌-◌, ◌%◌, bit_xor, ◌≡◌, refl, sym, ap, ◌∙◌, true, List, [], ◌∷◌, ◌++◌, arith, leb,
  length, length-append,
}
use rethink.Wire.Packet.{HexCodec, AabbEncodeInput, encode_aabb, subarray, sum_from, aabb_checksum}
use rethink.Wire.Packet.Aabb.{
  aabb_of, encode_aabb-aabb_of, length-aabb_of, aabb_of_last, aabb_of_body,
}
use rethink.Devices.AabbDevice.{AabbDevice, set_byte, frame_of, send_frame, frame, process_frame}

sum_from-zeros :
    (sum : ℕ) (bytes : List ℕ) → sum_from sum (bytes ++ (0 ∷ 0 ∷ [])) ≡ sum_from sum bytes
sum_from-zeros sum [] = let e : sum + 0 + 0 ≡ sum = omega arith in e
sum_from-zeros sum (b ∷ bytes) = sum_from-zeros (sum + b) bytes

-- The two bytes at the end of a buffer are those that are written there.
set_ends :
    (bytes : List ℕ) (x y c e : ℕ)
    → set_byte (suc (length bytes)) e (set_byte (length bytes) c (bytes ++ (x ∷ y ∷ [])))
      ≡ bytes ++ (c ∷ e ∷ [])
unfolding set_byte
set_ends [] x y c e = refl
set_ends (b ∷ bytes) x y c e = ap (λ t. b ∷ t) (set_ends bytes x y c e)

frame_of-aabb_of : (inner : List ℕ) → frame_of inner ≡ aabb_of inner
unfolding frame_of aabb_checksum
frame_of-aabb_of inner =
    let head = 0xaa ∷ ((length inner + 4) % 256) ∷ inner in
    let buf = head ++ (0x00 ∷ 0x00 ∷ []) in
    let n : length buf ≡ length head + 2 = length-append head (0x00 ∷ 0x00 ∷ []) in
    let last : length buf - 1 ≡ suc (length head) = omega (arith, n) in
    let before : length buf - 2 ≡ length head = omega (arith, n) in
    rw (last, before, sum_from-zeros 0 head)
      (set_ends head 0 0 (bit_xor (sum_from 0 head % 256) 0x55) 0xbb)

process_frame-frame_of :
    (process_aabb : List ℕ → AabbDevice → AabbDevice) (inner : List ℕ) (device : AabbDevice)
    → process_frame process_aabb (frame_of inner) device ≡ process_aabb inner device
unfolding process_frame
process_frame-frame_of process_aabb inner device = rw frame_of-aabb_of (
    let long : leb 4 (length (aabb_of inner)) ≡ true = ground (arith, length-aabb_of inner) in
    let body : subarray (aabb_of inner) 2 (length (aabb_of inner) - 2) ≡ inner =
      aabb_of_body inner in
    rw (long, aabb_of_last inner, body) refl)

-- A frame that the handler sends is the packet that the packet codec makes of the same body, and a
-- handler that receives such a packet passes exactly that body on, the empty one too.
pub send_frame-encode_aabb :
    (hex : HexCodec) (input : AabbEncodeInput) (process_aabb : List ℕ → AabbDevice → AabbDevice)
    (device : AabbDevice)
    → (send_frame (hex.of_hex input.body) device
        ≡ record device { out = frame (encode_aabb hex input) ∷ device.out })
      × (process_frame process_aabb (encode_aabb hex input) device
          ≡ process_aabb (hex.of_hex input.body) device)
unfolding send_frame
send_frame-encode_aabb hex input process_aabb device =
    let same = frame_of-aabb_of (hex.of_hex input.body) ∙ sym (encode_aabb-aabb_of hex input) in
    (
      ap (λ p. record device { out = frame p ∷ device.out }) same,
      ap (λ p. process_frame process_aabb p device) (sym same)
          ∙ process_frame-frame_of process_aabb (hex.of_hex input.body) device,
    )
