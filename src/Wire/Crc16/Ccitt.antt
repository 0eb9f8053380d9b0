-- ===== src/Wire/Crc16/Ccitt.antt =====
-- The table-driven checksum against a bit-by-bit description of it: the CRC of the polynomial
-- x^16 + x^12 + x^5 + 1, highest bit first, from the register 0.
use rethink.Common.{
  ℕ, ◌+◌, ◌*◌, ◌/◌, ◌%◌, ◌<◌, bit_xor, ◌≡◌, refl, sym, ap, ◌∙◌, Bool, true, List, [], ◌∷◌, arith,
  leb, ◌==◌, ==_iff, if◌then◌else◌, all_below, all_below_sound, All, bit_xor-zero, bit_xor-lt,
  bit_xor_bytes, bit_xor_words,
}
use mathlib.Core.List.{foldl}
use rethink.Wire.Crc16.{crc16_step, crc16}
use rethink.Wire.Crc16.Laws.{entry, entry-lt, crc16_step-lt}

-- Shift the register by one bit, and divide by the polynomial if a bit fell out.
abbrev pub shift_bit : ℕ → ℕ
shift_bit c = if leb 32768 c then bit_xor (c * 2 % 65536) 0x1021 else c * 2 % 65536

abbrev pub shift_byte : ℕ → ℕ
shift_byte c =
    shift_bit (shift_bit (shift_bit (shift_bit (shift_bit (shift_bit (shift_bit (shift_bit c)))))))

-- The message's byte enters at the top of the register.
abbrev pub ccitt_step : ℕ → ℕ → ℕ
ccitt_step crc v = shift_byte (bit_xor crc (v * 256))

pub ccitt : List ℕ → ℕ
ccitt arr = foldl ccitt_step 0 arr

-- Every register of two bytes, checked by evaluation: the table holds what eight shifts make of the
-- high byte, and the low byte moves up.
low_bytes_agree : ℕ → Bool
low_bytes_agree hi =
    all_below 256 (λ lo. shift_byte (hi * 256 + lo) == bit_xor (lo * 256) (entry hi))

registers_agree : all_below 256 low_bytes_agree ≡ true
unfolding all_below low_bytes_agree
registers_agree = refl

-- One entry of the table for eight shifts of the register.
shift_byte_table : (c : ℕ) → c < 65536 → shift_byte c ≡ bit_xor (c % 256 * 256) (entry (c / 256))
unfolding low_bytes_agree
shift_byte_table c h =
    let row : low_bytes_agree (c / 256) ≡ true =
      all_below_sound 256 low_bytes_agree (c / 256) registers_agree (omega arith) in
    let cell : (shift_byte (c / 256 * 256 + c % 256) == bit_xor (c % 256 * 256) (entry (c / 256)))
        ≡ true =
      all_below_sound 256 _ (c % 256) row (omega arith) in
    let whole : c / 256 * 256 + c % 256 ≡ c = omega arith in
    ap shift_byte (sym whole) ∙ (==_iff _ _).0 cell

-- The two steps agree on a register of two bytes and a byte.
-- The byte meets the high byte of the register.
enter_byte :
    (crc v : ℕ)
    → crc < 65536
    → v < 256
    → bit_xor crc (v * 256) ≡ bit_xor (crc / 256) v * 256 + crc % 256
enter_byte crc v h k =
    let e : crc ≡ crc / 256 * 256 + crc % 256 = omega arith in
    let f : v * 256 ≡ v * 256 + 0 = omega arith in
    ap (λ c. bit_xor c (v * 256)) e
    ∙ ap (λ w. bit_xor (crc / 256 * 256 + crc % 256) w) f
    ∙ bit_xor_bytes (crc / 256) (crc % 256) v 0 (omega arith) (omega arith)
    ∙ rw bit_xor-zero

-- What leaves the register at the top does not come back.
pub drop_top : (crc t : ℕ) → t < 65536 → bit_xor (crc * 256) t % 65536 ≡ bit_xor (crc % 256 * 256) t
drop_top crc t h =
    let e : crc * 256 ≡ crc / 256 * 65536 + crc % 256 * 256 = omega arith in
    let r : bit_xor (crc % 256 * 256) t < 65536 = bit_xor-lt 16 _ t (omega arith) h in
    let s : bit_xor (crc / 256 * 65536 + crc % 256 * 256) (0 * 65536 + t)
        ≡ bit_xor (crc / 256) 0 * 65536 + bit_xor (crc % 256 * 256) t =
      bit_xor_words (crc / 256) (crc % 256 * 256) 0 t (omega arith) h in
    let z : t ≡ 0 * 65536 + t = omega arith in
    ap (λ c. bit_xor c t % 65536) e
    ∙ ap (λ w. bit_xor (crc / 256 * 65536 + crc % 256 * 256) w % 65536) z
    ∙ omega (arith, s)

ccitt_step-crc16_step : (crc v : ℕ) → crc < 65536 → v < 256 → ccitt_step crc v ≡ crc16_step crc v
unfolding crc16_step
ccitt_step-crc16_step crc v h k =
    let x = bit_xor (crc / 256) v in
    let b : x < 256 = bit_xor-lt 8 (crc / 256) v (omega arith) k in
    let high : (x * 256 + crc % 256) / 256 ≡ x = omega arith in
    let low : (x * 256 + crc % 256) % 256 ≡ crc % 256 = omega arith in
    let same : x % 256 ≡ x = omega arith in
    ap shift_byte (enter_byte crc v h k)
    ∙ shift_byte_table (x * 256 + crc % 256) (omega arith)
    ∙ rw (high, low) (sym (rw same (drop_top crc (entry x) (entry-lt x b))))

ccitt-crc16_from :
    (arr : List ℕ) (crc : ℕ)
    → crc < 65536
    → All (λ v. v < 256) arr
    → foldl ccitt_step crc arr ≡ foldl crc16_step crc arr
ccitt-crc16_from [] crc h k = refl
ccitt-crc16_from (v ∷ arr) crc h (p, k) =
    rw (ccitt_step-crc16_step crc v h p)
      (ccitt-crc16_from arr (crc16_step crc v) (crc16_step-lt crc v) k)

-- On bytes the table-driven checksum is the CRC of the polynomial 0x1021.
pub crc16-ccitt : (arr : List ℕ) → All (λ v. v < 256) arr → crc16 arr ≡ ccitt arr
unfolding crc16 ccitt
crc16-ccitt arr h = sym (ccitt-crc16_from arr 0 (omega arith) h)
