-- ===== src/Wire/Crc16/Laws.antt =====
-- Bounds of the checksum, and what it gives on a message that ends in its own checksum.
use rethink.Common.{
  ℕ, ◌*◌, ◌/◌, ◌%◌, ◌<◌, ◌≡◌, refl, ◌∙◌, true, List, [], ◌∷◌, ◌++◌, get_or, arith, all_below,
  all_below_sound, bit_xor-zero, bit_xor_self, ltb,
}
use mathlib.Core.List.{foldl, foldl-append}
use rethink.Wire.Crc16.{crc16tab, crc16_step, crc16}

-- The entry of the table for a byte.
abbrev pub entry : ℕ → ℕ
entry i = get_or crc16tab i 0

entries_fit : all_below 256 (λ i. ltb (entry i) 65536) ≡ true
unfolding all_below
entries_fit = refl

pub entry-lt : (i : ℕ) → i < 256 → entry i < 65536
entry-lt i h =
    let fits : ltb (entry i) 65536 ≡ true = all_below_sound 256 _ i entries_fit h in ground arith

pub crc16_step-lt : (crc v : ℕ) → crc16_step crc v < 65536
unfolding crc16_step
crc16_step-lt crc v = omega arith

pub foldl-crc16_step-lt : (arr : List ℕ) (crc : ℕ) → crc < 65536 → foldl crc16_step crc arr < 65536
foldl-crc16_step-lt [] crc h = h
foldl-crc16_step-lt (v ∷ arr) crc h =
    foldl-crc16_step-lt arr (crc16_step crc v) (crc16_step-lt crc v)

pub crc16-lt : (arr : List ℕ) → crc16 arr < 65536
unfolding crc16
crc16-lt arr = foldl-crc16_step-lt arr 0 (omega arith)

-- A step on the high byte of the checksum brings its low byte to the top.
crc16_step_high : (crc : ℕ) → crc16_step crc (crc / 256) ≡ crc % 256 * 256
unfolding crc16_step
crc16_step_high crc = rw (bit_xor_self, bit_xor-zero) (omega arith)

-- Two steps on the bytes of the checksum itself, highest first, leave zero.
pub crc16_step_own : (crc : ℕ) → crc16_step (crc16_step crc (crc / 256)) (crc % 256) ≡ 0
crc16_step_own crc =
    let top : crc % 256 * 256 / 256 ≡ crc % 256 = omega arith in
    let low : crc % 256 * 256 * 256 % 65536 ≡ 0 = omega arith in
    rw crc16_step_high (unfold crc16_step in rw (top, bit_xor_self, bit_xor-zero, low))

-- The two bytes that a sender appends.
abbrev pub crc_bytes : List ℕ → List ℕ
crc_bytes arr = (crc16 arr / 256) ∷ (crc16 arr % 256) ∷ []

-- A message followed by its checksum, high byte first, has checksum zero: what the receivers test.
pub crc16-append_crc : (arr : List ℕ) → crc16 (arr ++ crc_bytes arr) ≡ 0
unfolding crc16
crc16-append_crc arr =
    foldl-append crc16_step 0 arr (crc_bytes arr) ∙ crc16_step_own (foldl crc16_step 0 arr)
