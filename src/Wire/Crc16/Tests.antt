-- ===== src/Wire/Crc16/Tests.antt =====
-- Checksums of short messages, and the theorems at concrete inputs.
use rethink.Common.{ℕ, ◌≡◌, refl, ◌≢◌, List, [], ◌∷◌, arith}
use rethink.Wire.Crc16.{crc16}
use rethink.Wire.Crc16.Ccitt.{ccitt, crc16-ccitt}
use rethink.Wire.Crc16.Detection.{crc16-detects_byte}

-- The digits "123456789", the usual check input.
abbrev check_input : List ℕ
check_input = 49 ∷ 50 ∷ 51 ∷ 52 ∷ 53 ∷ 54 ∷ 55 ∷ 56 ∷ 57 ∷ []

crc16_check : crc16 check_input ≡ 0x31c3
unfolding crc16
crc16_check = refl

crc16-ccitt_example : crc16 check_input ≡ ccitt check_input
crc16-ccitt_example = crc16-ccitt check_input (omega arith)

crc16-detects_byte_example : crc16 (4 ∷ 0 ∷ 7 ∷ []) ≢ crc16 (4 ∷ 1 ∷ 7 ∷ [])
crc16-detects_byte_example =
    crc16-detects_byte (4 ∷ []) (7 ∷ []) 0 1 (omega arith) (omega arith) (omega arith) (omega arith)
