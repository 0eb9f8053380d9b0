-- ===== src/Wire/Crc16/Detection.antt =====
-- What a changed byte does to the checksum: a step is injective in the register and in the byte.
use rethink.Common.{
  ℕ, ◌+◌, ◌*◌, ◌/◌, ◌%◌, ◌<◌, bit_xor, ◌≡◌, refl, sym, ap, ◌∙◌, ◌≢◌, true, List, [], ◌∷◌, ◌++◌,
  arith, ◌==◌, ==_iff, all_below, all_below_sound, get_or, All, bit_xor-lt, bit_xor_bytes,
  bit_xor_comm, bit_xor_cancel, zero-bit_xor,
}
use mathlib.Core.List.{foldl, foldl-append}
use rethink.Wire.Crc16.{crc16_step, crc16}
use rethink.Wire.Crc16.Laws.{entry, entry-lt, crc16_step-lt, foldl-crc16_step-lt}
use rethink.Wire.Crc16.Ccitt.{drop_top}

-- The low bytes of the table's entries are all different: the place of each.
abbrev place_of : List ℕ
place_of =
    0 ∷ 35 ∷ 70 ∷ 101 ∷ 140 ∷ 175 ∷ 202 ∷ 233 ∷ 8 ∷ 43 ∷ 78 ∷ 109 ∷ 132 ∷ 167 ∷ 194 ∷ 225 ∷ 17 ∷ 50
    ∷ 87 ∷ 116 ∷ 157 ∷ 190 ∷ 219 ∷ 248 ∷ 25 ∷ 58 ∷ 95 ∷ 124 ∷ 149 ∷ 182 ∷ 211 ∷ 240 ∷ 34 ∷ 1 ∷ 100
    ∷ 71 ∷ 174 ∷ 141 ∷ 232 ∷ 203 ∷ 42 ∷ 9 ∷ 108 ∷ 79 ∷ 166 ∷ 133 ∷ 224 ∷ 195 ∷ 51 ∷ 16 ∷ 117 ∷ 86
    ∷ 191 ∷ 156 ∷ 249 ∷ 218 ∷ 59 ∷ 24 ∷ 125 ∷ 94 ∷ 183 ∷ 148 ∷ 241 ∷ 210 ∷ 68 ∷ 103 ∷ 2 ∷ 33 ∷ 200
    ∷ 235 ∷ 142 ∷ 173 ∷ 76 ∷ 111 ∷ 10 ∷ 41 ∷ 192 ∷ 227 ∷ 134 ∷ 165 ∷ 85 ∷ 118 ∷ 19 ∷ 48 ∷ 217 ∷ 250
    ∷ 159 ∷ 188 ∷ 93 ∷ 126 ∷ 27 ∷ 56 ∷ 209 ∷ 242 ∷ 151 ∷ 180 ∷ 102 ∷ 69 ∷ 32 ∷ 3 ∷ 234 ∷ 201 ∷ 172
    ∷ 143 ∷ 110 ∷ 77 ∷ 40 ∷ 11 ∷ 226 ∷ 193 ∷ 164 ∷ 135 ∷ 119 ∷ 84 ∷ 49 ∷ 18 ∷ 251 ∷ 216 ∷ 189 ∷ 158
    ∷ 127 ∷ 92 ∷ 57 ∷ 26 ∷ 243 ∷ 208 ∷ 181 ∷ 150 ∷ 136 ∷ 171 ∷ 206 ∷ 237 ∷ 4 ∷ 39 ∷ 66 ∷ 97 ∷ 128
    ∷ 163 ∷ 198 ∷ 229 ∷ 12 ∷ 47 ∷ 74 ∷ 105 ∷ 153 ∷ 186 ∷ 223 ∷ 252 ∷ 21 ∷ 54 ∷ 83 ∷ 112 ∷ 145 ∷ 178
    ∷ 215 ∷ 244 ∷ 29 ∷ 62 ∷ 91 ∷ 120 ∷ 170 ∷ 137 ∷ 236 ∷ 207 ∷ 38 ∷ 5 ∷ 96 ∷ 67 ∷ 162 ∷ 129 ∷ 228
    ∷ 199 ∷ 46 ∷ 13 ∷ 104 ∷ 75 ∷ 187 ∷ 152 ∷ 253 ∷ 222 ∷ 55 ∷ 20 ∷ 113 ∷ 82 ∷ 179 ∷ 144 ∷ 245 ∷ 214
    ∷ 63 ∷ 28 ∷ 121 ∷ 90 ∷ 204 ∷ 239 ∷ 138 ∷ 169 ∷ 64 ∷ 99 ∷ 6 ∷ 37 ∷ 196 ∷ 231 ∷ 130 ∷ 161 ∷ 72
    ∷ 107 ∷ 14 ∷ 45 ∷ 221 ∷ 254 ∷ 155 ∷ 184 ∷ 81 ∷ 114 ∷ 23 ∷ 52 ∷ 213 ∷ 246 ∷ 147 ∷ 176 ∷ 89 ∷ 122
    ∷ 31 ∷ 60 ∷ 238 ∷ 205 ∷ 168 ∷ 139 ∷ 98 ∷ 65 ∷ 36 ∷ 7 ∷ 230 ∷ 197 ∷ 160 ∷ 131 ∷ 106 ∷ 73 ∷ 44
    ∷ 15 ∷ 255 ∷ 220 ∷ 185 ∷ 154 ∷ 115 ∷ 80 ∷ 53 ∷ 22 ∷ 247 ∷ 212 ∷ 177 ∷ 146 ∷ 123 ∷ 88 ∷ 61 ∷ 30
    ∷ []

places_agree : all_below 256 (λ i. get_or place_of (entry i % 256) 0 == i) ≡ true
unfolding all_below
places_agree = refl

place : (i : ℕ) → i < 256 → get_or place_of (entry i % 256) 0 ≡ i
place i h = (==_iff _ _).0 (all_below_sound 256 _ i places_agree h)

-- The index that a step looks up.
abbrev index_of : ℕ → ℕ → ℕ
index_of crc v = bit_xor (crc / 256) v

index_of-lt : (crc v : ℕ) → crc < 65536 → v < 256 → index_of crc v < 256
index_of-lt crc v h k = bit_xor-lt 8 (crc / 256) v (omega arith) k

-- A step in two parts: the low byte moves up, and the entry is put over it.
step_parts :
    (crc v : ℕ)
    → crc < 65536
    → v < 256
    → crc16_step crc v ≡ bit_xor (crc % 256 * 256) (entry (index_of crc v))
unfolding crc16_step
step_parts crc v h k =
    let same : index_of crc v % 256 ≡ index_of crc v = omega (arith, index_of-lt crc v h k) in
    rw same (drop_top crc (entry (index_of crc v)) (entry-lt _ (index_of-lt crc v h k)))

-- The low byte of the result is that of the entry.
step_low :
    (crc v : ℕ) → crc < 65536 → v < 256 → crc16_step crc v % 256 ≡ entry (index_of crc v) % 256
step_low crc v h k =
    let t = entry (index_of crc v) in
    let e : t ≡ t / 256 * 256 + t % 256 = omega arith in
    let z : crc % 256 * 256 ≡ crc % 256 * 256 + 0 = omega arith in
    let split : bit_xor (crc % 256 * 256 + 0) (t / 256 * 256 + t % 256)
        ≡ bit_xor (crc % 256) (t / 256) * 256 + bit_xor 0 (t % 256) =
      bit_xor_bytes (crc % 256) 0 (t / 256) (t % 256) (omega arith) (omega arith) in
    ap (λ c. c % 256) (step_parts crc v h k)
    ∙ ap (λ c. bit_xor c t % 256) z
    ∙ ap (λ w. bit_xor (crc % 256 * 256 + 0) w % 256) e
    ∙ omega (arith, split, zero-bit_xor (t % 256))

-- Equal results come from the same entry of the table, and from the same low byte.
step_index :
    (c d v w : ℕ)
    → c < 65536
    → d < 65536
    → v < 256
    → w < 256
    → crc16_step c v ≡ crc16_step d w
    → index_of c v ≡ index_of d w
step_index c d v w hc hd hv hw e =
    sym (place (index_of c v) (index_of-lt c v hc hv))
    ∙ ap (λ b. get_or place_of b 0)
        (sym (step_low c v hc hv) ∙ ap (λ r. r % 256) e ∙ step_low d w hd hw)
    ∙ place (index_of d w) (index_of-lt d w hd hw)

step_moved :
    (c d v w : ℕ)
    → c < 65536
    → d < 65536
    → v < 256
    → w < 256
    → crc16_step c v ≡ crc16_step d w
    → c % 256 ≡ d % 256
step_moved c d v w hc hd hv hw e =
    let same = step_index c d v w hc hd hv hw e in
    let t = entry (index_of d w) in
    let parts : bit_xor (c % 256 * 256) t ≡ bit_xor (d % 256 * 256) t =
      ap (λ i. bit_xor (c % 256 * 256) (entry i)) (sym same)
      ∙ sym (step_parts c v hc hv)
      ∙ e
      ∙ step_parts d w hd hw in
    omega (
      arith,
      bit_xor_cancel (c % 256 * 256) t,
      bit_xor_cancel (d % 256 * 256) t,
      ap (λ r. bit_xor r t) parts,
    )

step-injective_crc :
    (c d v : ℕ) → c < 65536 → d < 65536 → v < 256 → crc16_step c v ≡ crc16_step d v → c ≡ d
step-injective_crc c d v hc hd hv e = omega (
  arith,
  step_moved c d v v hc hd hv hv e,
  bit_xor_cancel (c / 256) v,
  bit_xor_cancel (d / 256) v,
  ap (λ r. bit_xor r v) (step_index c d v v hc hd hv hv e),
)

step-injective_byte :
    (c v w : ℕ) → c < 65536 → v < 256 → w < 256 → crc16_step c v ≡ crc16_step c w → v ≡ w
step-injective_byte c v w hc hv hw e =
    let flip = λ (x : ℕ).
      sym (bit_xor_cancel x (c / 256)) ∙ ap (λ r. bit_xor r (c / 256)) (bit_xor_comm x (c / 256)) in
    flip v ∙ ap (λ r. bit_xor r (c / 256)) (step_index c c v w hc hc hv hw e) ∙ sym (flip w)

foldl-injective_crc :
    (arr : List ℕ) (c d : ℕ)
    → c < 65536
    → d < 65536
    → All (λ v. v < 256) arr
    → foldl crc16_step c arr ≡ foldl crc16_step d arr
    → c ≡ d
foldl-injective_crc [] c d hc hd h e = e
foldl-injective_crc (v ∷ arr) c d hc hd (p, h) e = step-injective_crc c d v hc hd p (
    foldl-injective_crc arr (crc16_step c v) (crc16_step d v) (crc16_step-lt c v)
      (crc16_step-lt d v) h e)

-- Two messages of bytes that differ in exactly one byte have different checksums.
pub crc16-detects_byte :
    (front back : List ℕ) (v w : ℕ)
    → All (λ b. b < 256) back
    → v < 256
    → w < 256
    → v ≢ w
    → crc16 (front ++ (v ∷ back)) ≢ crc16 (front ++ (w ∷ back))
unfolding crc16
crc16-detects_byte front back v w h hv hw ne e =
    let c = foldl crc16_step 0 front in
    let hc : c < 65536 = foldl-crc16_step-lt front 0 (omega arith) in
    let ends : foldl crc16_step (crc16_step c v) back ≡ foldl crc16_step (crc16_step c w) back =
      sym (foldl-append crc16_step 0 front (v ∷ back))
      ∙ e
      ∙ foldl-append crc16_step 0 front (w ∷ back) in
    ne (
      step-injective_byte c v w hc hv hw (
        foldl-injective_crc back (crc16_step c v) (crc16_step c w) (crc16_step-lt c v)
          (crc16_step-lt c w) h ends))
