-- ===== src/Wire/Tlv.antt =====
-- util/tlv.ts: records of a 10-bit tag, a 2-bit length and a value. Shifts and masks are written as
-- quotients and remainders by powers of two.
pub mod Laws
mod Tests
use rethink.Common.{
  ℕ, zero, suc, ◌+◌, ◌-◌, ◌*◌, ◌/◌, ◌%◌, ◌^◌, ◌≤◌, ◌<◌, min, bit_xor, ◌≡◌, refl, sym, ap, ◌∙◌,
  ◌≡⟨◌⟩◌, ◌∎, ◌≢◌, ◌↔◌, ◌⊎◌, inl, inr, Bool, true, false, not, ◌&&◌, ◌||◌, Option, none, some, List,
  [], ◌∷◌, ◌++◌, map, append-nil, append_assoc, arith, ltb, leb, ◌==◌, ==_iff, if◌then◌else◌,
  Bool-cases, Option-cases, all_below, all_below_sound, length, get_elem?, get_or, take, drop,
  concat, length-append, length-drop, length-take, take-append_le, drop-append_le, take_length,
  drop_length, All, All-append, bit_xor-zero, bit_xor_self, bit_xor-lt, bit_xor_bytes,
  bit_xor_words, bit_xor_comm, bit_xor_cancel, zero-bit_xor,
}

-- `TLV`; `l` is what the parser found, and may be absent from what the sender builds.
pub record Tlv : Type 0 where
  pub t : ℕ
  pub l : Option ℕ
  pub v : ℕ

-- `for (let j = 0; j < l; j++) v = (v << 8) | buf[i + 2 + j]`. With l at most 3 nothing wraps.
pub be_value : ℕ → ℕ → List ℕ → ℕ
be_value v zero bytes = v
be_value v (suc l) [] = v
be_value v (suc l) (b ∷ bytes) = be_value (v * 256 + b) l bytes

-- The loop of `parse` on what is left of the buffer. Each round takes two bytes or more, so a
-- round for each byte is enough (`parse_from-enough`).
pub parse_from : ℕ → List ℕ → List Tlv
parse_from zero buf = []
parse_from (suc fuel) [] = []
parse_from (suc fuel) (b0 ∷ []) = []
parse_from (suc fuel) (b0 ∷ b1 ∷ rest) =
    let t = b0 * 4 + b1 / 64 in
    let l = b1 / 16 % 4 in
    let v = if ltb 0 l then be_value 0 l rest else b1 % 16 in
    let more = parse_from fuel (drop l rest) in
    if ltb (length rest) l then [] else record { t = t; l = some l; v = v } ∷ more

unfoldable pub parse : List ℕ → List Tlv
unfolding parse_from be_value
parse buf = parse_from (length buf) buf

-- One round of `elements.forEach` in `build`: the bytes that it pushes.
unfoldable pub build_one : Tlv → List ℕ
build_one el =
    let t0 = el.t / 4 % 256 in
    let tl = el.t % 4 * 64 in
    if ltb el.v 0x10
    then t0 ∷ (tl + el.v) ∷ []
    else if ltb el.v 0x100
    then t0 ∷ (tl + 0x10) ∷ el.v ∷ []
    else if ltb el.v 0x10000
    then t0 ∷ (tl + 0x20) ∷ (el.v / 256 % 256) ∷ (el.v % 256) ∷ []
    else t0 ∷ (tl + 0x30) ∷ (el.v / 65536 % 256) ∷ (el.v / 256 % 256) ∷ (el.v % 256) ∷ []

unfoldable pub build : List Tlv → List ℕ
unfolding build_one
build [] = []
build (el ∷ elements) = build_one el ++ build elements
