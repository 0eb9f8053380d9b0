-- ===== src/Common/Bits.antt =====
-- `bit_xor` at variables: its lowest digit, and what follows for whole bytes.
use Prim.Native.Nat.{
  ℕ, zero, suc, ◌+◌, ◌*◌, ◌/◌, ◌%◌, ◌^◌, ◌≤◌, ◌<◌, bit_xor, digits, differ, bit_xor-bitwise,
}
use mathlib.Core.Path.{◌≡◌, refl, sym, ap, ◌∙◌}
use native.Mathlib.Nat.{pow-suc}
use native.Mathlib.Omega.{arith}

abbrev xor_digits : ℕ → ℕ → ℕ → ℕ
xor_digits n a b = digits (λ b. b) differ n a b

-- Two counts of digits that both cover the first number give one result.
same_digits : (few many y x : ℕ) → (x ≤ few) × (x ≤ many) → xor_digits few x y ≡ xor_digits many x y
same_digits few many y zero covered = none_left few many
  where
    none_left : (few many : ℕ) → xor_digits few zero y ≡ xor_digits many zero y
    none_left zero zero = refl
    none_left (suc few) zero = refl
    none_left zero (suc many) = refl
    none_left (suc few) (suc many) = refl
same_digits (suc few) zero y (suc x) covered = absurd (omega arith)
same_digits zero many y (suc x) covered = absurd (omega arith)
same_digits (suc few) (suc many) y (suc x) covered =
    let rest = same_digits few many (y / 2) (suc x / 2) (omega arith) in
    ap (λ (t : ℕ). t * 2 + differ (suc x % 2) (y % 2)) rest

pub zero-bit_xor : (y : ℕ) → bit_xor 0 y ≡ y
zero-bit_xor y = bit_xor-bitwise 0 y

-- The lowest digit.
pub bit_xor_step : (x y : ℕ) → bit_xor x y ≡ bit_xor (x / 2) (y / 2) * 2 + differ (x % 2) (y % 2)
bit_xor_step zero y = omega (arith, zero-bit_xor (y / 2), zero-bit_xor y)
bit_xor_step (suc x) y =
    let half = suc x / 2 in
    let halves : xor_digits x half (y / 2) ≡ bit_xor half (y / 2) =
      same_digits x half (y / 2) half (omega arith) ∙ sym (bit_xor-bitwise half (y / 2)) in
    bit_xor-bitwise (suc x) y ∙ ap (λ (t : ℕ). t * 2 + differ (suc x % 2) (y % 2)) halves

-- Exclusive or of two digits.
differ-lt : (a b : ℕ) → a < 2 → b < 2 → differ a b < 2
differ-lt zero b p q = q
differ-lt (suc zero) zero p q = omega arith
differ-lt (suc zero) (suc zero) p q = omega arith
differ-lt (suc zero) (suc (suc b)) p q = absurd (omega arith)
differ-lt (suc (suc a)) b p q = absurd (omega arith)

differ_self : (a : ℕ) → differ a a ≡ 0
differ_self zero = refl
differ_self (suc a) = differ_self a

differ-zero : (a : ℕ) → differ a 0 ≡ a
differ-zero zero = refl
differ-zero (suc a) = refl

bit_xor-zero_upto : (n a : ℕ) → a ≤ n → bit_xor a 0 ≡ a
bit_xor-zero_upto n zero h = refl
bit_xor-zero_upto zero (suc a) h = absurd (omega arith)
bit_xor-zero_upto (suc n) (suc a) h = omega (
  arith,
  bit_xor_step (suc a) 0,
  differ-zero (suc a % 2),
  bit_xor-zero_upto n (suc a / 2) (omega arith),
)

pub bit_xor-zero : (a : ℕ) → bit_xor a 0 ≡ a
bit_xor-zero a = bit_xor-zero_upto a a (omega arith)

bit_xor_self_upto : (n a : ℕ) → a ≤ n → bit_xor a a ≡ 0
bit_xor_self_upto n zero h = refl
bit_xor_self_upto zero (suc a) h = absurd (omega arith)
bit_xor_self_upto (suc n) (suc a) h = omega (
  arith,
  bit_xor_step (suc a) (suc a),
  differ_self (suc a % 2),
  bit_xor_self_upto n (suc a / 2) (omega arith),
)

pub bit_xor_self : (a : ℕ) → bit_xor a a ≡ 0
bit_xor_self a = bit_xor_self_upto a a (omega arith)

-- Two numbers of `k` digits have an exclusive or of `k` digits.
pub bit_xor-lt : (k a b : ℕ) → a < 2 ^ k → b < 2 ^ k → bit_xor a b < 2 ^ k
bit_xor-lt zero a b p q =
    let e : a ≡ 0 = omega arith in let f : b ≡ 0 = omega arith in rw (e, f) (omega arith)
bit_xor-lt (suc k) a b p q = omega (
  arith,
  pow-suc 2 k,
  bit_xor_step a b,
  differ-lt (a % 2) (b % 2) (omega arith) (omega arith),
  bit_xor-lt k (a / 2) (b / 2) (omega (arith, pow-suc 2 k)) (omega (arith, pow-suc 2 k)),
)

differ_comm : (a b : ℕ) → differ a b ≡ differ b a
differ_comm zero zero = refl
differ_comm zero (suc b) = refl
differ_comm (suc a) zero = refl
differ_comm (suc a) (suc b) = differ_comm a b

bit_xor_comm_upto : (n a b : ℕ) → a ≤ n → b ≤ n → bit_xor a b ≡ bit_xor b a
bit_xor_comm_upto zero a b p q =
    let e : a ≡ 0 = omega arith in let f : b ≡ 0 = omega arith in rw (e, f)
bit_xor_comm_upto (suc n) a b p q = omega (
  arith,
  bit_xor_step a b,
  bit_xor_step b a,
  differ_comm (a % 2) (b % 2),
  bit_xor_comm_upto n (a / 2) (b / 2) (omega arith) (omega arith),
)

pub bit_xor_comm : (a b : ℕ) → bit_xor a b ≡ bit_xor b a
bit_xor_comm a b = bit_xor_comm_upto (a + b) a b (omega arith) (omega arith)

differ_cancel : (a b : ℕ) → a < 2 → b < 2 → differ (differ a b) b ≡ a
differ_cancel zero b p q = differ_self b
differ_cancel (suc zero) zero p q = refl
differ_cancel (suc zero) (suc zero) p q = refl
differ_cancel (suc zero) (suc (suc b)) p q = absurd (omega arith)
differ_cancel (suc (suc a)) b p q = absurd (omega arith)

-- The digits of an exclusive or.
bit_xor_half : (a b : ℕ) → bit_xor a b / 2 ≡ bit_xor (a / 2) (b / 2)
bit_xor_half a b =
    omega (arith, bit_xor_step a b, differ-lt (a % 2) (b % 2) (omega arith) (omega arith))

bit_xor_low : (a b : ℕ) → bit_xor a b % 2 ≡ differ (a % 2) (b % 2)
bit_xor_low a b =
    omega (arith, bit_xor_step a b, differ-lt (a % 2) (b % 2) (omega arith) (omega arith))

bit_xor_cancel_upto : (n a b : ℕ) → a ≤ n → b ≤ n → bit_xor (bit_xor a b) b ≡ a
bit_xor_cancel_upto zero a b p q =
    let e : a ≡ 0 = omega arith in let f : b ≡ 0 = omega arith in rw (e, f)
bit_xor_cancel_upto (suc n) a b p q =
    bit_xor_step (bit_xor a b) b
    ∙ rw (bit_xor_half, bit_xor_low)
        (omega (
          arith,
          differ_cancel (a % 2) (b % 2) (omega arith) (omega arith),
          bit_xor_cancel_upto n (a / 2) (b / 2) (omega arith) (omega arith),
        ))

-- Taking the exclusive or twice undoes it.
pub bit_xor_cancel : (a b : ℕ) → bit_xor (bit_xor a b) b ≡ a
bit_xor_cancel a b = bit_xor_cancel_upto (a + b) a b (omega arith) (omega arith)

pow_step : (k h : ℕ) → h * 2 ^ suc k ≡ h * 2 ^ k * 2
pow_step k h = omega (arith, ap (λ (t : ℕ). h * t) (pow-suc 2 k))

-- The exclusive or of the high parts stands over that of the low parts.
bit_xor_split :
    (k ah al bh bl : ℕ)
    → al < 2 ^ k
    → bl < 2 ^ k
    → bit_xor (ah * 2 ^ k + al) (bh * 2 ^ k + bl) ≡ bit_xor ah bh * 2 ^ k + bit_xor al bl
bit_xor_split zero ah al bh bl p q =
    let e : al ≡ 0 = omega arith in
    let f : bl ≡ 0 = omega arith in
    let g : ah * 2 ^ 0 + 0 ≡ ah = omega arith in
    let k : bh * 2 ^ 0 + 0 ≡ bh = omega arith in rw (e, f, g, k) (omega arith)
bit_xor_split (suc k) ah al bh bl p q =
    let e : (ah * 2 ^ suc k + al) / 2 ≡ ah * 2 ^ k + al / 2 = omega (arith, pow_step k ah) in
    let f : (bh * 2 ^ suc k + bl) / 2 ≡ bh * 2 ^ k + bl / 2 = omega (arith, pow_step k bh) in
    let e' : (ah * 2 ^ suc k + al) % 2 ≡ al % 2 = omega (arith, pow_step k ah) in
    let f' : (bh * 2 ^ suc k + bl) % 2 ≡ bl % 2 = omega (arith, pow_step k bh) in
    bit_xor_step (ah * 2 ^ suc k + al) (bh * 2 ^ suc k + bl)
    ∙ rw (e, f, e', f')
        (omega (
          arith,
          bit_xor_step al bl,
          pow_step k (bit_xor ah bh),
          bit_xor_split k ah (al / 2) bh (bl / 2) (omega (arith, pow-suc 2 k))
              (omega (arith, pow-suc 2 k)),
        ))

pub bit_xor_bytes :
    (ah al bh bl : ℕ)
    → al < 256
    → bl < 256
    → bit_xor (ah * 256 + al) (bh * 256 + bl) ≡ bit_xor ah bh * 256 + bit_xor al bl
bit_xor_bytes ah al bh bl p q = bit_xor_split 8 ah al bh bl p q

pub bit_xor_words :
    (ah al bh bl : ℕ)
    → al < 65536
    → bl < 65536
    → bit_xor (ah * 65536 + al) (bh * 65536 + bl) ≡ bit_xor ah bh * 65536 + bit_xor al bl
bit_xor_words ah al bh bl p q = bit_xor_split 16 ah al bh bl p q
