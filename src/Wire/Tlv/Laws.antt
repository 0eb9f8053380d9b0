-- ===== src/Wire/Tlv/Laws.antt =====
-- What `parse` finds, and that it reads back what `build` wrote.
use rethink.Common.{
  ℕ, zero, suc, ◌+◌, ◌*◌, ◌/◌, ◌%◌, ◌≤◌, ◌<◌, ◌≡◌, refl, sym, ap, ◌∙◌, inl, inr, false, some, List,
  [], ◌∷◌, ◌++◌, map, append-nil, append_assoc, arith, ltb, if◌then◌else◌, Bool-cases, length, drop,
  length-drop, All, All-append, All-drop,
}
use rethink.Wire.Tlv.{Tlv, be_value, parse_from, parse, build_one, build}

-- More rounds than bytes change nothing.
pub parse_from-enough :
    (n m : ℕ) (buf : List ℕ) → length buf ≤ n → length buf ≤ m → parse_from n buf ≡ parse_from m buf
unfolding parse_from
parse_from-enough zero zero buf p q = refl
parse_from-enough zero (suc m) [] p q = refl
parse_from-enough zero (suc m) (b ∷ buf) p q = absurd (omega arith)
parse_from-enough (suc n) zero [] p q = refl
parse_from-enough (suc n) zero (b ∷ buf) p q = absurd (omega arith)
parse_from-enough (suc n) (suc m) [] p q = refl
parse_from-enough (suc n) (suc m) (b0 ∷ []) p q = refl
parse_from-enough (suc n) (suc m) (b0 ∷ b1 ∷ rest) p q = rw (
    parse_from-enough n m (drop (b1 / 16 % 4) rest) (omega (arith, length-drop (b1 / 16 % 4) rest))
      (omega (arith, length-drop (b1 / 16 % 4) rest)))

-- One round, with the number of rounds out of the way.
pub parse_step :
    (b0 b1 : ℕ) (rest : List ℕ)
    → parse (b0 ∷ b1 ∷ rest) ≡ (
        if ltb (length rest) (b1 / 16 % 4)
        then []
        else record {
          t = b0 * 4 + b1 / 64;
          l = some (b1 / 16 % 4);
          v = if ltb 0 (b1 / 16 % 4) then be_value 0 (b1 / 16 % 4) rest else b1 % 16;
        }
          ∷ parse (drop (b1 / 16 % 4) rest))
unfolding parse
parse_step b0 b1 rest = rw (
    parse_from-enough (suc (length rest)) (length (drop (b1 / 16 % 4) rest))
      (drop (b1 / 16 % 4) rest) (omega (arith, length-drop (b1 / 16 % 4) rest)) (omega arith))

-- The length that `build` picks for a value.
abbrev pub width : ℕ → ℕ
width v = if ltb v 0x10 then 0 else if ltb v 0x100 then 1 else if ltb v 0x10000 then 2 else 3

-- A record as it comes back: ten bits of the tag, the length, and three bytes of the value.
abbrev pub on_wire : Tlv → Tlv
on_wire el = record { t = el.t % 1024; l = some (width el.v); v = el.v % 16777216 }

-- One round on a record whose length field is `l` and whose bytes are all there.
pub parse_at :
    (b0 b1 l : ℕ) (rest : List ℕ)
    → b1 / 16 % 4 ≡ l
    → l ≤ length rest
    → parse (b0 ∷ b1 ∷ rest)
      ≡ record {
        t = b0 * 4 + b1 / 64;
        l = some l;
        v = if ltb 0 l then be_value 0 l rest else b1 % 16;
      }
        ∷ parse (drop l rest)
parse_at b0 b1 l rest e h =
    let fits : ltb (length rest) (b1 / 16 % 4) ≡ false = ground arith in
    parse_step b0 b1 rest ∙ rw (fits, e)

-- One record and whatever follows it.
pub parse-build_one :
    (el : Tlv) (rest : List ℕ) → parse (build_one el ++ rest) ≡ on_wire el ∷ parse rest
unfolding build_one be_value
parse-build_one el rest =
    let t0 = el.t / 4 % 256 in
    let tl = el.t % 4 * 64 in
    let v = el.v in
    let b1 = v / 256 % 256 in
    ground (
      arith,
      parse_at t0 (tl + v) 0 rest,
      parse_at t0 (tl + 0x10) 1 (v ∷ rest),
      parse_at t0 (tl + 0x20) 2 (b1 ∷ (v % 256) ∷ rest),
      parse_at t0 (tl + 0x30) 3 ((v / 65536 % 256) ∷ b1 ∷ (v % 256) ∷ rest),
    )

-- Whatever is built is read back, with what follows it: every record returns in order with its tag
-- cut to ten bits, the length that its value needs, and its value cut to three bytes.
pub parse-build :
    (elements : List Tlv) (rest : List ℕ)
    → parse (build elements ++ rest) ≡ map on_wire elements ++ parse rest
unfolding build
parse-build [] rest = refl
parse-build (el ∷ elements) rest =
    ap parse (append_assoc (build_one el) (build elements) rest)
    ∙ parse-build_one el (build elements ++ rest)
    ∙ ap (λ more. on_wire el ∷ more) (parse-build elements rest)

-- The values that a length field announces: four bits in the header itself, or that many bytes.
abbrev pub room : ℕ → ℕ
room zero = 16
room (suc zero) = 256
room (suc (suc zero)) = 65536
room (suc (suc (suc l))) = 16777216

be_value-lt-room :
    (l v : ℕ) (bytes : List ℕ)
    → l < 4
    → v < 16
    → All (λ b. b < 256) bytes
    → (if ltb 0 l then be_value 0 l bytes else v) < room l
unfolding be_value
be_value-lt-room zero v bytes p q h = q
be_value-lt-room (suc zero) v [] p q h = omega arith
be_value-lt-room (suc zero) v (a ∷ bytes) p q h = omega arith
be_value-lt-room (suc (suc zero)) v [] p q h = omega arith
be_value-lt-room (suc (suc zero)) v (a ∷ []) p q h = omega arith
be_value-lt-room (suc (suc zero)) v (a ∷ b ∷ bytes) p q h = omega arith
be_value-lt-room (suc (suc (suc zero))) v [] p q h = omega arith
be_value-lt-room (suc (suc (suc zero))) v (a ∷ []) p q h = omega arith
be_value-lt-room (suc (suc (suc zero))) v (a ∷ b ∷ []) p q h = omega arith
be_value-lt-room (suc (suc (suc zero))) v (a ∷ b ∷ c ∷ bytes) p q h = omega arith
be_value-lt-room (suc (suc (suc (suc l)))) v bytes p q h = absurd (omega arith)

-- What a parsed record can hold: a ten-bit tag, a two-bit length, and a value that fits it.
abbrev pub IsWireTlv : Tlv → Type 0
IsWireTlv el = (el.t < 1024) × ((l : ℕ) × (el.l ≡ some l) × (l < 4) × (el.v < room l))

parse_from-IsWireTlv :
    (n : ℕ) (buf : List ℕ) → All (λ b. b < 256) buf → All IsWireTlv (parse_from n buf)
unfolding parse_from
parse_from-IsWireTlv zero buf h = tt
parse_from-IsWireTlv (suc n) [] h = tt
parse_from-IsWireTlv (suc n) (b0 ∷ []) h = tt
parse_from-IsWireTlv (suc n) (b0 ∷ b1 ∷ rest) (p, (q, h)) =
    let l = b1 / 16 % 4 in
    elim (Bool-cases (ltb (length rest) l)) [
      | inl cut ↦ rw cut tt
      | inr whole ↦ rw whole (
        (
          omega arith,
          (l, refl, omega arith, be_value-lt-room l (b1 % 16) rest (omega arith) (omega arith) h),
        ),
        parse_from-IsWireTlv n (drop l rest) (All-drop (λ b. b < 256) l rest h),
      )
    ]

-- Every record found in a buffer of bytes has a tag below 1024, a length below 4 and a value that
-- fits in four bits, or in the bytes that the length announces.
pub parse-IsWireTlv : (buf : List ℕ) → All (λ b. b < 256) buf → All IsWireTlv (parse buf)
unfolding parse
parse-IsWireTlv buf h = parse_from-IsWireTlv (length buf) buf h

-- Tag and value, without the length.
abbrev pub tag_and_value : Tlv → ℕ × ℕ
tag_and_value el = (el.t, el.v)

room-le : (l : ℕ) → room l ≤ 16777216
room-le zero = omega arith
room-le (suc zero) = omega arith
room-le (suc (suc zero)) = omega arith
room-le (suc (suc (suc l))) = omega arith

on_wire_same :
    (els : List Tlv)
    → All IsWireTlv els
    → map tag_and_value (map on_wire els) ≡ map tag_and_value els
on_wire_same [] h = refl
on_wire_same (el ∷ els) ((p, (l, e, q, r)), h) =
    let t : el.t % 1024 ≡ el.t = omega arith in
    let v : el.v % 16777216 ≡ el.v = omega (arith, room-le l) in rw (t, v, on_wire_same els h)

-- Building what was parsed from a buffer of bytes, and parsing that, finds the same tags and values.
pub parse-build-parse :
    (buf : List ℕ)
    → All (λ b. b < 256) buf
    → map tag_and_value (parse (build (parse buf))) ≡ map tag_and_value (parse buf)
unfolding parse
parse-build-parse buf h =
    let back : parse (build (parse buf)) ≡ map on_wire (parse buf) =
      ap parse (sym (append-nil (build (parse buf))))
      ∙ parse-build (parse buf) []
      ∙ append-nil (map on_wire (parse buf)) in
    ap (map tag_and_value) back ∙ on_wire_same (parse buf) (parse-IsWireTlv buf h)

-- `build` pushes bytes only, whatever the tags and values.
pub build_one-IsByte : (el : Tlv) → All (λ b. b < 256) (build_one el)
unfolding build_one
build_one-IsByte el = ground arith

pub build-IsByte : (els : List Tlv) → All (λ b. b < 256) (build els)
unfolding build
build-IsByte [] = tt
build-IsByte (el ∷ els) =
    All-append (λ b. b < 256) (build_one el) (build els) (build_one-IsByte el) (build-IsByte els)
