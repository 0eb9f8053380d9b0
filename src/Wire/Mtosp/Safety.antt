-- ===== src/Wire/Mtosp/Safety.antt =====
-- What the splitter does on any input.
use mathlib.Core.Path.{subst}
use rethink.Common.{
  ℕ, ◌+◌, ◌*◌, ◌-◌, ◌≡◌, ◌≢◌, ◌<◌, refl, sym, ap, ◌∙◌, inl, inr, List, [], ◌∷◌, ◌++◌, append_assoc,
  append-nil, arith, ltb, ◌==◌, ==_iff, Bool-cases, length, length-append, take-append_le,
  take_length,
}
use rethink.Wire.Crc16.{crc16}
use rethink.Wire.Mtosp.{
  Phase, header, length_high, length_low, payload, checksum, trailer, Splitter, splitter, Event,
  invalid_header, invalid_checksum, invalid_trailer, quiet, message, thrown, inner, on_byte,
  split_byte, recorded, split_bytes,
}

-- The bytes of a frame around its payload: the start byte, the length, the checksum, and the rest.
abbrev pub framed : ℕ → ℕ → List ℕ → List ℕ → List ℕ
framed hi lo p rest = 0xaa ∷ hi ∷ lo ∷ (p ++ rest)

-- The bytes end before the frame that they begin does.
pub data IsShort : List ℕ → Type 0 where
  in_head : {bytes : List ℕ} → length bytes < 3 → IsShort bytes
  in_body :
      {bytes : List ℕ} (hi lo : ℕ)
      → length bytes < lo + hi * 256 + 3
      → IsShort (0xaa ∷ hi ∷ lo ∷ bytes)

-- What happens on a stream of bytes, whose frames are taken one by one: a message is the payload of
-- the frame that stands first, with the length that the frame gives and a right checksum over all
-- of it. The first frame with a wrong start byte, checksum or end byte throws, and after that
-- anything may happen.
pub data IsStream : List ℕ → List Event → Type 0 where
  ended : {bytes : List ℕ} → IsShort bytes → IsStream bytes []
  wrong_start :
      {byte : ℕ} {rest : List ℕ} {events : List Event}
      → byte ≢ 0xaa
      → IsStream (byte ∷ rest) (thrown invalid_header ∷ events)
  wrong_checksum :
      {events : List Event} (hi lo c1 c2 : ℕ) (p rest : List ℕ)
      → length p ≡ lo + hi * 256
      → crc16 (framed hi lo p (c1 ∷ c2 ∷ [])) ≢ 0
      → IsStream (framed hi lo p (c1 ∷ c2 ∷ rest)) (thrown invalid_checksum ∷ events)
  wrong_end :
      {events : List Event} (hi lo c1 c2 byte : ℕ) (p rest : List ℕ)
      → length p ≡ lo + hi * 256
      → crc16 (framed hi lo p (c1 ∷ c2 ∷ [])) ≡ 0
      → byte ≢ 0xbb
      → IsStream (framed hi lo p (c1 ∷ c2 ∷ byte ∷ rest)) (thrown invalid_trailer ∷ events)
  frame :
      {events : List Event} (hi lo c1 c2 : ℕ) (p rest : List ℕ)
      → length p ≡ lo + hi * 256
      → crc16 (framed hi lo p (c1 ∷ c2 ∷ [])) ≡ 0
      → IsStream rest events
      → IsStream (framed hi lo p (c1 ∷ c2 ∷ 0xbb ∷ rest)) (message p ∷ events)

-- What the buffer holds in each phase.
abbrev Holds : Splitter → Phase → Type 0
Holds s header = s.buf ≡ []
Holds s length_high = s.buf ≡ 0xaa ∷ []
Holds s length_low = s.buf ≡ 0xaa ∷ s.prev ∷ []
Holds s payload =
    (hi : ℕ) × (lo : ℕ) × (p : List ℕ) × (s.buf ≡ framed hi lo p [])
    × (length p + s.total ≡ lo + hi * 256)
Holds s checksum =
    (hi : ℕ) × (lo : ℕ) × (p : List ℕ) × (c1 : ℕ) × (s.buf ≡ framed hi lo p (c1 ∷ []))
    × (length p ≡ lo + hi * 256)
Holds s trailer =
    (hi : ℕ) × (lo : ℕ) × (p : List ℕ) × (c1 : ℕ) × (c2 : ℕ) × (s.buf
      ≡ framed hi lo p (c1 ∷ c2 ∷ []))
    × (length p ≡ lo + hi * 256)
    × (crc16 (framed hi lo p (c1 ∷ c2 ∷ [])) ≡ 0)

-- After a byte, the buffer has grown by it, or a whole frame was taken out.
abbrev IsRead : List ℕ → Splitter × Event → Type 0
IsRead buf (s, quiet) = Holds s s.state × (s.buf ≡ buf)
IsRead buf (s, message p) =
    (s.state ≡ header)
    × (s.buf ≡ [])
    × (hi : ℕ) × (lo : ℕ) × (c1 : ℕ) × (c2 : ℕ) × (length p ≡ lo + hi * 256)
    × (crc16 (framed hi lo p (c1 ∷ c2 ∷ [])) ≡ 0)
    × (buf ≡ framed hi lo p (c1 ∷ c2 ∷ 0xbb ∷ []))
IsRead buf (s, thrown e) =
    (bytes : List ℕ) (events : List Event) → IsStream (buf ++ bytes) (thrown e ∷ events)

framed-append :
    (hi lo : ℕ) (p tail bytes : List ℕ)
    → framed hi lo p tail ++ bytes ≡ framed hi lo p (tail ++ bytes)
framed-append hi lo p tail bytes = ap (λ l. 0xaa ∷ hi ∷ lo ∷ l) (append_assoc p tail bytes)

-- One byte more at the end of a frame.
framed-snoc :
    (hi lo : ℕ) (p tail : List ℕ) (byte : ℕ)
    → framed hi lo p tail ++ (byte ∷ []) ≡ framed hi lo p (tail ++ (byte ∷ []))
framed-snoc hi lo p tail byte = ap (λ l. 0xaa ∷ hi ∷ lo ∷ l) (append_assoc p tail (byte ∷ []))

inner-framed :
    (hi lo : ℕ) (p : List ℕ) (c1 c2 x : ℕ) → inner (framed hi lo p (c1 ∷ c2 ∷ x ∷ [])) ≡ p
inner-framed hi lo p c1 c2 x =
    let size : length (framed hi lo p (c1 ∷ c2 ∷ x ∷ [])) - 3 - 3 ≡ length p =
      omega (arith, length-append p (c1 ∷ c2 ∷ x ∷ [])) in
    rw size (take-append_le (length p) p (c1 ∷ c2 ∷ x ∷ []) (omega arith) ∙ take_length p)

module _ (prev total : ℕ) (buf : List ℕ) where
  on_byte-IsRead :
      (phase : Phase) (byte : ℕ)
      → let s : Splitter = record { state = phase; prev = prev; total = total; buf = buf } in
        Holds s phase
        → IsRead (buf ++ (byte ∷ [])) (on_byte phase (record s { buf = buf ++ (byte ∷ []) }) byte)
  unfolding on_byte
  on_byte-IsRead header byte h = elim (Bool-cases (byte == 0xaa)) [
    | inl e ↦
        let same : byte ≡ 0xaa = (==_iff _ _).0 e in
        rw e (ap (λ b. b ++ (byte ∷ [])) h ∙ ap (λ x. x ∷ []) same, refl)
    | inr e ↦
        let wrong : byte ≢ 0xaa = λ same. let on = (==_iff byte 0xaa).1 same in cc in
        rw (e, h) (λ bytes events. wrong_start wrong)
  ]
  on_byte-IsRead length_high byte h = (ap (λ b. b ++ (byte ∷ [])) h, refl)
  on_byte-IsRead length_low byte h =
      ((prev, byte, [], ap (λ b. b ++ (byte ∷ [])) h, omega arith), refl)
  on_byte-IsRead payload byte (hi, lo, p, same, size) =
      let grown : buf ++ (byte ∷ []) ≡ framed hi lo p (byte ∷ []) =
        ap (λ b. b ++ (byte ∷ [])) same ∙ framed-snoc hi lo p [] byte in
      elim (Bool-cases (ltb 0 total)) [
        | inl e ↦ rw e (
          (
            hi,
            lo,
            p ++ (byte ∷ []),
            grown ∙ ap (λ l. 0xaa ∷ hi ∷ lo ∷ l) (sym (append-nil (p ++ (byte ∷ [])))),
            ground (arith, length-append p (byte ∷ []), size, e),
          ),
          refl,
        )
        | inr e ↦ rw e ((hi, lo, p, byte, grown, ground (arith, size, e)), refl)
      ]
  on_byte-IsRead checksum byte (hi, lo, p, c1, same, size) =
      let grown : buf ++ (byte ∷ []) ≡ framed hi lo p (c1 ∷ byte ∷ []) =
        ap (λ b. b ++ (byte ∷ [])) same ∙ framed-snoc hi lo p (c1 ∷ []) byte in
      elim (Bool-cases (crc16 (buf ++ (byte ∷ [])) == 0)) [
        | inl e ↦
            rw e ((hi, lo, p, c1, byte, grown, size, ap crc16 (sym grown) ∙ (==_iff _ _).0 e), refl)
        | inr e ↦
            let wrong : crc16 (framed hi lo p (c1 ∷ byte ∷ [])) ≢ 0 =
              λ same. let on = (==_iff _ _).1 (ap crc16 grown ∙ same) in cc in
            rw e (λ bytes events.
              subst (λ l. IsStream l (thrown invalid_checksum ∷ events))
                (sym (ap (λ b. b ++ bytes) grown ∙ framed-append hi lo p (c1 ∷ byte ∷ []) bytes))
                (wrong_checksum hi lo c1 byte p bytes size wrong))
      ]
  on_byte-IsRead trailer byte (hi, lo, p, c1, c2, same, size, checked) =
      let grown : buf ++ (byte ∷ []) ≡ framed hi lo p (c1 ∷ c2 ∷ byte ∷ []) =
        ap (λ b. b ++ (byte ∷ [])) same ∙ framed-snoc hi lo p (c1 ∷ c2 ∷ []) byte in
      let content : inner (buf ++ (byte ∷ [])) ≡ p =
        ap inner grown ∙ inner-framed hi lo p c1 c2 byte in
      elim (Bool-cases (byte == 0xbb)) [
        | inl e ↦
            let closed : byte ≡ 0xbb = (==_iff _ _).0 e in
            rw (e, content)
              (
                refl,
                refl,
                hi,
                lo,
                c1,
                c2,
                size,
                checked,
                grown ∙ ap (λ x. framed hi lo p (c1 ∷ c2 ∷ x ∷ [])) closed,
              )
        | inr e ↦
            let wrong : byte ≢ 0xbb = λ same. let on = (==_iff byte 0xbb).1 same in cc in
            rw e (λ bytes events.
              subst (λ l. IsStream l (thrown invalid_trailer ∷ events))
                (sym
                  (ap (λ b. b ++ bytes) grown ∙ framed-append hi lo p (c1 ∷ c2 ∷ byte ∷ []) bytes))
                (wrong_end hi lo c1 c2 byte p bytes size checked wrong))
      ]

after_byte :
    (buf : List ℕ) (byte : ℕ) (bytes : List ℕ) (step : Splitter × Event)
    → IsRead (buf ++ (byte ∷ [])) step
    → ((s : Splitter) → Holds s s.state → IsStream (s.buf ++ bytes) (split_bytes s bytes).1)
    → IsStream (buf ++ (byte ∷ bytes)) (recorded step.1 (split_bytes step.0 bytes).1)
after_byte buf byte bytes (s, quiet) (h, grown) next =
    subst (λ l. IsStream l (split_bytes s bytes).1)
      (ap (λ b. b ++ bytes) grown ∙ append_assoc buf (byte ∷ []) bytes) (next s h)
after_byte buf byte bytes (s, message p) (start, none_left, hi, lo, c1, c2, size, checked, whole)
      next =
    let rest : IsStream bytes (split_bytes s bytes).1 =
      subst (λ b. IsStream (b ++ bytes) (split_bytes s bytes).1) none_left
        (next s (rw start none_left)) in
    let same : framed hi lo p (c1 ∷ c2 ∷ 0xbb ∷ bytes) ≡ buf ++ (byte ∷ bytes) =
      sym (ap (λ l. 0xaa ∷ hi ∷ lo ∷ l) (append_assoc p (c1 ∷ c2 ∷ 0xbb ∷ []) bytes))
      ∙ ap (λ b. b ++ bytes) (sym whole)
      ∙ append_assoc buf (byte ∷ []) bytes in
    subst (λ l. IsStream l (message p ∷ (split_bytes s bytes).1)) same
      (frame hi lo c1 c2 p bytes size checked rest)
after_byte buf byte bytes (s, thrown e) h next =
    subst (λ l. IsStream l (thrown e ∷ (split_bytes s bytes).1))
      (append_assoc buf (byte ∷ []) bytes) (h bytes (split_bytes s bytes).1)

framed-IsShort :
    (hi lo : ℕ) (p tail : List ℕ)
    → length p + length tail < lo + hi * 256 + 3
    → IsShort (framed hi lo p tail)
framed-IsShort hi lo p tail h = in_body hi lo (omega (arith, h, length-append p tail))

-- The buffer never holds a whole frame.
Holds-IsShort : (phase : Phase) (s : Splitter) → Holds s phase → IsShort s.buf
Holds-IsShort header s h = in_head (rw h (omega arith))
Holds-IsShort length_high s h = in_head (rw h (omega arith))
Holds-IsShort length_low s h = in_head (rw h (omega arith))
Holds-IsShort payload s (hi, lo, p, same, size) =
    subst IsShort (sym same) (framed-IsShort hi lo p [] (omega (arith, size)))
Holds-IsShort checksum s (hi, lo, p, c1, same, size) =
    subst IsShort (sym same) (framed-IsShort hi lo p (c1 ∷ []) (omega (arith, size)))
Holds-IsShort trailer s (hi, lo, p, c1, c2, same, size, checked) =
    subst IsShort (sym same) (framed-IsShort hi lo p (c1 ∷ c2 ∷ []) (omega (arith, size)))

split_bytes_from :
    (bytes : List ℕ) (s : Splitter)
    → Holds s s.state
    → IsStream (s.buf ++ bytes) (split_bytes s bytes).1
unfolding split_bytes split_byte
split_bytes_from [] s h = ended (subst IsShort (sym (append-nil s.buf)) (Holds-IsShort s.state s h))
split_bytes_from (byte ∷ bytes) s h =
    after_byte s.buf byte bytes (split_byte s byte)
      (on_byte-IsRead s.prev s.total s.buf s.state byte h) (split_bytes_from bytes)

-- Whatever bytes arrive, a new splitter takes the frames off them, one directly after the other: it
-- hands the payload of each to the callback when the frame has its start and end byte, as many
-- payload bytes as its length says, and a checksum of zero; it throws what fits the first frame
-- that is wrong; and if no frame is wrong, it goes on until what is left is shorter than a frame.
-- What it does after an exception is left open.
pub split_bytes-IsStream : (bytes : List ℕ) → IsStream bytes (split_bytes splitter bytes).1
split_bytes-IsStream bytes = split_bytes_from bytes splitter refl
