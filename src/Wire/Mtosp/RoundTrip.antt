-- ===== src/Wire/Mtosp/RoundTrip.antt =====
-- What `format` writes, read by the splitter.
use rethink.Common.{
  ℕ, suc, ◌+◌, ◌-◌, ◌*◌, ◌/◌, ◌%◌, ◌<◌, ◌≡◌, refl, ap, ◌∙◌, true, List, [], ◌∷◌, ◌++◌, map,
  append-nil, append_assoc, arith, ltb, length, length-append, take-append_le, take_length, All,
}
use rethink.Wire.Crc16.{crc16}
use rethink.Wire.Crc16.Laws.{crc16-append_crc, crc_bytes}
use rethink.Wire.Mtosp.{
  header, payload, Splitter, splitter, Event, message, inner, split_byte, split_bytes, format,
}

-- The bytes of the payload are counted down.
split_bytes-payload :
    (prev : ℕ) (buf xs ys : List ℕ)
    → (last : ℕ) × (split_bytes
          (record { state = payload; prev = prev; total = length xs; buf = buf })
          (xs ++ ys)
        ≡ split_bytes (record { state = payload; prev = last; total = 0; buf = buf ++ xs }) ys)
unfolding split_bytes split_byte
split_bytes-payload prev buf [] ys = (prev, rw append-nil)
split_bytes-payload prev buf (x ∷ xs) ys =
    let (last, ih) = split_bytes-payload x (buf ++ (x ∷ [])) xs ys in
    let more : ltb 0 (suc (length xs)) ≡ true = ground arith in
    let one_less : suc (length xs) - 1 ≡ length xs = omega arith in
    (last, rw (more, one_less) (ih ∙ rw (append_assoc buf (x ∷ []) xs)))

-- The first three bytes of a message announce its length.
abbrev head_of : List ℕ → List ℕ
head_of xml = 0xaa ∷ (length xml / 256 % 256) ∷ (length xml % 256) ∷ []

split_bytes-head :
    (prev total : ℕ) (xml ys : List ℕ)
    → length xml < 65536
    → split_bytes
        (record { state = header; prev = prev; total = total; buf = [] })
        (head_of xml ++ ys)
      ≡ split_bytes
          (record {
            state = payload;
            prev = length xml % 256;
            total = length xml;
            buf = head_of xml;
          })
          ys
unfolding split_bytes split_byte
split_bytes-head prev total xml ys h =
    let sum : length xml % 256 + length xml / 256 % 256 * 256 ≡ length xml = omega arith in rw sum

inner_of_frame :
    (xml : List ℕ) (hi lo : ℕ) → inner ((head_of xml ++ xml) ++ (hi ∷ lo ∷ []) ++ (0xbb ∷ [])) ≡ xml
inner_of_frame xml hi lo =
    let flat : (head_of xml ++ xml) ++ (hi ∷ lo ∷ []) ++ (0xbb ∷ [])
        ≡ head_of xml ++ (xml ++ (hi ∷ lo ∷ 0xbb ∷ [])) =
      ap (λ t. head_of xml ++ t) (append_assoc xml (hi ∷ lo ∷ []) (0xbb ∷ [])) in
    let size : length (head_of xml ++ (xml ++ (hi ∷ lo ∷ 0xbb ∷ []))) - 3 - 3 ≡ length xml =
      omega (arith, length-append xml (hi ∷ lo ∷ 0xbb ∷ [])) in
    ap inner flat
    ∙ rw size
        (take-append_le (length xml) xml (hi ∷ lo ∷ 0xbb ∷ []) (omega arith) ∙ take_length xml)

-- The last three bytes close it.
split_bytes-tail :
    (prev : ℕ) (xml ys : List ℕ)
    → let crc = crc16 (head_of xml ++ xml) in
      let rest = split_bytes (record { state = header; prev = 0xbb; total = 0; buf = [] }) ys in
      split_bytes
        (record { state = payload; prev = prev; total = 0; buf = head_of xml ++ xml })
        ((crc / 256) ∷ (crc % 256) ∷ 0xbb ∷ ys)
      ≡ (rest.0, message xml ∷ rest.1)
unfolding split_bytes split_byte
split_bytes-tail prev xml ys =
    let held = head_of xml ++ xml in
    let crc = crc16 held in
    let two : (held ++ ((crc / 256) ∷ [])) ++ ((crc % 256) ∷ []) ≡ held ++ crc_bytes held =
      append_assoc held ((crc / 256) ∷ []) ((crc % 256) ∷ []) in
    rw (two, crc16-append_crc held) (rw (inner_of_frame xml (crc / 256) (crc % 256)))

-- A message formatted by the sender is handed to the callback whole, and the splitter is ready for
-- the next one.
split_bytes-format :
    (prev total : ℕ) (xml ys : List ℕ)
    → length xml < 65536
    → let rest = split_bytes (record { state = header; prev = 0xbb; total = 0; buf = [] }) ys in
      split_bytes
        (record { state = header; prev = prev; total = total; buf = [] })
        (format xml ++ ys)
      ≡ (rest.0, message xml ∷ rest.1)
unfolding format
split_bytes-format prev total xml ys h =
    let crc = crc16 (head_of xml ++ xml) in
    let tail : List ℕ = (crc / 256) ∷ (crc % 256) ∷ 0xbb ∷ [] in
    let (last, counted) = split_bytes-payload (length xml % 256) (head_of xml) xml (tail ++ ys) in
    split_bytes-head prev total xml ((xml ++ tail) ++ ys) h
    ∙ rw (append_assoc xml tail ys) counted
    ∙ split_bytes-tail last xml ys

abbrev pub format_all : List (List ℕ) → List ℕ
format_all [] = []
format_all (xml ∷ xmls) = format xml ++ format_all xmls

split_bytes-format_all :
    (prev total : ℕ) (xmls : List (List ℕ))
    → All (λ xml. length xml < 65536) xmls
    → (split_bytes
        (record { state = header; prev = prev; total = total; buf = [] })
        (format_all xmls)).1
      ≡ map message xmls
split_bytes-format_all prev total [] h = unfold split_bytes in refl
split_bytes-format_all prev total (xml ∷ xmls) (k, h) =
    ap (λ (r : Splitter × List Event). r.1) (split_bytes-format prev total xml (format_all xmls) k)
    ∙ ap (λ events. message xml ∷ events) (split_bytes-format_all 0xbb 0 xmls h)

-- Messages of fewer than 65536 bytes, formatted and read byte by byte by a new splitter, are handed to
-- the callback whole and in order, and nothing is thrown.
pub split_bytes-formatted :
    (xmls : List (List ℕ))
    → All (λ xml. length xml < 65536) xmls
    → (split_bytes splitter (format_all xmls)).1 ≡ map message xmls
split_bytes-formatted xmls h = split_bytes-format_all 0 0 xmls h
