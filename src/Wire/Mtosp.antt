-- ===== src/Wire/Mtosp.antt =====
-- util/mtosp.ts: framed XML messages, read byte by byte. `Buffer.from(xml, 'utf-8')` and its inverse
-- are Node's; a message is the list of its bytes here. The callback is taken to return: after one that
-- throws, the source keeps the buffer of the message, which is not modelled.
pub mod RoundTrip
pub mod Safety
mod Tests
use rethink.Common.{
  ℕ, zero, suc, ◌+◌, ◌-◌, ◌*◌, ◌/◌, ◌%◌, ◌^◌, ◌≤◌, ◌<◌, min, bit_xor, ◌≡◌, refl, sym, ap, ◌∙◌,
  ◌≡⟨◌⟩◌, ◌∎, ◌≢◌, ◌↔◌, ◌⊎◌, inl, inr, Bool, true, false, not, ◌&&◌, ◌||◌, Option, none, some, List,
  [], ◌∷◌, ◌++◌, map, append-nil, append_assoc, arith, ltb, leb, ◌==◌, ==_iff, if◌then◌else◌,
  Bool-cases, Option-cases, all_below, all_below_sound, length, get_elem?, get_or, take, drop,
  concat, length-append, length-drop, length-take, take-append_le, drop-append_le, take_length,
  drop_length, All, All-append, All-drop, All-take, bit_xor-zero, bit_xor_self, bit_xor-lt,
  bit_xor_bytes, bit_xor_words, bit_xor_comm, bit_xor_cancel, zero-bit_xor,
}
use rethink.Wire.Crc16.{crc16}

-- The values 0 to 5 of `state`.
pub data Phase : Type 0 where
  header length_high length_low payload checksum trailer : Phase

-- The variables that `splitter` closes over.
pub record Splitter : Type 0 where
  pub state : Phase
  pub prev : ℕ
  pub total : ℕ
  pub buf : List ℕ

abbrev pub splitter : Splitter
splitter = record { state = header; prev = 0; total = 0; buf = [] }

pub data MtospError : Type 0 where
  invalid_header invalid_checksum invalid_trailer : MtospError

-- What one byte brings about: nothing, a call of the callback, or an exception.
pub data Event : Type 0 where
  quiet : Event
  message : List ℕ → Event
  thrown : MtospError → Event

-- `buf.subarray(3, buf.length - 3)`
abbrev pub inner : List ℕ → List ℕ
inner buf = take (length buf - 3 - 3) (drop 3 buf)

-- The branch for each phase, on a splitter whose buffer holds the byte already. A branch that throws
-- leaves `prev` alone, the others end in `prev = byte`.
pub on_byte : Phase → Splitter → ℕ → Splitter × Event
on_byte header s byte =
    if byte == 0xaa
    then (record s { state = length_high; prev = byte }, quiet)
    else (s, thrown invalid_header)
on_byte length_high s byte = (record s { state = length_low; prev = byte }, quiet)
on_byte length_low s byte =
    (record s { state = payload; total = byte + s.prev * 256; prev = byte }, quiet)
on_byte payload s byte =
    if ltb 0 s.total
    then (record s { total = s.total - 1; prev = byte }, quiet)
    else (record s { state = checksum; prev = byte }, quiet)
on_byte checksum s byte =
    if crc16 s.buf == 0
    then (record s { state = trailer; prev = byte }, quiet)
    else (s, thrown invalid_checksum)
on_byte trailer s byte =
    if byte == 0xbb
    then (record s { state = header; buf = []; prev = byte }, message (inner s.buf))
    else (s, thrown invalid_trailer)

-- The function that `splitter` returns.
pub split_byte : Splitter → ℕ → Splitter × Event
unfolding on_byte
split_byte s byte = on_byte s.state (record s { buf = s.buf ++ (byte ∷ []) }) byte

abbrev pub recorded : Event → List Event → List Event
recorded quiet events = events
recorded e events = e ∷ events

-- One byte after the other, with what they brought about. A caller may go on after an exception.
pub split_bytes : Splitter → List ℕ → Splitter × List Event
split_bytes s [] = (s, [])
split_bytes s (byte ∷ bytes) =
    let (s', e) = split_byte s byte in
    let (s'', events) = split_bytes s' bytes in (s'', recorded e events)

-- `format`
pub format : List ℕ → List ℕ
format xml =
    let head = 0xaa ∷ (length xml / 256 % 256) ∷ (length xml % 256) ∷ [] in
    let crc = crc16 (head ++ xml) in head ++ (xml ++ ((crc / 256) ∷ (crc % 256) ∷ 0xbb ∷ []))
