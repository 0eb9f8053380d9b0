-- ===== src/Wire/LengthFrame.antt =====
-- util/length_prefixed_frame.ts: payloads behind a four-byte length, cut out of a stream of chunks.
pub mod Chunks
pub mod RoundTrip
mod Tests
use rethink.Common.{
  ℕ, zero, suc, ◌+◌, ◌-◌, ◌*◌, ◌/◌, ◌%◌, ◌^◌, ◌≤◌, ◌<◌, min, bit_xor, ◌≡◌, refl, sym, ap, ◌∙◌,
  ◌≡⟨◌⟩◌, ◌∎, ◌≢◌, ◌↔◌, ◌⊎◌, inl, inr, Bool, true, false, not, ◌&&◌, ◌||◌, Option, none, some, List,
  [], ◌∷◌, ◌++◌, map, append-nil, append_assoc, arith, ltb, leb, ◌==◌, ==_iff, if◌then◌else◌,
  Bool-cases, Option-cases, all_below, all_below_sound, length, get_elem?, get_or, take, drop,
  concat, length-append, length-drop, length-take, take-append_le, drop-append_le, take_length,
  drop_length, All, All-append, All-drop, All-take, bit_xor-zero, bit_xor_self, bit_xor-lt,
  bit_xor_bytes, bit_xor_words, bit_xor_comm, bit_xor_cancel, zero-bit_xor,
}

pub data FrameError : Type 0 where
  negative_length length_exceeded callback_failed truncated : FrameError

-- The variables that `splitter` closes over. `accum` is `none` for `undefined`.
pub record Splitter : Type 0 where
  pub accum : Option (List ℕ)
  pub failed : Bool

abbrev pub splitter : Splitter
splitter = record { accum = none; failed = false }

-- What a call leaves behind: the splitter, what the callback did, and the error thrown, if any.
pub record Outcome (S : Type 0) : Type 0 where
  pub state : Splitter
  pub consumer : S
  pub error : Option FrameError

-- The four bytes of `readInt32BE(0)` as an unsigned number; from 2 ^ 31 on the integer is negative.
abbrev pub read_uint32 : List ℕ → ℕ
read_uint32 (a ∷ b ∷ c ∷ d ∷ rest) = ((a * 256 + b) * 256 + c) * 256 + d
read_uint32 bytes = 0

-- `max_payload` is `maxPayloadLength`. The callback takes a payload and the state that it acts on;
-- its Boolean is true if it throws.
module _ {S : Type 0} (max_payload : ℕ) (callback : List ℕ → S → S × Bool) where
  abbrev fail_with : FrameError → S → Outcome S
  fail_with e s = record {
    state = record { accum = none; failed = true };
    consumer = s;
    error = some e;
  }

  abbrev wait_for_more : List ℕ → S → Outcome S
  wait_for_more accum s = record {
    state = record { accum = some accum; failed = false };
    consumer = s;
    error = none;
  }

  -- The `while` loop. A round that goes on takes four bytes at least, so a round for each byte is
  -- enough (`drain-enough`).
  pub drain : ℕ → List ℕ → S → Outcome S
  drain zero accum s = wait_for_more accum s
  drain (suc fuel) accum s =
      let payload_len = read_uint32 accum in
      let (s', threw) = callback (take payload_len (drop 4 accum)) s in
      let rest = drain fuel (drop (4 + payload_len) accum) s' in
      if ltb (length accum) 4
      then wait_for_more accum s
      else if leb 2147483648 payload_len
      then fail_with negative_length s
      else if ltb max_payload payload_len
      then fail_with length_exceeded s
      else if leb (4 + payload_len) (length accum)
      then (if threw then fail_with callback_failed s' else rest)
      else wait_for_more accum s

  -- `accum && accum.length > 0 ? Buffer.concat([accum, buf]) : buf`
  abbrev joined : Option (List ℕ) → List ℕ → List ℕ
  joined none buf = buf
  joined (some accum) buf = if ltb 0 (length accum) then accum ++ buf else buf

  -- `split`
  pub split : Splitter → List ℕ → S → Outcome S
  split st buf s =
      let accum = joined st.accum buf in
      if st.failed
      then record { state = st; consumer = s; error = none }
      else drain (length accum) accum s

  -- `split` on one chunk after the other; the error of a chunk leaves the splitter failed.
  pub split_chunks : Splitter → List (List ℕ) → S → Splitter × S
  split_chunks st [] s = (st, s)
  split_chunks st (chunk ∷ chunks) s =
      let o = split st chunk s in split_chunks o.state chunks o.consumer

-- `split.end`
abbrev pub has_bytes : Option (List ℕ) → Bool
has_bytes none = false
has_bytes (some accum) = ltb 0 (length accum)

unfoldable pub split_end : Splitter → Splitter × Option FrameError
split_end st =
    if not st.failed && has_bytes st.accum
    then (record { accum = none; failed = true }, some truncated)
    else (st, none)

-- `writeInt32BE`
abbrev pub be32 : ℕ → List ℕ
be32 n = (n / 16777216) ∷ (n / 65536 % 256) ∷ (n / 256 % 256) ∷ (n % 256) ∷ []

-- `make` of a buffer; `writeInt32BE` throws for a length that is no 32-bit integer.
pub make : List ℕ → Option (List ℕ)
make input = if ltb (length input) 2147483648 then some (be32 (length input) ++ input) else none
