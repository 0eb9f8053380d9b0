-- ===== src/Wire/Mtosp/Tests.antt =====
-- Short exchanges, and the theorem at a concrete input.
use rethink.Common.{ℕ, ◌≡◌, refl, List, [], ◌∷◌, ◌++◌, map, arith}
use rethink.Wire.Crc16.{crc16}
use rethink.Wire.Mtosp.{splitter, message, thrown, invalid_header, split_bytes, split_byte, format}
use rethink.Wire.Mtosp.Safety.{IsStream, split_bytes-IsStream}
use rethink.Wire.Mtosp.RoundTrip.{format_all, split_bytes-formatted}

abbrev two_messages : List (List ℕ)
two_messages = (60 ∷ 62 ∷ []) ∷ [] ∷ []

format_short : format (60 ∷ 62 ∷ []) ≡ 0xaa ∷ 0 ∷ 2 ∷ 60 ∷ 62 ∷ 149 ∷ 207 ∷ 0xbb ∷ []
unfolding format crc16
format_short = refl

noise_refused : (split_bytes splitter (1 ∷ [])).1 ≡ thrown invalid_header ∷ []
unfolding split_bytes split_byte
noise_refused = refl

split_bytes-formatted_example :
    (split_bytes splitter (format_all two_messages)).1 ≡ map message two_messages
split_bytes-formatted_example = split_bytes-formatted two_messages (omega arith)

split_bytes-IsStream_example :
    IsStream
      (format (60 ∷ 62 ∷ []) ++ (7 ∷ []))
      (split_bytes splitter (format (60 ∷ 62 ∷ []) ++ (7 ∷ []))).1
split_bytes-IsStream_example = split_bytes-IsStream (format (60 ∷ 62 ∷ []) ++ (7 ∷ []))
