-- ===== src/Wire/LengthFrame/Tests.antt =====
-- A stream cut in the middle of a header, and the theorems at concrete inputs.
use rethink.Common.{ℕ, ◌≡◌, refl, false, none, some, List, [], ◌∷◌, arith, concat}
use rethink.Wire.LengthFrame.{
  splitter, drain, split, split_chunks, split_end, make, negative_length, truncated,
}
use rethink.Wire.LengthFrame.Chunks.{left_by, split_chunks-concat}
use rethink.Wire.LengthFrame.RoundTrip.{collect, IsStreamOf, split_chunks-make}

abbrev two_messages : List (List ℕ)
two_messages = (7 ∷ 8 ∷ []) ∷ [] ∷ []

abbrev two_chunks : List (List ℕ)
two_chunks = (0 ∷ 0 ∷ 0 ∷ []) ∷ (2 ∷ 7 ∷ 8 ∷ 0 ∷ 0 ∷ 0 ∷ 0 ∷ []) ∷ []

two_chunks-split : (split_chunks 65536 collect splitter two_chunks []).1 ≡ two_messages
unfolding split_chunks split drain
two_chunks-split = refl

negative_refused :
    (split 65536 collect splitter (0x80 ∷ 0 ∷ 0 ∷ 0 ∷ []) []).error ≡ some negative_length
unfolding split drain
negative_refused = refl

cut_refused : (split_end (record { accum = some (1 ∷ []); failed = false })).1 ≡ some truncated
unfolding split_end
cut_refused = refl

two_chunks-IsStreamOf : IsStreamOf two_messages (concat two_chunks)
unfolding make
two_chunks-IsStreamOf = (_, (0 ∷ 0 ∷ 0 ∷ 0 ∷ [], refl, refl, (_, ([], refl, refl, refl))))

split_chunks-make_example :
    let left = split_chunks 65536 collect splitter two_chunks [] in
    (left.1 ≡ two_messages) × (left.0.failed ≡ false) × (split_end left.0 ≡ (left.0, none))
split_chunks-make_example =
    split_chunks-make 65536 two_messages two_chunks (omega arith) two_chunks-IsStreamOf

split_chunks-concat_example :
    split_chunks 65536 collect splitter two_chunks []
    ≡ left_by 65536 collect (split 65536 collect splitter (concat two_chunks) [])
split_chunks-concat_example =
    split_chunks-concat 65536 collect splitter (0 ∷ 0 ∷ 0 ∷ [])
      ((2 ∷ 7 ∷ 8 ∷ 0 ∷ 0 ∷ 0 ∷ 0 ∷ []) ∷ []) [] refl
