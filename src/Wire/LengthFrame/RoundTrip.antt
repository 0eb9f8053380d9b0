-- ===== src/Wire/LengthFrame/RoundTrip.antt =====
-- What `make` frames, read by the splitter.
use rethink.Common.{
  ℕ, suc, ◌+◌, ◌≤◌, ◌<◌, ◌≡◌, refl, ap, ◌∙◌, inl, inr, Bool, true, false, none, some, List, [], ◌∷◌,
  ◌++◌, append-nil, append_assoc, arith, ltb, leb, Bool-cases, length, take, drop, concat,
  length-append, take-append_le, drop-append_le, take_length, drop_length, All,
}
use rethink.Wire.LengthFrame.{
  splitter, read_uint32, drain, wait_for_more, split, split_chunks, split_end, be32, make,
}
use rethink.Wire.LengthFrame.Chunks.{drain-enough, left_by, split_chunks-concat}

-- A callback that keeps every payload, in order, and never throws.
abbrev pub collect : List ℕ → List (List ℕ) → List (List ℕ) × Bool
collect payload got = (got ++ (payload ∷ []), false)

-- A stream that holds the frames of these messages, one after the other.
abbrev pub IsStreamOf : List (List ℕ) → List ℕ → Type 0
IsStreamOf [] bytes = bytes ≡ []
IsStreamOf (message ∷ messages) bytes =
    (frame : List ℕ) × ((rest : List ℕ) × (make message ≡ some frame)
      × (bytes ≡ frame ++ rest)
      × IsStreamOf messages rest)

be32_back : (n : ℕ) (rest : List ℕ) → n < 2147483648 → read_uint32 (be32 n ++ rest) ≡ n
be32_back n rest h = omega arith

make-be32 :
    (message frame : List ℕ)
    → make message ≡ some frame
    → (length message < 2147483648) × (frame ≡ be32 (length message) ++ message)
unfolding make
make-be32 message frame e = elim (Bool-cases (ltb (length message) 2147483648)) [
  | inl short ↦ (ground arith, ground arith)
  | inr long ↦ ground arith
]

drain-frame :
    (max_payload n : ℕ) (message rest : List ℕ) (got : List (List ℕ))
    → length message < 2147483648
    → length message ≤ max_payload
    → drain max_payload collect (suc n) (be32 (length message) ++ (message ++ rest)) got
      ≡ drain max_payload collect n rest (got ++ (message ∷ []))
unfolding drain
drain-frame max_payload n message rest got h k =
    let len = length message in
    let read = be32_back len (message ++ rest) h in
    let four : ltb (length (be32 len ++ (message ++ rest))) 4 ≡ false = ground arith in
    let sign : leb 2147483648 len ≡ false = ground arith in
    let size : ltb max_payload len ≡ false = ground arith in
    let whole : leb (4 + len) (length (be32 len ++ (message ++ rest))) ≡ true =
      ground (arith, length-append message rest) in
    let payload : take len (message ++ rest) ≡ message =
      take-append_le len message rest (omega arith) ∙ take_length message in
    let gone : drop (4 + len) (be32 len ++ (message ++ rest)) ≡ rest =
      let four_more : 4 + len ≡ suc (suc (suc (suc len))) = omega arith in
      rw four_more (drop-append_le len message rest (omega arith) ∙ rw (drop_length message)) in
    rw (read, four, sign, size, whole, payload, gone)

drain-IsStreamOf :
    (max_payload n : ℕ) (messages : List (List ℕ)) (bytes : List ℕ) (got : List (List ℕ))
    → length bytes ≤ n
    → All (λ m. length m ≤ max_payload) messages
    → IsStreamOf messages bytes
    → drain max_payload collect n bytes got ≡ wait_for_more max_payload collect [] (got ++ messages)
drain-IsStreamOf max_payload n [] bytes got p h e =
    rw (e, append-nil)
      (drain-enough max_payload collect n 0 [] got (omega arith) (omega arith)
        ∙ (unfold drain in refl))
drain-IsStreamOf max_payload n (m ∷ messages) bytes got p (k, h) (frame, (rest, made, e, more)) =
    let (short, whole) = make-be32 m frame made in
    let stream : bytes ≡ be32 (length m) ++ (m ++ rest) = e ∙ ap (λ f. f ++ rest) whole in
    let fits : length rest < n = omega (arith, ap length stream, length-append m rest, p) in
    ap (λ b. drain max_payload collect n b got) stream
    ∙ drain-enough max_payload collect n (suc n) (be32 (length m) ++ (m ++ rest)) got
        (omega (arith, ap length stream)) (omega (arith, ap length stream))
    ∙ drain-frame max_payload n m rest got short k
    ∙ drain-IsStreamOf max_payload n messages rest (got ++ (m ∷ [])) (omega arith) h more
    ∙ rw (append_assoc got (m ∷ []) messages)

-- Messages of at most the maximal payload, framed by `make` and sent in chunks cut anywhere, come
-- out of a new splitter one by one and in order; nothing fails and nothing is left over at the end.
pub split_chunks-make :
    (max_payload : ℕ) (messages chunks : List (List ℕ))
    → All (λ m. length m ≤ max_payload) messages
    → IsStreamOf messages (concat chunks)
    → let left = split_chunks max_payload collect splitter chunks [] in
      (left.1 ≡ messages) × (left.0.failed ≡ false) × (split_end left.0 ≡ (left.0, none))
unfolding split_chunks split_end split
split_chunks-make max_payload [] [] h e = (refl, refl, refl)
split_chunks-make max_payload (m ∷ messages) [] h (frame, (rest, made, e, more)) =
    absurd (omega (arith, ap length (e ∙ ap (λ f. f ++ rest) (make-be32 m frame made).1)))
split_chunks-make max_payload messages (chunk ∷ chunks) h e =
    let bytes = concat (chunk ∷ chunks) in
    let done =
      split_chunks-concat max_payload collect splitter chunk chunks [] refl
      ∙ ap (left_by max_payload collect)
          (drain-IsStreamOf max_payload (length bytes) messages bytes [] (omega arith) h e) in
    rw done (refl, refl, refl)
