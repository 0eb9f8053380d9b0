-- ===== src/Wire/LengthFrame/Chunks.antt =====
-- How the stream is cut into chunks.
use rethink.Common.{
  ℕ, zero, suc, ◌+◌, ◌≤◌, ◌≡◌, refl, sym, ap, ◌∙◌, ◌⊎◌, inl, inr, Bool, true, false, Option, none,
  some, List, [], ◌∷◌, ◌++◌, append-nil, append_assoc, arith, ltb, leb, if◌then◌else◌, Bool-cases,
  length, take, drop, concat, length-append, length-drop, take-append_le, drop-append_le,
}
use rethink.Wire.LengthFrame.{
  Splitter, Outcome, read_uint32, drain, wait_for_more, joined, split, split_chunks,
}

read_uint32-append : (xs ys : List ℕ) → 4 ≤ length xs → read_uint32 (xs ++ ys) ≡ read_uint32 xs
read_uint32-append (a ∷ b ∷ c ∷ d ∷ rest) ys h = refl
read_uint32-append (a ∷ b ∷ c ∷ []) ys h = absurd (omega arith)
read_uint32-append (a ∷ b ∷ []) ys h = absurd (omega arith)
read_uint32-append (a ∷ []) ys h = absurd (omega arith)
read_uint32-append [] ys h = absurd (omega arith)

module _ {S : Type 0} (max_payload : ℕ) (callback : List ℕ → S → S × Bool) where
  pub drain-enough :
      (n m : ℕ) (accum : List ℕ) (s : S)
      → length accum ≤ n
      → length accum ≤ m
      → drain max_payload callback n accum s ≡ drain max_payload callback m accum s
  unfolding drain
  drain-enough zero zero accum s p q = refl
  drain-enough zero (suc m) accum s p q = let e : ltb (length accum) 4 ≡ true = ground arith in rw e
  drain-enough (suc n) zero accum s p q = let e : ltb (length accum) 4 ≡ true = ground arith in rw e
  drain-enough (suc n) (suc m) accum s p q =
      let len = read_uint32 accum in
      let out = callback (take len (drop 4 accum)) s in
      ground (arith, drain-enough n m (drop (4 + len) accum) out.0, length-drop (4 + len) accum)

  -- What a later chunk does to an outcome.
  abbrev pub resume : Outcome S → List ℕ → Outcome S
  resume o ys = if o.state.failed then o else split max_payload callback o.state ys o.consumer

  joined-append : (accum ys : List ℕ) → joined max_payload callback (some accum) ys ≡ accum ++ ys
  joined-append [] ys = refl
  joined-append (b ∷ accum) ys = let e : ltb 0 (length (b ∷ accum)) ≡ true = ground arith in rw e

  resume_waiting :
      (m : ℕ) (accum ys : List ℕ) (s : S)
      → length (accum ++ ys) ≤ m
      → resume (wait_for_more max_payload callback accum s) ys
        ≡ drain max_payload callback m (accum ++ ys) s
  unfolding split
  resume_waiting m accum ys s h =
      rw (joined-append accum ys)
        (drain-enough (length (accum ++ ys)) m (accum ++ ys) s (omega arith) h)

  abbrev IsRefused : List ℕ → Type 0
  IsRefused accum =
      (leb 2147483648 (read_uint32 accum) ≡ true) ⊎ (ltb max_payload (read_uint32 accum) ≡ true)

  -- A length that is refused is refused at once, whatever follows.
  drain-append_refused :
      (n m : ℕ) (accum ys : List ℕ) (s : S)
      → ltb (length accum) 4 ≡ false
      → IsRefused accum
      → drain max_payload callback (suc m) (accum ++ ys) s
        ≡ resume (drain max_payload callback (suc n) accum s) ys
  unfolding drain
  drain-append_refused n m accum ys s header bad =
      let same : read_uint32 (accum ++ ys) ≡ read_uint32 accum =
        read_uint32-append accum ys (ground arith) in
      let long : ltb (length (accum ++ ys)) 4 ≡ false = ground (arith, length-append accum ys) in
      elim (Bool-cases (leb 2147483648 (read_uint32 accum))) [
        | inl neg ↦ rw (long, same, header, neg)
        | inr neg ↦
            let big : ltb max_payload (read_uint32 accum) ≡ true = ground arith in
            rw (long, same, header, neg, big)
      ]

  -- The next frame of a longer buffer is that of the shorter one, if the shorter one holds it.
  frame_front :
      (accum ys : List ℕ) (len : ℕ)
      → 4 + len ≤ length accum
      → (take len (drop 4 (accum ++ ys)) ≡ take len (drop 4 accum))
        × (drop (4 + len) (accum ++ ys) ≡ drop (4 + len) accum ++ ys)
  frame_front accum ys len h = (
    rw (drop-append_le 4 accum ys (omega arith))
        (take-append_le len (drop 4 accum) ys (omega (arith, length-drop 4 accum))),
    drop-append_le (4 + len) accum ys h,
  )

  IsRefused-cases :
      (accum : List ℕ)
      → IsRefused accum
        ⊎ ((leb 2147483648 (read_uint32 accum) ≡ false)
            × (ltb max_payload (read_uint32 accum) ≡ false))
  IsRefused-cases accum = elim (Bool-cases (leb 2147483648 (read_uint32 accum))) [
    | inl neg ↦ inl (inl neg)
    | inr neg ↦ elim (Bool-cases (ltb max_payload (read_uint32 accum))) [
      | inl big ↦ inl (inr big)
      | inr big ↦ inr (neg, big)
    ]
  ]

  -- Draining a longer buffer is draining its front, and then what is left with the rest.
  pub drain-append :
      (n m : ℕ) (accum ys : List ℕ) (s : S)
      → length accum ≤ n
      → length (accum ++ ys) ≤ m
      → drain max_payload callback m (accum ++ ys) s
        ≡ resume (drain max_payload callback n accum s) ys
  unfolding drain
  drain-append zero m accum ys s p q = sym (resume_waiting m accum ys s q)
  drain-append (suc n) zero accum ys s p q =
      let e : ltb (length accum) 4 ≡ true = ground (arith, length-append accum ys) in
      rw e (sym (resume_waiting zero accum ys s q))
  drain-append (suc n) (suc m) accum ys s p q = elim (Bool-cases (ltb (length accum) 4)) [
    | inl few ↦ rw few (sym (resume_waiting (suc m) accum ys s q))
    | inr header ↦ elim (IsRefused-cases accum) [
      | inl bad ↦ drain-append_refused n m accum ys s header bad
      | inr (neg, big) ↦ elim (Bool-cases (leb (4 + read_uint32 accum) (length accum))) [
        | inr part ↦ rw (header, neg, big, part) (sym (resume_waiting (suc m) accum ys s q))
        | inl whole ↦
            let len = read_uint32 accum in
            let (s', threw) = callback (take len (drop 4 accum)) s in
            let l = length-append accum ys in
            let same = read_uint32-append accum ys (ground arith) in
            let long : ltb (length (accum ++ ys)) 4 ≡ false = ground arith in
            let fits : leb (4 + len) (length (accum ++ ys)) ≡ true = ground arith in
            let (payload, rest) = frame_front accum ys len (ground arith) in
            let d = length-drop (4 + len) accum in
            let a = length-append (drop (4 + len) accum) ys in
            let ih = drain-append n m (drop (4 + len) accum) ys s' (ground arith) (ground arith) in
            elim (Bool-cases threw) [
              | inl t ↦ rw (long, same, header, neg, big, fits, whole, payload, t)
              | inr t ↦ rw (long, same, header, neg, big, fits, whole, payload, rest, t) ih
            ]
      ]
    ]
  ]

  joined-append_right :
      (held : Option (List ℕ)) (xs ys : List ℕ)
      → joined max_payload callback held (xs ++ ys) ≡ joined max_payload callback held xs ++ ys
  joined-append_right none xs ys = refl
  joined-append_right (some []) xs ys = refl
  joined-append_right (some (b ∷ accum)) xs ys =
      let e : ltb 0 (length (b ∷ accum)) ≡ true = ground arith in
      rw e (sym (append_assoc (b ∷ accum) xs ys))

  -- Splitting two pieces one after the other, unless the first fails, is splitting them together.
  split-append :
      (st : Splitter) (xs ys : List ℕ) (s : S)
      → st.failed ≡ false
      → split max_payload callback st (xs ++ ys) s ≡ resume (split max_payload callback st xs s) ys
  unfolding split
  split-append st xs ys s alive =
      let held = joined max_payload callback st.accum xs in
      rw (alive, joined-append_right st.accum xs ys)
        (drain-append (length held) (length (held ++ ys)) held ys s (omega arith) (omega arith))

  -- A splitter that has failed ignores what follows.
  split_chunks-failed :
      (st : Splitter) (chunks : List (List ℕ)) (s : S)
      → st.failed ≡ true
      → split_chunks max_payload callback st chunks s ≡ (st, s)
  unfolding split_chunks split
  split_chunks-failed st [] s dead = refl
  split_chunks-failed st (chunk ∷ chunks) s dead = simp dead (split_chunks-failed st chunks s dead)

  resume_failed : (o : Outcome S) (ys : List ℕ) → o.state.failed ≡ true → resume o ys ≡ o
  resume_failed o ys dead = simp dead

  resume_running :
      (o : Outcome S) (ys : List ℕ)
      → o.state.failed ≡ false
      → resume o ys ≡ split max_payload callback o.state ys o.consumer
  resume_running o ys running = simp running

  abbrev pub left_by : Outcome S → Splitter × S
  left_by o = (o.state, o.consumer)

  split_chunks-after :
      (st : Splitter) (front : List ℕ) (chunks : List (List ℕ)) (s : S)
      → st.failed ≡ false
      → let o = split max_payload callback st front s in
        split_chunks max_payload callback o.state chunks o.consumer
        ≡ left_by (split max_payload callback st (front ++ concat chunks) s)
  unfolding split_chunks
  split_chunks-after st front [] s alive = rw append-nil
  split_chunks-after st front (chunk ∷ chunks) s alive =
      let o = split max_payload callback st front s in
      elim (Bool-cases o.state.failed) [
        | inl dead ↦
            let more = split-append st front (chunk ++ concat chunks) s alive in
            split_chunks-failed o.state (chunk ∷ chunks) o.consumer dead
            ∙ sym (ap left_by (more ∙ resume_failed o (chunk ++ concat chunks) dead))
        | inr running ↦
            let whole = split-append st front chunk s alive ∙ resume_running o chunk running in
            ap (λ (p : Outcome S). split_chunks max_payload callback p.state chunks p.consumer)
              (sym whole)
            ∙ split_chunks-after st (front ++ chunk) chunks s alive
            ∙ ap (λ f. left_by (split max_payload callback st f s))
                (append_assoc front chunk (concat chunks))
      ]

  -- One chunk or more leave the splitter and the callback where one call on all their bytes does.
  pub split_chunks-concat :
      (st : Splitter) (chunk : List ℕ) (chunks : List (List ℕ)) (s : S)
      → st.failed ≡ false
      → split_chunks max_payload callback st (chunk ∷ chunks) s
        ≡ left_by (split max_payload callback st (concat (chunk ∷ chunks)) s)
  unfolding split_chunks
  split_chunks-concat st chunk chunks s alive = split_chunks-after st chunk chunks s alive
