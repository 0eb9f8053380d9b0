-- ===== src/Sni/Reading.antt =====
-- What is read of a hello, and that the loop ends.
use mathlib.Core.Path.{subst}
use rethink.Common.{
  ℕ, zero, suc, ◌+◌, ◌-◌, ◌≤◌, ◌<◌, min, ◌≡◌, refl, inl, inr, true, false, not, ◌&&◌, ◌||◌, Option,
  none, some, List, arith, ltb, leb, ◌==◌, Bool-cases, split_if, split_option, length, get_elem?,
  get_or,
}
use rethink.Wire.Packet.{subarray}
use rethink.Sni.{
  read_word, word_at, ascii, name_in, scan, is_client_hello, extensions_at, read_server_name,
}

-- Any two numbers of rounds that are at least what is left of the extensions, with one to spare, give
-- the same answer: the loop ends by its own test.
pub scan-enough :
    (n m : ℕ) (hello : List ℕ) (i extensions_end : ℕ)
    → extensions_end < i + n
    → extensions_end < i + m
    → scan n hello i extensions_end ≡ scan m hello i extensions_end
unfolding scan
scan-enough zero zero hello i e p q = refl
scan-enough zero (suc m) hello i e p q =
    let past : leb (i + 4) e ≡ false = ground arith in rw past refl
scan-enough (suc n) zero hello i e p q =
    let past : leb (i + 4) e ≡ false = ground arith in rw past refl
scan-enough (suc n) (suc m) hello i e p q = elim (Bool-cases (leb (i + 4) e)) [
  | inr past ↦ rw past refl
  | inl more ↦
      let next =
        scan-enough n m hello (i + 4 + word_at hello (i + 2)) e (omega arith) (omega arith) in
      rw next refl
]

-- A name that stands in the hello: after its length, after the type of a host name, with all of its
-- bytes there.
abbrev pub IsNamed : List ℕ → List ℕ → Type 0
IsNamed hello name =
    (start : ℕ) × (n : ℕ) × (name ≡ ascii (subarray hello start (start + n)))
    × (52 ≤ start)
    × (start + n ≤ length hello)
    × (word_at hello (start - 2) ≡ n)
    × (get_or hello (start - 3) 0 ≡ 0)

abbrev IsNamedOr : List ℕ → Option (List ℕ) → Type 0
IsNamedOr hello none = Unit
IsNamedOr hello (some name) = IsNamed hello name

name_in-IsNamed :
    (hello : List ℕ) (body e : ℕ)
    → e ≤ length hello
    → 47 ≤ body
    → IsNamedOr hello (name_in hello body e)
unfolding name_in
name_in-IsNamed hello body e fits far =
    let n = word_at hello (body + 3) in
    split_if (IsNamedOr hello) (not (get_or hello (body + 2) 0 == 0) || ltb e (body + 5 + n)) _ _
      (λ f. tt)
      (λ f.
        let before : body + 5 - 2 ≡ body + 3 = omega arith in
        let kind : body + 5 - 3 ≡ body + 2 = omega arith in
        let host : get_or hello (body + 2) 0 ≡ 0 = ground arith in
        let inside : body + 5 + n ≤ length hello = ground arith in
        (body + 5, n, refl, omega arith, inside, rw before refl, rw kind host))

scan-IsNamed :
    (fuel : ℕ) (hello : List ℕ) (i e : ℕ)
    → e ≤ length hello
    → 43 ≤ i
    → IsNamedOr hello (scan fuel hello i e)
unfolding scan
scan-IsNamed zero hello i e fits far = tt
scan-IsNamed (suc fuel) hello i e fits far =
    split_if (IsNamedOr hello) (leb (i + 4) e) _ _
      (λ more.
        split_if (IsNamedOr hello) (word_at hello i == 0 && leb (i + 4 + 5) e) _ _
          (λ f. name_in-IsNamed hello (i + 4) e fits (omega arith))
          (λ f. scan-IsNamed fuel hello (i + 4 + word_at hello (i + 2)) e fits (omega arith)))
      (λ past. tt)

extensions_at-far : (hello : List ℕ) (i : ℕ) → extensions_at hello ≡ some i → 43 ≤ i
unfolding extensions_at
extensions_at-far hello i =
    let P : Option ℕ → Type 0 = λ r. r ≡ some i → 43 ≤ i in
    let suites = 44 + get_or hello 43 0 in
    split_option P (read_word hello suites) _ _ (λ e f. cc)
      (λ cipher_suites e.
        split_option P (get_elem? hello (suites + 2 + cipher_suites)) _ _ (λ f g. cc)
          (λ compression f g. ground (arith, g)))

read_server_name-IsNamedOr : (hello : List ℕ) → IsNamedOr hello (read_server_name hello)
unfolding read_server_name
read_server_name-IsNamedOr hello =
    split_if (IsNamedOr hello) (is_client_hello hello) _ _
      (λ e.
        split_option (IsNamedOr hello) (extensions_at hello) _ _ (λ f. tt)
          (λ i f.
            split_option (IsNamedOr hello) (read_word hello i) _ _ (λ g. tt)
              (λ extensions_length g.
                scan-IsNamed (length hello) hello (i + 2)
                  (min (extensions_length + i + 2) (length hello)) (omega arith)
                  (omega (arith, extensions_at-far hello i f)))))
      (λ e. tt)

-- Whatever the bytes of a hello, the name that is read of it stands in it past the fixed part, all of it
-- within the hello: its length stands in the two bytes before it and the type of a host name, 0, before
-- those. Its bytes are taken with seven bits each.
pub read_server_name-IsNamed :
    (hello name : List ℕ) → read_server_name hello ≡ some name → IsNamed hello name
read_server_name-IsNamed hello name e = subst (IsNamedOr hello) e (read_server_name-IsNamedOr hello)

-- However long the loop over the extensions is allowed to go on beyond the length of the hello, the name
-- that it finds from the start of the extensions is the one that `readServerName` returns.
pub read_server_name-scan :
    (hello : List ℕ) (fuel i extensions_length : ℕ)
    → is_client_hello hello ≡ true
    → extensions_at hello ≡ some i
    → read_word hello i ≡ some extensions_length
    → length hello ≤ fuel
    → read_server_name hello
      ≡ scan fuel hello (i + 2) (min (extensions_length + i + 2) (length hello))
unfolding read_server_name
read_server_name-scan hello fuel i extensions_length client there word enough =
    let same =
      scan-enough (length hello) fuel hello (i + 2) (min (extensions_length + i + 2) (length hello))
        (omega arith) (omega arith) in
    rw (client, there, word) same
