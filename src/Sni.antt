-- ===== src/Sni.antt =====
-- The host that a TLS client asks for: `readServerName` of cloud/sni_router.ts.
pub mod Reading
mod Tests
use rethink.Common.{
  ℕ, zero, suc, ◌+◌, ◌-◌, ◌*◌, ◌/◌, ◌%◌, ◌^◌, ◌≤◌, ◌<◌, min, bit_xor, ◌≡◌, refl, sym, ap, ◌∙◌,
  ◌≡⟨◌⟩◌, ◌∎, ◌≢◌, ◌↔◌, ◌⊎◌, inl, inr, Bool, true, false, not, ◌&&◌, ◌||◌, Option, none, some, List,
  [], ◌∷◌, ◌++◌, map, append-nil, append_assoc, arith, ltb, leb, ◌==◌, ==_iff, if◌then◌else◌,
  Bool-cases, Option-cases, split_if, split_option, all_below, all_below_sound, length, get_elem?,
  get_or, take, drop, concat, length-append, length-drop, length-take, take-append_le,
  drop-append_le, take_length, drop_length, All, All-append, All-drop, All-take, drop-get_elem?,
  get_elem?-eq-none, get_elem?_past, drop_past, bit_xor-zero, bit_xor_self, bit_xor-lt,
  bit_xor_bytes, bit_xor_words, bit_xor_comm, bit_xor_cancel, zero-bit_xor,
}
use rethink.Wire.Packet.{subarray}

-- `hello.readUInt16BE(at)`; it throws where two bytes are not there.
abbrev pub read_word : List ℕ → ℕ → Option ℕ
read_word hello i =
    if leb (i + 2) (length hello)
    then some (get_or hello i 0 * 256 + get_or hello (i + 1) 0)
    else none

-- The same where the bytes are known to be there.
abbrev pub word_at : List ℕ → ℕ → ℕ
word_at hello i = get_or hello i 0 * 256 + get_or hello (i + 1) 0

-- `toString('ascii')` keeps seven bits of each byte.
abbrev pub ascii : List ℕ → List ℕ
ascii bytes = map (λ b. b % 128) bytes

-- The server name in the body of its extension.
unfoldable pub name_in : List ℕ → ℕ → ℕ → Option (List ℕ)
name_in hello body extensions_end =
    let name_length = word_at hello (body + 3) in
    let start = body + 5 in
    if not (get_or hello (body + 2) 0 == 0) || ltb extensions_end (start + name_length)
    then none
    else some (ascii (subarray hello start (start + name_length)))

-- The loop over the extensions. Each round goes on four bytes at least (`scan-enough`).
unfoldable pub scan : ℕ → List ℕ → ℕ → ℕ → Option (List ℕ)
scan zero hello i extensions_end = none
scan (suc fuel) hello i extensions_end =
    let body = i + 4 in
    let rest = scan fuel hello (body + word_at hello (i + 2)) extensions_end in
    if leb (i + 4) extensions_end
    then (if word_at hello i == 0 && leb (body + 5) extensions_end
        then name_in hello body extensions_end
        else rest)
    else none

abbrev pub is_client_hello : List ℕ → Bool
is_client_hello hello =
    leb 47 (length hello) && get_or hello 0 0 == 0x16 && get_or hello 5 0 == 0x01

-- Past the session id, the cipher suites and the compression methods, to the extensions.
unfoldable pub extensions_at : List ℕ → Option ℕ
extensions_at hello =
    let suites = 44 + get_or hello 43 0 in
    elim (read_word hello suites) [
      | none ↦ none
      | some cipher_suites ↦ elim (get_elem? hello (suites + 2 + cipher_suites)) [
        | none ↦ none
        | some compression ↦ some (suites + 2 + cipher_suites + 1 + compression)
      ]
    ]

-- `readServerName`
unfoldable pub read_server_name : List ℕ → Option (List ℕ)
read_server_name hello =
    if is_client_hello hello
    then elim (extensions_at hello) [
      | none ↦ none
      | some i ↦ elim (read_word hello i) [
        | none ↦ none
        | some extensions_length ↦
            scan (length hello) hello (i + 2) (min (extensions_length + i + 2) (length hello))
      ]
    ]
    else none
