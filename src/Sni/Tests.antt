-- ===== src/Sni/Tests.antt =====
-- A hello that asks for a host of two letters.
use rethink.Common.{ℕ, ◌≡◌, refl, some, List, [], ◌∷◌, arith}
use rethink.Sni.{name_in, scan, extensions_at, read_server_name}
use rethink.Sni.Reading.{IsNamed, read_server_name-IsNamed, read_server_name-scan}

abbrev hello : List ℕ
hello =
    22 ∷ 0 ∷ 0 ∷ 0 ∷ 0 ∷ 1 ∷ 0 ∷ 0 ∷ 0 ∷ 0 ∷ 0 ∷ 0 ∷ 0 ∷ 0 ∷ 0 ∷ 0 ∷ 0 ∷ 0 ∷ 0 ∷ 0 ∷ 0 ∷ 0 ∷ 0 ∷ 0
    ∷ 0 ∷ 0 ∷ 0 ∷ 0 ∷ 0 ∷ 0 ∷ 0 ∷ 0 ∷ 0 ∷ 0 ∷ 0 ∷ 0 ∷ 0 ∷ 0 ∷ 0 ∷ 0 ∷ 0 ∷ 0 ∷ 0 ∷ 0 ∷ 0 ∷ 0 ∷ 0 ∷ 0
    ∷ 11 ∷ 0 ∷ 0 ∷ 0 ∷ 7 ∷ 0 ∷ 5 ∷ 0 ∷ 0 ∷ 2 ∷ 97 ∷ 98 ∷ []

hello_test : read_server_name hello ≡ some (0x61 ∷ 0x62 ∷ [])
unfolding read_server_name extensions_at scan name_in
hello_test = refl

read_server_name-IsNamed_example : IsNamed hello (0x61 ∷ 0x62 ∷ [])
read_server_name-IsNamed_example = read_server_name-IsNamed hello (0x61 ∷ 0x62 ∷ []) hello_test

extensions_test : extensions_at hello ≡ some 47
unfolding extensions_at
extensions_test = refl

read_server_name-scan_example : read_server_name hello ≡ scan 100 hello 49 60
read_server_name-scan_example =
    read_server_name-scan hello 100 47 11 refl extensions_test refl (omega arith)
