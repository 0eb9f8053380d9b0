-- ===== src/Wire/Tlv/Tests.antt =====
-- Short buffers, and the theorems at concrete inputs.
use rethink.Common.{◌≡◌, refl, none, some, List, [], ◌∷◌, ◌++◌, map, arith}
use rethink.Wire.Tlv.{Tlv, parse, build}
use rethink.Wire.Tlv.Laws.{on_wire, parse-build, tag_and_value, parse-build-parse}

abbrev caps_query : List Tlv
caps_query = record { t = 0x1f5; l = none; v = 1 } ∷ record { t = 0x253; l = none; v = 300 } ∷ []

build-caps_query : build caps_query ≡ 0x7d ∷ 0x41 ∷ 0x94 ∷ 0xe0 ∷ 0x01 ∷ 0x2c ∷ []
unfolding build
build-caps_query = refl

-- The second record announces two bytes and one is there: it is dropped.
parse_truncated :
    parse (0x7d ∷ 0x41 ∷ 0x94 ∷ 0xe0 ∷ 0x01 ∷ []) ≡ record { t = 0x1f5; l = some 0; v = 1 } ∷ []
unfolding parse
parse_truncated = refl

parse-build_example :
    parse (build caps_query ++ (1 ∷ [])) ≡ map on_wire caps_query ++ parse (1 ∷ [])
parse-build_example = parse-build caps_query (1 ∷ [])

parse-build-parse_example :
    map tag_and_value (parse (build (parse (0x7d ∷ 0x50 ∷ 0x03 ∷ []))))
    ≡ map tag_and_value (parse (0x7d ∷ 0x50 ∷ 0x03 ∷ []))
parse-build-parse_example = parse-build-parse (0x7d ∷ 0x50 ∷ 0x03 ∷ []) (omega arith)
