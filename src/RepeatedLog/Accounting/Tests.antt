-- ===== src/RepeatedLog/Accounting/Tests.antt =====
-- One line that repeats, and the theorem at a concrete input.
use rethink.Common.{ℕ, ◌+◌, ◌≡◌, refl, List, [], ◌∷◌}
use rethink.Mqtt.Topic.{Text}
use rethink.Mqtt.Table.{lookup, put}
use rethink.RepeatedLog.{report, reports}
use rethink.RepeatedLog.Accounting.{calls_of, reported_of, held_by, reports-counts}

abbrev refusal : Text
refusal = 1 ∷ []

abbrev four_calls : List (Text × ℕ)
four_calls = (refusal, 0) ∷ (refusal, 1) ∷ (refusal, 2) ∷ (refusal, 60) ∷ []

two_lines : (reports 60 four_calls []).1 ≡ (refusal, 0) ∷ (refusal, 3) ∷ []
unfolding reports report lookup put
two_lines = refl

reports-counts_example :
    reported_of refusal (reports 60 four_calls []).1
      + held_by (lookup refusal (reports 60 four_calls []).0)
    ≡ calls_of refusal four_calls + held_by (lookup refusal [])
reports-counts_example = reports-counts 60 refusal four_calls []
