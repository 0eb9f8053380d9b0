-- ===== src/Certificates/Tests.antt =====
-- Three names are asked for, and the theorem at a concrete input.
use rethink.Common.{ℕ, ◌≡◌, refl, Bool, true, some, List, [], ◌∷◌, ◌++◌}
use rethink.Mqtt.Topic.{Text}
use rethink.Mqtt.Table.{lookup, put, delete}
use rethink.Certificates.{
  Event, asked, made, timed_out, shut, drain_queue, drain, finish, generated, issue, step, run,
  new_provider,
}
use rethink.Certificates.Finishing.{IsOrderly}
use rethink.Certificates.Reached.{run-IsOrderly}

abbrev any_name : Text → Bool
any_name hostname = true

abbrev name : ℕ → Text
name n = n ∷ []

abbrev three_names : List Event
three_names = asked (name 1) ∷ asked (name 2) ∷ asked (name 3) ∷ []

third_waits : (run any_name three_names new_provider).queue ≡ name 3 ∷ []
unfolding run step issue drain drain_queue lookup put
third_waits = refl

third_starts : (run any_name (three_names ++ (made (name 1) (some 7) ∷ [])) new_provider).queue ≡ []
unfolding run step issue drain drain_queue finish generated lookup put delete
third_starts = refl

run-IsOrderly_example : IsOrderly (
    run any_name
      (three_names ++ (made (name 1) (some 7) ∷ timed_out (name 3) ∷ shut ∷ []))
      new_provider)
run-IsOrderly_example =
    run-IsOrderly any_name
      (three_names ++ (made (name 1) (some 7) ∷ timed_out (name 3) ∷ shut ∷ []))
