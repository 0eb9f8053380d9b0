-- ===== src/Devices/TlvDevice/Startup.antt =====
-- The order in which a TLV device learns what an appliance is and what it says.
use rethink.Common.{
  ℕ, suc, ◌+◌, ◌≤◌, ◌≡◌, refl, Bool, true, false, not, ◌||◌, Option, none, some, List, [], ◌∷◌,
  arith, ltb, ◌==◌, split_if, All,
}
use rethink.Devices.TlvDevice.{
  TlvOutput, packet, property, capabilities, values, config_sent, removed_sent, Device, Hooks,
}
use rethink.Devices.TlvDevice.Handlers.{Event, stopped, dropped, is_running, run}
use rethink.Devices.TlvDevice.Queries.{asked_for_refresh, heard, publish_config}
use rethink.Devices.TlvDevice.Invariant.{IsKept, HooksKeep, run-kept}

-- How often `capabilityReceived` was called, and whether `valuesReceived` ever was before it.
unfoldable pub capabilities_count : List TlvOutput → ℕ
capabilities_count [] = 0
capabilities_count (capabilities ∷ out) = suc (capabilities_count out)
capabilities_count (property prop value ∷ out) = capabilities_count out
capabilities_count (packet bytes ∷ out) = capabilities_count out
capabilities_count (values ∷ out) = capabilities_count out
capabilities_count (config_sent ∷ out) = capabilities_count out
capabilities_count (removed_sent ∷ out) = capabilities_count out

unfoldable pub values_too_early : List TlvOutput → Bool
values_too_early [] = false
values_too_early (values ∷ out) = capabilities_count out == 0 || values_too_early out
values_too_early (capabilities ∷ out) = values_too_early out
values_too_early (property prop value ∷ out) = values_too_early out
values_too_early (packet bytes ∷ out) = values_too_early out
values_too_early (config_sent ∷ out) = values_too_early out
values_too_early (removed_sent ∷ out) = values_too_early out

abbrev pub asking : Option ℕ → ℕ
asking none = 0
asking (some interval) = 1

-- Either capabilities are still asked for and were never received, or they were received once; values
-- are retried only after that, and were never taken before.
abbrev pub IsInOrder : Device → Type 0
IsInOrder d =
    (capabilities_count d.out + asking d.query_caps_timeout ≡ 1)
    × (asking d.query_caps_timeout + asking d.query_values_timeout ≤ 1)
    × (values_too_early d.out ≡ false)

asked_for_refresh-IsInOrder : (d : Device) → IsInOrder d → IsInOrder (asked_for_refresh d)
unfolding asked_for_refresh capabilities_count values_too_early
asked_for_refresh-IsInOrder d h =
    split_if IsInOrder (ltb (d.unanswered_queries + 1) 3 || d.silent) _ _ (λ e. h) (λ e. h)

heard-IsInOrder : (d : Device) → IsInOrder d → IsInOrder (heard d)
unfolding heard capabilities_count values_too_early
heard-IsInOrder d h = split_if IsInOrder (not d.silent) _ _ (λ e. h) (λ e. h)

publish_config-IsInOrder : (d : Device) → IsInOrder d → IsInOrder (publish_config d)
unfolding publish_config capabilities_count values_too_early
publish_config-IsInOrder d h = split_if IsInOrder d.has_config _ _ (λ e. h) (λ e. h)

-- Every event but those that stop the timers of the device.
abbrev pub is_going_on : Event → Bool
is_going_on stopped = false
is_going_on dropped = false
is_going_on event = true

asking-running : (timer : Option ℕ) → is_running timer ≡ true → asking timer ≡ 1
asking-running none h = cc
asking-running (some interval) h = refl

asking-stopped : (timer : Option ℕ) → is_running timer ≡ false → asking timer ≡ 0
asking-stopped none h = refl
asking-stopped (some interval) h = cc

IsInOrder-IsKept : (hooks : Hooks) → HooksKeep hooks IsInOrder → IsKept hooks IsInOrder
unfolding capabilities_count values_too_early
IsInOrder-IsKept hooks keep = record {
  sent = λ bytes d h. h;
  published = λ def v d h. h;
  raw = λ r d h. h;
  stamp = λ now d h. h;
  interval = λ i d h. h;
  settling = λ b d h. h;
  retrying = λ i d e (once, one, early).
      let off : asking d.query_caps_timeout ≡ 0 = rw e refl in (once, omega (arith, off), early);
  configured = λ d h. h;
  config_told = publish_config-IsInOrder;
  removal_told = λ d h. h;
  answered = heard-IsInOrder;
  first_capabilities = λ d e (once, one, early).
      let on = asking-running d.query_caps_timeout e in
      keep.capability_received _ (omega (arith, once, on), omega (arith, one, on), early);
  settled = λ d. keep.settled _ refl;
  more_values = λ d e (once, one, early).
      let off = asking-stopped d.query_caps_timeout e in
      keep.values_received _ (once, omega (arith, off), ground (arith, once, off, early));
  private_data = keep.private_data;
  private_response = keep.private_response;
  read_called = keep.read_called;
  write_called = keep.write_called;
}

-- After any events that do not stop its timers, as `stopTimers` and `drop` do, with hooks that keep
-- this, publications of its discovery record included: if a device started so, capabilities were received exactly once or are still
-- asked for, initial values are not retried while they are, and values were never received before
-- capabilities.
pub run-IsInOrder :
    (hooks : Hooks) (events : List Event) (d : Device)
    → HooksKeep hooks IsInOrder
    → All (λ event. is_going_on event ≡ true) events
    → IsInOrder d
    → IsInOrder (run hooks events d)
run-IsInOrder hooks events d keep going h =
    run-kept hooks IsInOrder (IsInOrder-IsKept hooks keep) is_going_on asked_for_refresh-IsInOrder
      (λ d e h. cc) (λ d e h. cc) events d going h
