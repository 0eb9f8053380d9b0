-- ===== src/Devices/TlvDevice/Health.antt =====
-- When a TLV device counts as silent, and what Home Assistant was told of it.
use mathlib.Core.Path.{subst}
use rethink.Common.{
  ℕ, ◌+◌, ◌-◌, ◌≤◌, ◌≡◌, refl, sym, ◌∙◌, inl, inr, Bool, true, false, not, ◌&&◌, ◌||◌, ap, All,
  List, [], ◌∷◌, ◌++◌, map, arith, ltb, leb, ◌==◌, if◌then◌else◌, Bool-cases, split_if, length,
}
use rethink.Mqtt.Topic.{Text, text_eq}
use rethink.Mqtt.Topic.Matching.{text_eq→eq}
use rethink.Wire.Tlv
use rethink.Wire.Packet.{subarray}
use rethink.Devices.TlvDevice.{
  Value, string_value, number_value, FieldDefinition, TlvOutput, packet, property, capabilities,
  values, config_sent, removed_sent, Device, Hooks, full_name, send, send_payload,
}
use rethink.Devices.TlvDevice.Handlers.{
  process_push_frame, process_reply, process_data, Event, dropped, query_tick, is_running, step,
  run,
}
use rethink.Devices.TlvDevice.Queries.{
  query, stop_timers, publish_config, asked_for_refresh, heard, is_tlv_reply, is_push_frame,
  availability, offline,
}
use rethink.Devices.TlvDevice.Invariant.{
  IsKept, HooksKeep, process_tlv-kept, process_private-kept, run-kept,
}

abbrev pub says_offline : Value → Bool
says_offline (string_value text) = text_eq text offline
says_offline (number_value n) = false

-- Whether the last word on the device's availability was that it is offline.
unfoldable pub announced_offline : List TlvOutput → Bool
announced_offline [] = false
announced_offline (property prop value ∷ out) =
    if text_eq prop availability then says_offline value else announced_offline out
announced_offline (packet bytes ∷ out) = announced_offline out
announced_offline (capabilities ∷ out) = announced_offline out
announced_offline (values ∷ out) = announced_offline out
announced_offline (config_sent ∷ out) = announced_offline out
announced_offline (removed_sent ∷ out) = announced_offline out

-- Silent means three questions or more without an answer, and Home Assistant knows.
abbrev pub IsHealthy : Device → Type 0
IsHealthy d = (d.silent ≡ leb 3 d.unanswered_queries) × (announced_offline d.out ≡ d.silent)

-- Silent means three questions or more without an answer, and only of a silent device Home Assistant
-- was told last that it is offline.
abbrev pub IsTruthful : Device → Type 0
IsTruthful d =
    (d.silent ≡ leb 3 d.unanswered_queries) × (announced_offline d.out && not d.silent ≡ false)

-- Every event but the end of the device.
abbrev pub is_not_drop : Event → Bool
is_not_drop dropped = false
is_not_drop event = true

-- Just heard of.
abbrev pub IsHeard : Device → Type 0
IsHeard d = (d.unanswered_queries ≡ 0) × (d.silent ≡ false) × (announced_offline d.out ≡ false)

-- The name of a field has a dash in it, which "availability" has not.
abbrev pub has_dash : Text → Bool
has_dash [] = false
has_dash (c ∷ text) = c == 45 || has_dash text

has_dash-append : (comp name : Text) → has_dash (comp ++ (45 ∷ name)) ≡ true
has_dash-append [] name = refl
has_dash-append (c ∷ comp) name = let e = has_dash-append comp name in ground arith

full_name-availability : (def : FieldDefinition) → text_eq (full_name def) availability ≡ false
full_name-availability def = elim (Bool-cases (text_eq (full_name def) availability)) [
  | inl e ↦
      let same : full_name def ≡ availability = text_eq→eq (full_name def) availability e in
      let dash : has_dash availability ≡ true =
        subst (λ text. has_dash text ≡ true) same (has_dash-append def.comp def.name) in
      absurd (cc)
  | inr e ↦ e
]

announced_offline-field :
    (def : FieldDefinition) (v : Value) (out : List TlvOutput)
    → announced_offline (property (full_name def) v ∷ out) ≡ announced_offline out
unfolding announced_offline
announced_offline-field def v out = rw (full_name-availability def) refl

asked_for_refresh-IsHealthy : (d : Device) → IsHealthy d → IsHealthy (asked_for_refresh d)
unfolding asked_for_refresh announced_offline
asked_for_refresh-IsHealthy d (quiet, told) =
    split_if IsHealthy (ltb (d.unanswered_queries + 1) 3 || d.silent) _ _
      (λ e. (ground arith, told)) (λ e. (ground arith, refl))

asked_for_refresh-IsTruthful : (d : Device) → IsTruthful d → IsTruthful (asked_for_refresh d)
unfolding asked_for_refresh announced_offline
asked_for_refresh-IsTruthful d (quiet, told) =
    split_if IsTruthful (ltb (d.unanswered_queries + 1) 3 || d.silent) _ _
      (λ e. (ground arith, told)) (λ e. (ground arith, refl))

truthful-IsHeard : (d : Device) → IsTruthful d → IsHeard (heard d)
unfolding heard announced_offline
truthful-IsHeard d (quiet, told) =
    split_if IsHeard (not d.silent) _ _ (λ e. (refl, ground arith, ground arith))
      (λ e. (refl, refl, refl))

heard-IsHeard : (d : Device) → IsHealthy d → IsHeard (heard d)
unfolding heard announced_offline
heard-IsHeard d (quiet, told) =
    split_if IsHeard (not d.silent) _ _ (λ e. (refl, ground arith, ground arith))
      (λ e. (refl, refl, refl))

IsHeard→IsTruthful : (d : Device) → IsHeard d → IsTruthful d
IsHeard→IsTruthful d (zero_asked, quiet, told) = (rw (zero_asked, quiet) refl, rw told refl)

publish_config-told :
    (d : Device)
    → (announced_offline (publish_config d).out && announced_offline d.out
        ≡ announced_offline (publish_config d).out)
      × ((publish_config d).silent ≡ d.silent)
      × ((publish_config d).unanswered_queries ≡ d.unanswered_queries)
unfolding publish_config announced_offline
publish_config-told d = elim (Bool-cases d.has_config) [
  | inl e ↦ rw e (refl, refl, refl)
  | inr e ↦ rw e (ground arith, refl, refl)
]

publish_config-IsTruthful : (d : Device) → IsTruthful d → IsTruthful (publish_config d)
publish_config-IsTruthful d (quiet, told) =
    let (less, same, count) = publish_config-told d in
    (same ∙ quiet ∙ ap (leb 3) (sym count), ground (arith, less, same, told))

publish_config-IsHeard : (d : Device) → IsHeard d → IsHeard (publish_config d)
publish_config-IsHeard d (none_asked, quiet, told) =
    let (less, same, count) = publish_config-told d in
    (count ∙ none_asked, same ∙ quiet, ground (arith, less, told))

IsHeard→IsHealthy : (d : Device) → IsHeard d → IsHealthy d
IsHeard→IsHealthy d (zero_asked, quiet, told) = (rw (zero_asked, quiet) refl, rw (told, quiet) refl)

heard_again : (d : Device) → IsHeard d → IsHeard (heard d)
heard_again d h = heard-IsHeard d (IsHeard→IsHealthy d h)

module _ (hooks : Hooks) where
  IsTruthful-IsKept : HooksKeep hooks IsTruthful → IsKept hooks IsTruthful
  unfolding announced_offline
  IsTruthful-IsKept keep = record {
    sent = λ bytes d h. h;
    published = λ def v d (quiet, told). (quiet, rw (announced_offline-field def v d.out) told);
    raw = λ r d h. h;
    stamp = λ now d h. h;
    interval = λ i d h. h;
    settling = λ b d h. h;
    retrying = λ i d e h. h;
    configured = λ d h. h;
    config_told = publish_config-IsTruthful;
    removal_told = λ d h. h;
    answered = λ d h. IsHeard→IsTruthful (heard d) (truthful-IsHeard d h);
    first_capabilities = λ d e h. keep.capability_received _ h;
    settled = λ d. keep.settled _ refl;
    more_values = λ d e h. keep.values_received _ h;
    private_data = keep.private_data;
    private_response = keep.private_response;
    read_called = keep.read_called;
    write_called = keep.write_called;
  }

  IsHeard-IsKept : HooksKeep hooks IsHeard → IsKept hooks IsHeard
  unfolding announced_offline
  IsHeard-IsKept keep = record {
    sent = λ bytes d h. h;
    published = λ def v d (none_asked, quiet, told).
        (none_asked, quiet, announced_offline-field def v d.out ∙ told);
    raw = λ r d h. h;
    stamp = λ now d h. h;
    interval = λ i d h. h;
    settling = λ b d h. h;
    retrying = λ i d e h. h;
    configured = λ d h. h;
    config_told = publish_config-IsHeard;
    removal_told = λ d h. h;
    answered = heard_again;
    first_capabilities = λ d e h. keep.capability_received _ h;
    settled = λ d. keep.settled _ refl;
    more_values = λ d e h. keep.values_received _ h;
    private_data = keep.private_data;
    private_response = keep.private_response;
    read_called = keep.read_called;
    write_called = keep.write_called;
  }

-- After any events but its end by `drop`, with hooks that keep this, publications of its discovery
-- record included: if a device started so, it is silent exactly when three or more refresh queries in
-- a row went unanswered, and Home Assistant was not told last that it is offline unless it is silent.
pub run-IsTruthful :
    (hooks : Hooks) (events : List Event) (d : Device)
    → HooksKeep hooks IsTruthful
    → All (λ event. is_not_drop event ≡ true) events
    → IsTruthful d
    → IsTruthful (run hooks events d)
unfolding stop_timers
run-IsTruthful hooks events d keep stays h =
    run-kept hooks IsTruthful (IsTruthful-IsKept hooks keep) is_not_drop
      asked_for_refresh-IsTruthful (λ d e h. h) (λ d e h. cc) events d stays h

-- A TLV reply ends a silence.
process_data-IsHeard :
    (hooks : Hooks) (now : ℕ) (buf : List ℕ) (d : Device)
    → HooksKeep hooks IsHeard
    → IsHealthy d
    → is_push_frame buf ≡ false
    → is_tlv_reply buf ≡ true
    → IsHeard (process_data hooks now buf d)
unfolding process_data process_push_frame process_reply
process_data-IsHeard hooks now buf d keep h no_push reply =
    let kept = IsHeard-IsKept hooks keep in
    rw (no_push, reply)
      (process_private-kept hooks IsHeard kept buf _ (
        process_tlv-kept hooks IsHeard kept now (Tlv.parse (subarray buf 11 (length buf - 2))) true
          _ (heard-IsHeard d h)))

-- A run of the refresh timer, at the given times.
abbrev pub refreshes : List ℕ → List Event
refreshes times = map query_tick times

asked_for_refresh-count :
    (d : Device) → (asked_for_refresh d).unanswered_queries ≡ d.unanswered_queries + 1
unfolding asked_for_refresh
asked_for_refresh-count d =
    split_if (λ (r : Device). r.unanswered_queries ≡ d.unanswered_queries + 1)
      (ltb (d.unanswered_queries + 1) 3 || d.silent) _ _ (λ e. refl) (λ e. refl)

asked_for_refresh-timer : (d : Device) → (asked_for_refresh d).query_timer ≡ d.query_timer
unfolding asked_for_refresh
asked_for_refresh-timer d =
    split_if (λ (r : Device). r.query_timer ≡ d.query_timer)
      (ltb (d.unanswered_queries + 1) 3 || d.silent) _ _ (λ e. refl) (λ e. refl)

step-query_tick :
    (hooks : Hooks) (now : ℕ) (d : Device)
    → is_running d.query_timer ≡ true
    → step hooks (query_tick now) d ≡ query now (asked_for_refresh d)
unfolding step
step-query_tick hooks now d on = rw on refl

query-IsHealthy : (now : ℕ) (d : Device) → IsHealthy d → IsHealthy (query now d)
unfolding query send send_payload announced_offline
query-IsHealthy now d h = h

query_same :
    (now : ℕ) (d : Device)
    → ((query now d).query_timer ≡ d.query_timer)
      × ((query now d).unanswered_queries ≡ d.unanswered_queries)
unfolding query send send_payload
query_same now d = (refl, refl)

refreshes_lem :
    (hooks : Hooks) (times : List ℕ) (d : Device)
    → is_running d.query_timer ≡ true
    → IsHealthy d
    → ((run hooks (refreshes times) d).unanswered_queries ≡ d.unanswered_queries + length times)
      × IsHealthy (run hooks (refreshes times) d)
unfolding run
refreshes_lem hooks [] d on h = (omega arith, h)
refreshes_lem hooks (now ∷ times) d on h =
    let next = query now (asked_for_refresh d) in
    let (timer, asked) = query_same now (asked_for_refresh d) in
    let still : is_running next.query_timer ≡ true = rw (timer, asked_for_refresh-timer d) on in
    let healthy = query-IsHealthy now _ (asked_for_refresh-IsHealthy d h) in
    let (count, after) = refreshes_lem hooks times next still healthy in
    subst
      (λ (r : Device).
        ((run hooks (refreshes times) r).unanswered_queries
          ≡ d.unanswered_queries + length (now ∷ times))
        × IsHealthy (run hooks (refreshes times) r))
      (sym (step-query_tick hooks now d on))
      (omega (arith, count, asked, asked_for_refresh-count d), after)

-- When the refresh timer of a healthy device runs three times or more and nothing is received in
-- between, the device is silent and Home Assistant was told that it is offline. A TLV reply after that,
-- with hooks that keep this, ends it: no question is open, the device is not silent, and Home Assistant
-- was told so.
pub refreshes-offline :
    (hooks : Hooks) (times : List ℕ) (now : ℕ) (buf : List ℕ) (d : Device)
    → HooksKeep hooks IsHeard
    → is_running d.query_timer ≡ true
    → IsHealthy d
    → 3 ≤ length times
    → is_push_frame buf ≡ false
    → is_tlv_reply buf ≡ true
    → ((run hooks (refreshes times) d).silent ≡ true)
      × (announced_offline (run hooks (refreshes times) d).out ≡ true)
      × IsHeard (process_data hooks now buf (run hooks (refreshes times) d))
refreshes-offline hooks times now buf d keep on h enough no_push reply =
    let (count, (quiet, told)) = refreshes_lem hooks times d on h in
    let silent : (run hooks (refreshes times) d).silent ≡ true = ground arith in
    (
      silent,
      told ∙ silent,
      process_data-IsHeard hooks now buf (run hooks (refreshes times) d) keep (quiet, told) no_push
          reply,
    )
