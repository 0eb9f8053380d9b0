-- ===== src/Devices/TlvDevice/Invariant.antt =====
-- What every handler of a TLV device keeps, from what its smallest changes keep.
use rethink.Common.{
  ℕ, ◌-◌, ◌≡◌, Bool, true, false, not, ◌&&◌, Option, none, some, List, [], ◌∷◌, arith, split_if,
  split_option, length, All,
}
use rethink.Mqtt.Topic.{Text}
use rethink.Mqtt.Table.{lookup}
use rethink.Wire.Tlv.{Tlv}
use rethink.Wire.Packet.{subarray}
use rethink.Devices.TlvDevice.{
  Attach, Value, Written, written, not_written, FieldDefinition, packet, property, capabilities,
  values, removed_sent, Device, emit, Hooks, base_hooks, full_name, unless_false, definitions_of,
  send, send_payload, read,
}
use rethink.Devices.TlvDevice.Handlers.{
  transformed, written_value, read_callback_of, write_callback_of, publish_key_value, publish_all,
  process_key_value, process_records, take_capabilities, take_values, is_running,
  check_capabilities, check_values, process_tlv, process_push_frame, process_reply, process_private,
  process_data, write_field, write_value, write_property, set_property, Event, caps_tick,
  values_tick, query_tick, write_tick, data_received, property_set, started, interval_set, stopped,
  dropped, discovery_asked, config_set, step, run,
}
use rethink.Devices.TlvDevice.Queries.{
  stop_timers, drop_device, publish_config, set_config, query, query_caps, asked_for_refresh, heard,
  set_query_interval, start, overdue, same_interval, is_tlv_reply, is_priv_data, is_priv_response,
  is_push_frame,
}

-- A predicate that the smallest changes of a device keep, those of its hooks included.
pub record IsKept (hooks : Hooks) (P : Device → Type 0) : Type 0 where
  pub sent : (bytes : List ℕ) (d : Device) → P d → P (emit (packet bytes) d)
  pub published :
      (def : FieldDefinition) (v : Value) (d : Device)
      → P d
      → P (emit (property (full_name def) v) d)
  pub raw : (r : List (ℕ × ℕ)) (d : Device) → P d → P (record d { raw_clip_state = r })
  pub stamp : (now : ℕ) (d : Device) → P d → P (record d { query_last_timestamp = some now })
  pub interval :
      (i : ℕ) (d : Device)
      → P d
      → P (record d { query_timer = some i; query_last_interval = some i })
  pub settling : (b : Bool) (d : Device) → P d → P (record d { write_refresh_timeout = b })
  pub retrying :
      (i : ℕ) (d : Device)
      → d.query_caps_timeout ≡ none
      → P d
      → P (record d { query_values_timeout = some i })
  pub configured : (d : Device) → P d → P (record d { has_config = true })
  pub config_told : (d : Device) → P d → P (publish_config d)
  pub removal_told : (d : Device) → P d → P (emit removed_sent d)
  pub answered : (d : Device) → P d → P (heard d)
  pub first_capabilities :
      (d : Device)
      → is_running d.query_caps_timeout ≡ true
      → P d
      → P (hooks.capability_received (emit capabilities (record d { query_caps_timeout = none })))
  -- The hook does not ask for capabilities once more.
  pub settled :
      (d : Device)
      → let next =
          hooks.capability_received (emit capabilities (record d { query_caps_timeout = none })) in
        next.query_caps_timeout ≡ none
  pub more_values :
      (d : Device)
      → is_running d.query_caps_timeout ≡ false
      → P d
      → P (hooks.values_received (emit values (record d { query_values_timeout = none })))
  pub private_data :
      (cmd buf9 : ℕ) (bytes : List ℕ) (d : Device)
      → P d
      → P (hooks.process_priv_data cmd buf9 bytes d)
  pub private_response :
      (ok : Bool) (buf1 cmd : ℕ) (bytes : List ℕ) (d : Device)
      → P d
      → P (hooks.process_priv_data_cmd_resp ok buf1 cmd bytes d)
  pub read_called :
      (callback : ℕ) (v : Value) (d : Device) → P d → P (hooks.run_read_callback callback v d).0
  pub write_called :
      (callback v : ℕ) (d : Device) → P d → P (hooks.run_write_callback callback v d).0

by_written :
    (P : Device → Type 0) (w : Written) (x : Device) (f : Value → Device)
    → P x
    → ((v : Value) → P (f v))
    → let result : Device = elim w [ not_written ↦ x | written v ↦ f v ] in P result
by_written P not_written x f a b = a
by_written P (written v) x f a b = b v

-- What the hooks of a subclass may be asked to keep.
pub record HooksKeep (hooks : Hooks) (P : Device → Type 0) : Type 0 where
  pub capability_received : (d : Device) → P d → P (hooks.capability_received d)
  pub settled :
      (d : Device)
      → d.query_caps_timeout ≡ none
      → (hooks.capability_received d).query_caps_timeout ≡ none
  pub values_received : (d : Device) → P d → P (hooks.values_received d)
  pub private_data :
      (cmd buf9 : ℕ) (bytes : List ℕ) (d : Device)
      → P d
      → P (hooks.process_priv_data cmd buf9 bytes d)
  pub private_response :
      (ok : Bool) (buf1 cmd : ℕ) (bytes : List ℕ) (d : Device)
      → P d
      → P (hooks.process_priv_data_cmd_resp ok buf1 cmd bytes d)
  pub read_called :
      (callback : ℕ) (v : Value) (d : Device) → P d → P (hooks.run_read_callback callback v d).0
  pub write_called :
      (callback v : ℕ) (d : Device) → P d → P (hooks.run_write_callback callback v d).0

pub base_hooks-HooksKeep :
    (number : Text → ℕ) (P : Device → Type 0) → HooksKeep (base_hooks number) P
unfolding base_hooks
base_hooks-HooksKeep number P = record {
  capability_received = λ d h. h;
  settled = λ d h. h;
  values_received = λ d h. h;
  private_data = λ cmd buf9 bytes d h. h;
  private_response = λ ok buf1 cmd bytes d h. h;
  read_called = λ callback v d h. h;
  write_called = λ callback v d h. h;
}

module _ (hooks : Hooks) (P : Device → Type 0) (kept : IsKept hooks P) where
  query-kept : (now : ℕ) (d : Device) → P d → P (query now d)
  unfolding query send send_payload
  query-kept now d h = kept.stamp now _ (kept.sent _ d h)

  query_caps-kept : (d : Device) → P d → P (query_caps d)
  unfolding query_caps send send_payload
  query_caps-kept d h = kept.sent _ d h

  set_query_interval-kept : (now i : ℕ) (d : Device) → P d → P (set_query_interval now i d)
  unfolding set_query_interval
  set_query_interval-kept now i d h =
      split_option P d.query_timer _ _ (λ e. kept.interval i d h)
        (λ running e.
          split_if P (same_interval d.query_last_interval i) _ _ (λ f. h)
            (λ f. kept.interval i _ (
              split_if P (overdue d.query_last_timestamp now i) _ _ (λ g. query-kept now d h)
                (λ g. h))))

  start-kept : (now : ℕ) (d : Device) → P d → P (start now d)
  unfolding start
  start-kept now d h =
      split_option P d.query_timer _ _ (λ e. set_query_interval-kept now _ d h) (λ running e. h)

  read_callback_of-kept :
      (callback : Option ℕ) (v : Value) (d : Device)
      → P d
      → P (read_callback_of hooks callback v d).0
  read_callback_of-kept none v d h = h
  read_callback_of-kept (some callback) v d h = kept.read_called callback v d h

  write_callback_of-kept :
      (callback : Option ℕ) (v : ℕ) (d : Device) → P d → P (write_callback_of hooks callback v d).0
  write_callback_of-kept none v d h = h
  write_callback_of-kept (some callback) v d h = kept.write_called callback v d h

  publish_key_value-kept :
      (def : FieldDefinition) (v : ℕ) (d : Device) → P d → P (publish_key_value hooks def v d)
  unfolding publish_key_value
  publish_key_value-kept def v d h =
      split_option P (transformed def.read_xform v) _ _ (λ e. h)
        (λ processed e.
          let called = read_callback_of-kept def.read_callback processed d h in
          split_if P
            ((read_callback_of hooks def.read_callback processed d).1 && unless_false def.readable)
            _ _ (λ f. kept.published def processed _ called) (λ f. called))

  publish_all-kept :
      (defs : List FieldDefinition) (v : ℕ) (d : Device) → P d → P (publish_all hooks defs v d)
  unfolding publish_all
  publish_all-kept [] v d h = h
  publish_all-kept (def ∷ defs) v d h = publish_all-kept defs v _ (publish_key_value-kept def v d h)

  process_records-kept : (tlv : List Tlv) (d : Device) → P d → P (process_records hooks tlv d)
  unfolding process_records process_key_value
  process_records-kept [] d h = h
  process_records-kept (el ∷ tlv) d h =
      process_records-kept tlv _
        (publish_all-kept (definitions_of (read el.t d.fields_by_id)) el.v _ (kept.raw _ d h))

  pub process_tlv-kept :
      (now : ℕ) (tlv : List Tlv) (can : Bool) (d : Device)
      → P d
      → P (process_tlv hooks now tlv can d)
  unfolding process_tlv check_values check_capabilities take_capabilities take_values query send
      send_payload
  process_tlv-kept now tlv can d h =
      let seen = process_records hooks tlv d in
      let known = check_capabilities hooks now tlv seen in
      let known_kept : P known =
        split_if P (is_running seen.query_caps_timeout && hooks.is_caps_response tlv) _ _
          (λ e. kept.retrying _ _ (kept.settled seen) (
            kept.stamp now _ (
              kept.sent _ _
                (kept.first_capabilities seen (ground arith) (process_records-kept tlv d h)))))
          (λ e. process_records-kept tlv d h) in
      split_if P (can && not (is_running known.query_caps_timeout) && hooks.is_values_response tlv)
        _ _ (λ e. kept.more_values known (ground arith) known_kept) (λ e. known_kept)

  process_push_frame-kept :
      (now : ℕ) (buf : List ℕ) (d : Device) → P d → P (process_push_frame hooks now buf d).0
  unfolding process_push_frame
  process_push_frame-kept now buf d h =
      let Q : Device × Bool → Type 0 = λ r. P r.0 in
      split_if Q (is_push_frame buf) _ _
        (λ e.
          split_option Q (hooks.decode_push_data (subarray buf 8 (length buf - 2))) _ _ (λ f. h)
            (λ tlv f.
              let done =
                process_tlv-kept now tlv (hooks.is_complete_push_snapshot tlv) _
                  (kept.answered d h) in
              split_if P (hooks.is_complete_push_snapshot tlv) _ _ (λ g. kept.settling false _ done)
                (λ g. done)))
        (λ e. h)

  pub process_private-kept : (buf : List ℕ) (d : Device) → P d → P (process_private hooks buf d)
  unfolding process_private
  process_private-kept buf d h =
      let after = split_if P (is_priv_data buf) _ _ (λ e. kept.private_data _ _ _ d h) (λ e. h) in
      split_if P (is_priv_response buf) _ _ (λ e. kept.private_response _ _ _ _ _ after)
        (λ e. after)

  pub process_data-kept :
      (now : ℕ) (buf : List ℕ) (d : Device) → P d → P (process_data hooks now buf d)
  unfolding process_data process_reply
  process_data-kept now buf d h =
      let pushed = process_push_frame-kept now buf d h in
      split_if P (process_push_frame hooks now buf d).1 _ _ (λ e. pushed)
        (λ e. process_private-kept buf _ (
          split_if P (is_tlv_reply buf) _ _
            (λ f. process_tlv-kept now _ true _ (kept.answered _ pushed)) (λ f. pushed)))

  write_field-kept :
      (id value : ℕ) (tags : Attach) (d : Device) → P d → P (write_field hooks id value tags d)
  unfolding write_field send_payload
  write_field-kept id value tags d h = kept.settling true _ (kept.sent _ _ (kept.raw _ d h))

  write_value-kept :
      (def : FieldDefinition) (v : ℕ) (d : Device) → P d → P (write_value hooks def v d)
  unfolding write_value
  write_value-kept def v d h =
      let called = write_callback_of-kept def.write_callback v d h in
      split_option P def.id _ _ (λ e. called)
        (λ id e.
          split_if P (write_callback_of hooks def.write_callback v d).1 _ _
            (λ f. write_field-kept id v def.write_attach _ called) (λ f. called))

  write_property-kept :
      (def : FieldDefinition) (text : Text) (d : Device) → P d → P (write_property hooks def text d)
  unfolding write_property
  write_property-kept def text d h =
      by_written P (written_value def.write_xform text) _ _ h (λ v. write_value-kept def _ d h)

  set_property-kept : (prop text : Text) (d : Device) → P d → P (set_property hooks prop text d)
  unfolding set_property
  set_property-kept prop text d h =
      split_option P (lookup prop d.fields_by_ha) _ _ (λ e. h)
        (λ def e.
          split_if P (unless_false def.writable) _ _ (λ f. write_property-kept def text d h)
            (λ f. h))

  set_config-kept : (has_removed : Bool) (d : Device) → P d → P (set_config has_removed d)
  unfolding set_config
  set_config-kept has_removed d h =
      let configured = kept.configured d h in
      kept.config_told _
        (split_if P has_removed _ _ (λ e. kept.removal_told _ configured) (λ e. configured))

  -- Stopping and dropping are asked about only where the events may have them.
  module _ (allowed : Event → Bool) (asked : (d : Device) → P d → P (asked_for_refresh d))
      (stops : (d : Device) → allowed stopped ≡ true → P d → P (stop_timers d))
      (drops : (d : Device) → allowed dropped ≡ true → P d → P (drop_device d)) where
    pub step-kept :
        (event : Event) (d : Device) → allowed event ≡ true → P d → P (step hooks event d)
    unfolding step
    step-kept (caps_tick now) d ok h =
        split_if P (is_running d.query_caps_timeout) _ _ (λ e. query_caps-kept d h) (λ e. h)
    step-kept (values_tick now) d ok h =
        split_if P (is_running d.query_values_timeout) _ _ (λ e. query-kept now d h) (λ e. h)
    step-kept (query_tick now) d ok h =
        split_if P (is_running d.query_timer) _ _ (λ e. query-kept now _ (asked d h)) (λ e. h)
    step-kept (write_tick now) d ok h =
        split_if P d.write_refresh_timeout _ _ (λ e. query-kept now _ (kept.settling false d h))
          (λ e. h)
    step-kept (data_received now buf) d ok h = process_data-kept now buf d h
    step-kept (property_set prop text) d ok h = set_property-kept prop text d h
    step-kept (started now) d ok h = start-kept now d h
    step-kept (interval_set now i) d ok h = set_query_interval-kept now i d h
    step-kept stopped d ok h = stops d ok h
    step-kept dropped d ok h = drops d ok h
    step-kept discovery_asked d ok h = kept.config_told d h
    step-kept (config_set has_removed) d ok h = set_config-kept has_removed d h

    pub run-kept :
        (events : List Event) (d : Device)
        → All (λ event. allowed event ≡ true) events
        → P d
        → P (run hooks events d)
    unfolding run
    run-kept [] d ok h = h
    run-kept (event ∷ events) d (ok, oks) h = run-kept events _ oks (step-kept event d ok h)
