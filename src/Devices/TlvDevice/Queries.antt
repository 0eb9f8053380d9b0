-- ===== src/Devices/TlvDevice/Queries.antt =====
-- The queries and timers of a TLV device, and the frames that it recognises.
use rethink.Common.{
  ℕ, ◌+◌, ◌-◌, ◌*◌, Bool, true, false, not, ◌&&◌, ◌||◌, Option, none, some, List, [], ◌∷◌, ltb, leb,
  ◌==◌, if◌then◌else◌, length, get_elem?, drop,
}
use rethink.Mqtt.Topic.{Text}
use rethink.Wire.Crc16.{crc16}
use rethink.Devices.TlvDevice.{
  string_value, property, config_sent, removed_sent, Device, emit, unanswered_queries_before_silent,
  send,
}

-- "availability", "offline", "online".
abbrev pub availability : Text
availability = 97 ∷ 118 ∷ 97 ∷ 105 ∷ 108 ∷ 97 ∷ 98 ∷ 105 ∷ 108 ∷ 105 ∷ 116 ∷ 121 ∷ []

abbrev pub offline : Text
offline = 111 ∷ 102 ∷ 102 ∷ 108 ∷ 105 ∷ 110 ∷ 101 ∷ []

abbrev pub online : Text
online = 111 ∷ 110 ∷ 108 ∷ 105 ∷ 110 ∷ 101 ∷ []

-- `queryCaps` and `query`; `now` is what `performance.now()` reads.
unfoldable pub query_caps : Device → Device
query_caps device =
    send (1 ∷ 1 ∷ 2 ∷ 2 ∷ 1 ∷ []) (record { t = 0x1f5; l = none; v = 1 } ∷ []) device

unfoldable pub query : ℕ → Device → Device
query now device =
    record (send (1 ∷ 1 ∷ 2 ∷ 2 ∷ 1 ∷ []) (record { t = 0x1f5; l = none; v = 2 } ∷ []) device) {
      query_last_timestamp = some now;
    }

-- The constructor: capabilities are asked for at once, and again until they arrive.
unfoldable pub created : Device
unfolding query_caps
created =
    record (query_caps (record {
      fields_by_id = [];
      fields_by_ha = [];
      raw_clip_state = [];
      query_timer = none;
      query_last_timestamp = none;
      query_last_interval = none;
      write_refresh_timeout = false;
      query_caps_timeout = none;
      query_values_timeout = none;
      unanswered_queries = 0;
      silent = false;
      has_config = false;
      out = [];
    })) { query_caps_timeout = some (15 * 1000) }

-- `askedForRefresh`: at the third question in a row that nothing answered, the device goes offline.
unfoldable pub asked_for_refresh : Device → Device
asked_for_refresh device =
    let asked = record device { unanswered_queries = device.unanswered_queries + 1 } in
    if ltb asked.unanswered_queries unanswered_queries_before_silent || device.silent
    then asked
    else emit (property availability (string_value offline)) (record asked { silent = true })

-- `heard`.
unfoldable pub heard : Device → Device
heard device =
    let answered = record device { unanswered_queries = 0 } in
    if not device.silent
    then answered
    else emit (property availability (string_value online)) (record answered { silent = false })

abbrev pub same_interval : Option ℕ → ℕ → Bool
same_interval none interval = false
same_interval (some last) interval = last == interval

abbrev pub overdue : Option ℕ → ℕ → ℕ → Bool
overdue none now interval = false
overdue (some last) now interval = leb interval (now - last)

-- `setQueryInterval`; the new timer replaces the one that runs.
unfoldable pub set_query_interval : ℕ → ℕ → Device → Device
set_query_interval now interval device = elim device.query_timer [
  | none ↦ record device { query_timer = some interval; query_last_interval = some interval }
  | some running ↦
      let asked =
        if overdue device.query_last_timestamp now interval then query now device else device in
      if same_interval device.query_last_interval interval
      then device
      else record asked { query_timer = some interval; query_last_interval = some interval }
]

-- `start`, with the interval that `setQueryInterval` defaults to.
unfoldable pub start : ℕ → Device → Device
start now device = elim device.query_timer [
  | none ↦ set_query_interval now (15 * 60 * 1000) device
  | some running ↦ device
]

-- `stopTimers`.
unfoldable pub stop_timers : Device → Device
stop_timers device = record device {
  write_refresh_timeout = false;
  query_timer = none;
  query_caps_timeout = none;
  query_values_timeout = none;
}

-- `drop`
unfoldable pub drop_device : Device → Device
drop_device device = emit (property availability (string_value offline)) (stop_timers device)

-- `publishConfig` (cloud/devices/base.ts), which every discovery by Home Assistant calls too.
unfoldable pub publish_config : Device → Device
publish_config device =
    if device.has_config
    then emit config_sent (emit (property availability (string_value online)) device)
    else device

-- `setConfig` (cloud/devices/base.ts), told whether there are components to remove.
unfoldable pub set_config : Bool → Device → Device
set_config has_removed device =
    let configured = record device { has_config = true } in
    publish_config (if has_removed then emit removed_sent configured else configured)

-- `buf[i] === n`; an index past the end is `undefined`.
abbrev pub byte_is : List ℕ → ℕ → ℕ → Bool
byte_is buf i n = elim (get_elem? buf i) [ none ↦ false | some b ↦ b == n ]

abbrev pub is_full_length : List ℕ → Bool
is_full_length buf = leb 13 (length buf) && byte_is buf 10 (length buf - 13)

abbrev pub is_reply_kind : List ℕ → Bool
is_reply_kind buf = byte_is buf 6 0x87 || byte_is buf 6 0xa7

abbrev pub is_uart_head : List ℕ → Bool
is_uart_head buf =
    byte_is buf 2 0x04 && byte_is buf 3 0x00 && byte_is buf 4 0x00 && byte_is buf 5 0x00

-- The conditions of `processData`.
unfoldable pub is_tlv_reply : List ℕ → Bool
is_tlv_reply buf =
    is_uart_head buf
    && is_reply_kind buf
    && byte_is buf 7 0x02
    && (byte_is buf 8 0x01 || byte_is buf 8 0x04)
    && is_full_length buf

unfoldable pub is_priv_data : List ℕ → Bool
is_priv_data buf =
    byte_is buf 1 0xff
    && is_uart_head buf
    && is_reply_kind buf
    && byte_is buf 7 0xfd
    && byte_is buf 8 0x03
    && is_full_length buf

unfoldable pub is_priv_response : List ℕ → Bool
is_priv_response buf =
    (byte_is buf 0 0x02 || byte_is buf 0 0x03)
    && is_uart_head buf
    && is_reply_kind buf
    && byte_is buf 7 0xfd
    && byte_is buf 8 0x10
    && byte_is buf 9 0x00
    && byte_is buf 10 0x05
    && byte_is buf 11 0xfe
    && leb 13 (length buf)

-- The condition of `processPushFrame`, negated.
unfoldable pub is_push_frame : List ℕ → Bool
is_push_frame buf =
    leb 12 (length buf)
    && is_uart_head buf
    && byte_is buf 6 0xa8
    && (byte_is buf 7 0x66 || byte_is buf 7 0x67)
    && crc16 (drop 2 buf) == 0
