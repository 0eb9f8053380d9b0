-- ===== src/Mqtt/Broker/Keeping.antt =====
-- The retained messages: their bounds, and which message a topic has.
use rethink.Common.{
  ℕ, ◌+◌, ◌-◌, ◌≤◌, ◌<◌, ◌≡◌, refl, ap, inl, inr, Bool, true, false, not, ◌&&◌, ◌||◌, none, some,
  arith, ltb, leb, ◌==◌, if◌then◌else◌, Bool-cases, Option-cases, length,
}
use rethink.Mqtt.Topic.{Text, text_eq}
use rethink.Mqtt.Table.{
  lookup, put, delete, IsTable, put-IsTable, delete-IsTable, lookup-put, lookup-delete, weight,
  old_weight, weight-put, weight-delete, added, length-put, length-delete_le, AllValues,
  AllValues-put, AllValues-delete,
}
use rethink.Mqtt.Broker.{
  Packet, Retained, retained_size, keep_retained, max_retained_topics, max_retained_bytes,
}

abbrev pub HasPayload : Packet → Type 0
HasPayload p = 0 < length p.payload

module _ (byte_length : Text → ℕ) where
  abbrev pub size_of : Text → Packet → ℕ
  size_of topic packet = retained_size byte_length packet

  -- The counter is the sum of the sizes, both bounds hold, and no kept message is empty.
  abbrev pub IsKept : Retained → Type 0
  IsKept kept =
      IsTable kept.map
      × (kept.bytes ≡ weight size_of kept.map)
      × (kept.bytes ≤ max_retained_bytes)
      × (length kept.map ≤ max_retained_topics)
      × AllValues HasPayload kept.map

  delete-IsKept :
      (topic : Text) (kept : Retained)
      → IsKept kept
      → IsKept (record {
        map = delete topic kept.map;
        bytes = kept.bytes - old_weight size_of topic (lookup topic kept.map);
      })
  delete-IsKept topic kept (table, total, small, few, full) = (
    delete-IsTable topic kept.map table,
    omega (arith, weight-delete size_of topic kept.map, total),
    omega (arith, small),
    omega (arith, length-delete_le topic kept.map, few),
    AllValues-delete HasPayload topic kept.map full,
  )

  put-IsKept :
      (packet : Packet) (kept : Retained) (old : ℕ)
      → IsKept kept
      → old_weight size_of packet.topic (lookup packet.topic kept.map) ≡ old
      → length kept.map + added (lookup packet.topic kept.map) ≤ max_retained_topics
      → kept.bytes - old + retained_size byte_length packet ≤ max_retained_bytes
      → HasPayload packet
      → IsKept (record {
        map = put packet.topic packet kept.map;
        bytes = kept.bytes + retained_size byte_length packet - old;
      })
  put-IsKept packet kept old (table, total, small, few, full) replaced room fits nonempty = (
    put-IsTable packet.topic packet kept.map table,
    omega (arith, weight-put size_of packet.topic packet kept.map, total, replaced),
    omega (arith, fits),
    omega (arith, length-put packet.topic packet kept.map, room),
    AllValues-put HasPayload packet.topic packet kept.map full nonempty,
  )

  by_branch :
      (x y z : Retained) (a b c : Bool)
      → IsKept x
      → IsKept y
      → (b ≡ false → c ≡ false → IsKept z)
      → IsKept (if a then x else if b then y else if c then x else z)
  by_branch x y z true b c p q r = p
  by_branch x y z false true c p q r = q
  by_branch x y z false false true p q r = p
  by_branch x y z false false false p q r = r refl refl

  -- Keeping or dropping a message leaves the byte counter the sum of the sizes kept, at most 8 MiB in
  -- at most 1024 topics, no topic twice and no kept message empty.
  pub keep_retained-IsKept :
      (packet : Packet) (kept : Retained)
      → IsKept kept
      → IsKept (keep_retained byte_length packet kept)
  unfolding keep_retained
  keep_retained-IsKept packet kept h = elim (Option-cases (lookup packet.topic kept.map)) [
    | inl e ↦
        let dropped : IsKept
            (record { map = delete packet.topic kept.map; bytes = kept.bytes - 0 }) =
          rw (← ap (old_weight size_of packet.topic) e) (delete-IsKept packet.topic kept h) in
        rw e (
          by_branch _ _ _ (not packet.retain) (length packet.payload == 0)
            ((true && leb max_retained_topics (length kept.map))
              || ltb max_retained_bytes (kept.bytes - 0 + retained_size byte_length packet))
            h dropped
            (λ nonempty room.
              put-IsKept packet kept 0 h (rw e refl) (rw e (ground arith)) (ground arith)
                (ground arith)))
    | inr (p, e) ↦
        let old = retained_size byte_length p in
        let dropped : IsKept
            (record { map = delete packet.topic kept.map; bytes = kept.bytes - old }) =
          rw (← ap (old_weight size_of packet.topic) e) (delete-IsKept packet.topic kept h) in
        rw e (
          by_branch _ _ _ (not packet.retain) (length packet.payload == 0)
            ((false && leb max_retained_topics (length kept.map))
              || ltb max_retained_bytes (kept.bytes - old + retained_size byte_length packet))
            h dropped
            (λ nonempty room.
              put-IsKept packet kept old h (rw e refl) (rw e (omega (arith, h.3))) (ground arith)
                (ground arith)))
  ]

  -- Whether a message is kept.
  abbrev pub accepts : Packet → Retained → Bool
  accepts packet kept = elim (lookup packet.topic kept.map) [
    | none ↦
        ltb (length kept.map) max_retained_topics
        && leb (kept.bytes + retained_size byte_length packet) max_retained_bytes
    | some p ↦
        leb (kept.bytes - retained_size byte_length p + retained_size byte_length packet)
          max_retained_bytes
  ]

  -- The messages kept without their counter: each topic has one or none. A message that is not
  -- retained changes nothing, an empty one takes its topic away, and any other one is what its topic
  -- has from then on, if it is accepted.
  pub keep_retained-lookup :
      (topic : Text) (packet : Packet) (kept : Retained)
      → IsTable kept.map
      → lookup topic (keep_retained byte_length packet kept).map ≡ (
          if not packet.retain || not (text_eq packet.topic topic)
          then lookup topic kept.map
          else if length packet.payload == 0
          then none
          else if accepts packet kept
          then some packet
          else lookup topic kept.map)
  unfolding keep_retained
  keep_retained-lookup topic packet kept table = elim (Bool-cases packet.retain) [
    | inr e ↦ ground (arith)
    | inl e ↦ elim (Option-cases (lookup packet.topic kept.map)) [
      | inl f ↦ ground (
        arith,
        lookup-put packet.topic topic packet kept.map,
        lookup-delete packet.topic topic kept.map table,
      )
      | inr (p, f) ↦ ground (
        arith,
        lookup-put packet.topic topic packet kept.map,
        lookup-delete packet.topic topic kept.map table,
      )
    ]
  ]
