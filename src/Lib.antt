-- ===== src/Lib.antt =====
-- Verification of rethink, a local server for appliances that speak LG's ThinQ protocols. An
-- appliance reaches the server over TLS: a ThinQ2 appliance as a client of the built-in MQTT
-- broker, a ThinQ1 appliance with length-prefixed frames; either way the payload is a packet of
-- TLV records with a checksum, or an AABB packet. The code modelled here is TypeScript; paths are
-- from the repository's root.
--
-- Wire, the formats:
--   * Wire.Crc16: `crc16` and its table (util/crc16.ts).
--   * Wire.Tlv: `parse` and `build` (util/tlv.ts). Bit operations are arithmetic on natural numbers.
--   * Wire.Packet: `encodePacket` and `decodePacket` (util/packet-codec.ts), on Wire.Crc16 and
--     Wire.Tlv. Node's hexadecimal conversions are the parameter HexCodec.
--   * Wire.LengthFrame: `splitter` and `make` (util/length_prefixed_frame.ts). The callback is a
--     parameter: a function on the state that it acts on, which may throw.
--   * Wire.Mtosp: `splitter` and `format` (util/mtosp.ts), texts as their bytes. The callback is taken
--     to return.
--
-- Mqtt, the broker (cloud/mqtt-broker.ts):
--   * Mqtt.Topic: `validFilter` and `mqttTopicMatches`. A text is the list of its characters' codes.
--   * Mqtt.Table: a `Map` as the list of its entries in the order of insertion.
--   * Mqtt.Broker: the state of `Client` and `Broker`; `publishAllowed`, `subscribe`'s grants,
--     `removeSubscription` and `destroy`.
--   * Mqtt.Broker.Handlers: what `accept` installs on a connection, one step for each event, and a
--     broker's run. The answers of the access policy are given with each event, and
--     `Buffer.byteLength` is a parameter.
--   * Mqtt.Access: `DeviceMQTTAccess` (cloud/mqtt-access.ts): `current` and `bind`;
--     Mqtt.Access.Topics: `parseDeviceTopic`, `parseDevicePayload` and `isSafeDeviceId`
--     (cloud/device_id.ts); Mqtt.Access.Decisions: `connect`, `publish`, `subscribe`, `deliver` and
--     `disconnect`, which answer what the broker asks. A client is known by a text, its session is
--     the one in `sessions`; JSON.parse, the hash and the address that was resolved are parameters,
--     and the inventory comes with each call.
--
-- Certificates: the queue and cache of `SNICertificateProvider` (util/sni-certificates.ts), which
-- makes the certificates of the TLS listeners; openssl's work is an event.
--
-- Thinq2, the appliances of the newer platform:
--   * Thinq2.Messages: what a device sends to be provisioned (`validMessage`, `boundedText`,
--     `validDeployMessage` of cloud/thinq2/device.ts) and the answer (`generateDeployResponse` of
--     cloud/thinq2/provisioning.ts). A message is a value of JSON, as `JSON.parse` returns it.
--   * Thinq2.Acceptor: `DeviceAcceptor` (cloud/thinq2/device.ts), one function for `mqtt` and for
--     `disconnected`. A client is a number, the fields that the acceptor keeps on a client are a
--     function of it, and what listeners are told is a list of outputs. Closing a client publishes
--     its last will first, as the broker does; which will a client has is a parameter.
--
-- Devices, the base classes of the appliances' handlers:
--   * Devices.TlvDevice: `TLVDevice` (cloud/devices/tlv_device.ts), on Wire.Tlv. A timer is whether
--     it runs, a tick of it is an event, and what a subclass overrides is the record Hooks, which
--     also resolves the callbacks of the fields. Values are natural numbers. `setConfig`, `publishConfig`
--     and `drop` (cloud/devices/base.ts) are events too, the discovery record without its content. A
--     subclass that overrides `processTLV`, `processData` or `stopTimers` itself is not covered.
--   * Devices.AabbDevice: `AABBDevice` (cloud/devices/aabb_device.ts), against Wire.Packet.
--
-- Router.Store: `RouterConfigStore` (router/config-store.ts), the settings of the router and the list
-- of its devices. Each operation is a function of the configuration that throws, saves or returns, and
-- `commit` is `save`, given whether the file can be written.
--
-- Router.Reconciler: `reconcileLocked` (router/dnat-reconciler.ts), on Router.Store: it adopts rules that
-- are in place and puts those back that the user wants. What the router answers is a parameter, and
-- whether the store's file can be written is the same for all writes of a cycle.
--
-- Router.Policy: `BridgePolicy` (bridge/policy.ts), which appliances the bridge forwards to the cloud, on
-- the same list.
--
-- Sni: `readServerName` (cloud/sni_router.ts), the host that a TLS client asks for. Reading a number past
-- the end of the hello throws in the source and is no answer here.
--
-- RepeatedLog: `collapseRepeats` (util/repeated_log.ts), which holds back lines that repeat.
--
-- Common has what the parts share: Boolean tests on numbers, lists over the native numbers, and
-- exclusive or.
--
-- Fuel: the loop of the length-prefixed splitter has as many rounds as there are bytes waiting, and
-- each round that goes on takes four bytes at least.
-- The loop over the extensions of a TLS hello has as many rounds as the hello has bytes, and goes on by
-- four bytes at least.
-- Every other loop is structural. Counters are natural numbers; where the source subtracts from a
-- counter, the invariant says that it is large enough.
--
-- Not modelled: sockets, clocks, TLS and the HTTP interfaces; the broker's `shutdown` and its events
-- for the application; fields that only log lines read; how the store's file is read; the sessions with
-- LG's cloud, the commands that set the router's rules, the device manager and the tables of the single
-- appliances.
pub mod Certificates
pub mod Common
pub mod Devices
pub mod Mqtt
pub mod RepeatedLog
pub mod Router
pub mod Sni
pub mod Thinq2
pub mod Wire
