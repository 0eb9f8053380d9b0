-- ===== src/Wire.antt =====
-- The byte formats that appliances and the cloud exchange: util/crc16.ts, util/tlv.ts,
-- util/packet-codec.ts, util/length_prefixed_frame.ts and util/mtosp.ts.
pub mod Crc16
pub mod Tlv
pub mod Packet
pub mod LengthFrame
pub mod Mtosp
