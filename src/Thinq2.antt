-- ===== src/Thinq2.antt =====
-- The appliances of the newer platform: cloud/thinq2/device.ts and cloud/thinq2/provisioning.ts.
pub mod Messages
pub mod Acceptor
