-- ===== src/Devices.antt =====
-- The base classes of the appliances' handlers: cloud/devices/tlv_device.ts,
-- cloud/devices/aabb_device.ts and cloud/devices/base.ts.
pub mod TlvDevice
pub mod AabbDevice
