-- ===== src/Mqtt.antt =====
-- The MQTT broker for the appliances and its access policy: cloud/mqtt-broker.ts, cloud/mqtt-access.ts.
pub mod Access
pub mod Broker
pub mod Table
pub mod Topic
