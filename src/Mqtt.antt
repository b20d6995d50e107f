-- ===== src/Mqtt.antt =====
-- MQTT/MQTTPacket: the MQTT packets and their bytes.
pub mod MsgType
pub mod Header
pub mod Writer
pub mod Reader
pub mod Text
pub mod Ack
pub mod Publish
pub mod Connect
pub mod Connack
pub mod Subscribe
pub mod Suback
pub mod Unsubscribe
pub mod Stream
pub mod Client
