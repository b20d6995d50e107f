-- ===== src/Mqtt/Client.antt =====
-- MQTT/MQTTClient.h: the blocking client, with MQTTCLIENT_QOS1 1 and MQTTCLIENT_QOS2 0, over the
-- packets of MQTT/MQTTPacket, the timer of MQTT/MQTTmbed.h and a network that it is given.
pub mod Countdown
pub mod PacketId
pub mod Topic
pub mod Run
pub mod State
pub mod Transfer
pub mod Cycle
pub mod Session
pub mod Progress
mod Sample
mod Tests
