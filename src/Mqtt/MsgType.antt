-- ===== src/Mqtt/MsgType.antt =====
-- MQTT/MQTTPacket/MQTTPacket.h: `enum msgTypes`. A header holds the number of its type.
use remotus_hardware.Base.{ℕ, ◌<◌, arith}

pub data MsgType : Type 0 where
  connect connack publish puback pubrec pubrel pubcomp : MsgType
  subscribe suback unsubscribe unsuback pingreq pingresp disconnect : MsgType

abbrev pub code : MsgType → ℕ
code MsgType.connect = 1
code MsgType.connack = 2
code MsgType.publish = 3
code MsgType.puback = 4
code MsgType.pubrec = 5
code MsgType.pubrel = 6
code MsgType.pubcomp = 7
code MsgType.subscribe = 8
code MsgType.suback = 9
code MsgType.unsubscribe = 10
code MsgType.unsuback = 11
code MsgType.pingreq = 12
code MsgType.pingresp = 13
code MsgType.disconnect = 14

-- Every type fits the four bits of the header, and none is 0.
pub code_bounds : (t : MsgType) → (0 < code t) × (code t < 16)
code_bounds t = ground arith
