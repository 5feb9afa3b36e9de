-- ===== src/Uart/Message.antt =====
-- uart/mod.rs: `MsgType`, its byte and its topic.
use bibi_sync.Base.{ℕ, String, Option, none, some, ◌==◌, if◌then◌else◌}

pub data MsgType : Type 0 where
  imu depth thruster heartbeat orientation command ack led calibration : MsgType

-- `msg_type as u8`
unfoldable pub to_u8 : MsgType → ℕ
to_u8 imu = 0x01
to_u8 depth = 0x02
to_u8 thruster = 0x03
to_u8 heartbeat = 0x04
to_u8 orientation = 0x05
to_u8 command = 0x10
to_u8 ack = 0x11
to_u8 led = 0x12
to_u8 calibration = 0x13

unfoldable pub from_u8 : ℕ → Option MsgType
from_u8 val =
    if val == 0x01
    then some imu
    else if val == 0x02
    then some depth
    else if val == 0x03
    then some thruster
    else if val == 0x04
    then some heartbeat
    else if val == 0x05
    then some orientation
    else if val == 0x10
    then some command
    else if val == 0x11
    then some ack
    else if val == 0x12
    then some led
    else if val == 0x13
    then some calibration
    else none

unfoldable pub to_topic_name : MsgType → String
to_topic_name imu = "/stm32/imu"
to_topic_name depth = "/stm32/depth"
to_topic_name thruster = "/stm32/thruster"
to_topic_name heartbeat = "/stm32/heartbeat"
to_topic_name orientation = "/stm32/orientation"
to_topic_name command = "/stm32/command"
to_topic_name ack = "/stm32/ack"
to_topic_name led = "/stm32/led"
to_topic_name calibration = "/stm32/calibration"
