-- ===== src/Uart/Names.antt =====
-- uart/mod.rs: the type bytes and the topic names of the message types, as functions back and forth.
use text.Mathlib.Text.{◌==◌ as str_eq}
use mathlib.Core.Option.{some-injective}
use bibi_sync.Base.{ℕ, ◌≡◌, refl, sym, ap, ◌∙◌, String, if◌then◌else◌}
use bibi_sync.Uart.Message.{MsgType, to_u8, from_u8, to_topic_name, imu}
use bibi_sync.Uart.Roundtrip.{from_u8-to_u8}

pub to_u8-injective : (s t : MsgType) → to_u8 s ≡ to_u8 t → s ≡ t
to_u8-injective s t e = some-injective s t (sym (from_u8-to_u8 s) ∙ ap from_u8 e ∙ from_u8-to_u8 t)

-- The type byte of a topic's name.
abbrev code_of : String → ℕ
code_of name =
    if str_eq name "/stm32/imu"
    then 0x01
    else if str_eq name "/stm32/depth"
    then 0x02
    else if str_eq name "/stm32/thruster"
    then 0x03
    else if str_eq name "/stm32/heartbeat"
    then 0x04
    else if str_eq name "/stm32/orientation"
    then 0x05
    else if str_eq name "/stm32/command"
    then 0x10
    else if str_eq name "/stm32/ack"
    then 0x11
    else if str_eq name "/stm32/led"
    then 0x12
    else 0x13

code_of-to_topic_name : (t : MsgType) → code_of (to_topic_name t) ≡ to_u8 t
unfolding to_topic_name to_u8
code_of-to_topic_name imu = refl
code_of-to_topic_name _ = refl

-- No two types share a topic.
pub to_topic_name-injective : (s t : MsgType) → to_topic_name s ≡ to_topic_name t → s ≡ t
to_topic_name-injective s t e =
    to_u8-injective s t (sym (code_of-to_topic_name s) ∙ ap code_of e ∙ code_of-to_topic_name t)
