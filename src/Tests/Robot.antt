-- ===== src/Tests/Robot.antt =====
-- The controller and the messages of the STM32.
use mathlib.Core.List.{foldl}
use bibi_sync.Base.{◌≡◌, refl, none, some, [], ◌∷◌, ◌++◌, arith, length, done}
use bibi_sync.Protocol.{
  ThrusterPwmCmd, ImuMsg, OrientationMsg, DepthMsg, pwm_to_bytes, pwm_from_bytes, write_words,
  read_words, thruster_pwm_size, imu_from_bytes, orientation_from_bytes, depth_from_bytes,
}
use bibi_sync.Protocol.Roundtrip.{pwm_from_bytes-pwm_to_bytes, sensors_from_bytes, imu_words}
use bibi_sync.Uart.{UartFrame}
use bibi_sync.Uart.Message.{depth, orientation, to_u8}
use bibi_sync.Uart.Scanned.{frame_bytes}
use bibi_sync.Uart.Stream.{encode_all}
use bibi_sync.Controller.{SensorData, sensor_type, process_rx, handle}
use bibi_sync.Controller.Receive.{process_rx-encode_all, other_type_drained}

abbrev no_sensors : SensorData
no_sensors = record { imu = none; orientation = none; depth = none }

abbrev depth_reading : UartFrame
depth_reading = record { msg_type = depth; payload = 1 ∷ 0 ∷ 0 ∷ 0 ∷ [] }

-- An orientation of two bytes: too short to be read.
abbrev cut_orientation : UartFrame
cut_orientation = record { msg_type = orientation; payload = 1 ∷ 2 ∷ [] }

process_rx-encode_all_example :
    process_rx no_sensors (encode_all (depth_reading ∷ cut_orientation ∷ []))
    ≡ done (
      foldl
          (λ s f. handle s (f.msg_type, f.payload))
          no_sensors
          (depth_reading ∷ cut_orientation ∷ []),
      [],
    )
unfolding sensor_type to_u8
process_rx-encode_all_example =
    process_rx-encode_all (depth_reading ∷ cut_orientation ∷ []) no_sensors
      (omega arith, (omega arith, tt)) (refl, (refl, tt))

-- What that fold comes to.
both_handled :
    foldl
      (λ s f. handle s (f.msg_type, f.payload))
      no_sensors
      (depth_reading ∷ cut_orientation ∷ [])
    ≡ record { imu = none; orientation = none; depth = some (record { depth = 1 }) }
unfolding handle depth_from_bytes orientation_from_bytes read_words
both_handled = refl

no_heartbeat : sensor_type 4 ≡ none
unfolding sensor_type
no_heartbeat = refl

other_type_drained_example :
    process_rx no_sensors (frame_bytes 4 [] ++ 0xaa ∷ 2 ∷ []) ≡ done (no_sensors, 0xaa ∷ 2 ∷ [])
other_type_drained_example =
    other_type_drained 4 [] (0xaa ∷ 2 ∷ []) no_sensors no_heartbeat (omega arith)

abbrev neutral : ThrusterPwmCmd
neutral = record {
  pwm_0 = 1500;
  pwm_1 = 1600;
  pwm_2 = 1400;
  pwm_3 = 1550;
  pwm_4 = 1450;
  pwm_5 = 1500;
}

pwm_from_bytes-pwm_to_bytes_example :
    (length (pwm_to_bytes neutral) ≡ thruster_pwm_size)
    × (pwm_from_bytes (pwm_to_bytes neutral ++ 9 ∷ []) ≡ some neutral)
pwm_from_bytes-pwm_to_bytes_example =
    pwm_from_bytes-pwm_to_bytes neutral (9 ∷ [])
      (omega arith, (omega arith, (omega arith, (omega arith, (omega arith, (omega arith, tt))))))

abbrev still : ImuMsg
still = record {
  accel_x = 1;
  accel_y = 2;
  accel_z = 3;
  gyro_x = 4;
  gyro_y = 5;
  gyro_z = 6;
  mag_x = 7;
  mag_y = 8;
  mag_z = 1073741824;
}

abbrev level : OrientationMsg
level = record { roll = 0; pitch = 1; yaw = 2 }

abbrev shallow : DepthMsg
shallow = record { depth = 1065353216 }

sensors_from_bytes_example :
    (imu_from_bytes (write_words (imu_words still) ++ []) ≡ some still)
    × (orientation_from_bytes (write_words (0 ∷ 1 ∷ 2 ∷ []) ++ []) ≡ some level)
    × (depth_from_bytes (write_words (1065353216 ∷ []) ++ []) ≡ some shallow)
sensors_from_bytes_example =
    sensors_from_bytes still level shallow []
      (
        omega arith,
        (
          omega arith,
          (
            omega arith,
            (
              omega arith,
              (omega arith, (omega arith, (omega arith, (omega arith, (omega arith, tt))))),
            ),
          ),
        ),
      )
      (omega arith, (omega arith, (omega arith, tt))) (omega arith, tt)
