-- ===== src/Python/Auv.antt =====
-- python/mod.rs: `PyAuvController`, on what the controller shares with its thread. An `f32` is its
-- 32-bit pattern.
use bibi_sync.Base.{ℕ, Option}
use bibi_sync.Controller
use bibi_sync.Controller.{Shared}

unfoldable pub new : Shared
new = Controller.new

unfoldable pub set_surge : Shared → ℕ → Shared
set_surge inner value = Controller.set_surge inner value

unfoldable pub set_sway : Shared → ℕ → Shared
set_sway inner value = Controller.set_sway inner value

unfoldable pub set_heave : Shared → ℕ → Shared
set_heave inner value = Controller.set_heave inner value

unfoldable pub set_roll : Shared → ℕ → Shared
set_roll inner value = Controller.set_roll inner value

unfoldable pub set_pitch : Shared → ℕ → Shared
set_pitch inner value = Controller.set_pitch inner value

unfoldable pub set_yaw : Shared → ℕ → Shared
set_yaw inner value = Controller.set_yaw inner value

unfoldable pub set_thrust : Shared → (surge sway heave roll pitch yaw : ℕ) → Shared
set_thrust inner surge sway heave roll pitch yaw =
    Controller.set_thrust inner
      (record { surge = surge; sway = sway; heave = heave; roll = roll; pitch = pitch; yaw = yaw })

unfoldable pub stop : Shared → Shared
stop inner = Controller.stop inner

unfoldable pub get_orientation : Shared → Option (ℕ × ℕ × ℕ)
get_orientation inner = Controller.get_orientation inner

unfoldable pub get_depth : Shared → Option ℕ
get_depth inner = Controller.get_depth inner

unfoldable pub shutdown : Shared → Shared
shutdown inner = Controller.shutdown (Controller.stop inner)

-- `Drop`
unfoldable pub drop : Shared → Shared
drop inner = Controller.shutdown (Controller.stop inner)
