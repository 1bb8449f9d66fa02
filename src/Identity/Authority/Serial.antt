-- ===== src/Identity/Authority/Serial.antt =====
-- The serial numbers that are drawn.
use sumo_provision.Base.{◌≡◌, ◌<◌, ◌≤◌, [], ◌∷◌, Text, All, length, arith}
use sumo_provision.Identity.Authority.{serial_bytes}

-- a number of twenty bytes that is positive as a signed number, and that does not begin with a zero
abbrev pub IsSerial : Text → Type 0
IsSerial [] = ⊥
IsSerial (b ∷ bs) = (length (b ∷ bs) ≡ 20) × All (λ c. c < 256) (b ∷ bs) × (1 ≤ b) × (b ≤ 127)

-- From any twenty drawn bytes the serial number has twenty bytes of which the first is from 1 to
-- 127, so it is positive.
pub serial_bytes-IsSerial :
    (drawn : Text) → length drawn ≡ 20 → All (λ c. c < 256) drawn → IsSerial (serial_bytes drawn)
unfolding serial_bytes
serial_bytes-IsSerial [] size bytes = ground (arith, size)
serial_bytes-IsSerial (b ∷ bs) size bytes = (size, (omega arith, bytes.1), omega arith, omega arith)
