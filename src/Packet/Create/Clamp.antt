-- ===== src/Packet/Create/Clamp.antt =====
-- `__CLAMP` of Robot/include/Packet.h, at the bounds of a heading.
use lame.Prelude.{ℕ, ◌<◌, ◌≡◌, arith}
use lame.Prelude.Int.{pos, negsuc, ◌≤ℤ◌, signed16}
use lame.Packet.Create.{clamp}

-- A heading is sent within ±180, and one that is already there is sent as it is.
pub clamp_bounds :
    (v : ℕ)
    → v < 65536
    → (negsuc 179 ≤ℤ signed16 (clamp v (pos 180) (negsuc 179)))
      × (signed16 (clamp v (pos 180) (negsuc 179)) ≤ℤ pos 180)
      × (negsuc 179 ≤ℤ signed16 v → signed16 v ≤ℤ pos 180 → clamp v (pos 180) (negsuc 179) ≡ v)
unfolding clamp
clamp_bounds v h = (ground arith, ground arith, λ lo hi. ground arith)

pub clamp-lt : (v : ℕ) → v < 65536 → clamp v (pos 180) (negsuc 179) < 65536
unfolding clamp
clamp-lt v h = ground arith
