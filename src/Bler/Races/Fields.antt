-- ===== src/Bler/Races/Fields.antt =====
-- The fields of a drive payload that is copied one by one.
use lame.Prelude.{ℕ, ◌≡◌, ◌⊎◌, arith}
use lame.Packet.Payloads.{DrivePayload}
use lame.Bler.Races.{Field, get, put}

pub get-put :
    (f g : Field) (v : ℕ) (p : DrivePayload)
    → (get g (put f v p) ≡ v) × (g ≡ f) ⊎ (get g (put f v p) ≡ get g p)
get-put f g v p = ground arith

pub get-put-same : (f : Field) (v : ℕ) (p : DrivePayload) → get f (put f v p) ≡ v
get-put-same f v p = ground arith
