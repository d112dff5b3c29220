-- ===== src/Packet/Parse/Total.antt =====
-- The deserialize functions of Robot/include/Packet.h never leave an array that has their bytes.
use lame.Prelude.{
  ℕ, ◌≤◌, ◌≡◌, ◌⊎◌, inl, inr, List, length, Option, none, some, arith, ok, load_total,
}
use lame.Packet.Payloads.{DrivePayload, CameraQualityPayload}
use lame.Packet.Parse.{parse_drive_payload, parse_quality_payload}

-- A NULL payload pointer leaves the struct as it was.
pub parse_drive_payload_total :
    (b : List ℕ) (payload : Option ℕ) (old : DrivePayload)
    → 8 ≤ length b
    → (payload ≡ none) ⊎ (payload ≡ some 3)
    → (p : DrivePayload) × (parse_drive_payload b payload (some old) ≡ ok (some p))
unfolding parse_drive_payload
parse_drive_payload_total b payload old room (inl e) = (old, rw e)
parse_drive_payload_total b payload old room (inr e) =
    let (l, l_loaded) = load_total b 3 (omega arith) in
    let (r, r_loaded) = load_total b 4 (omega arith) in
    let (a, a_loaded) = load_total b 5 (omega arith) in
    let (s, s_loaded) = load_total b 6 (omega arith) in
    let (v, v_loaded) = load_total b 7 (omega arith) in
    (
      record { left = l; right = r; vibrator = v; actuator = a; scooper = s },
      rw (e, l_loaded, r_loaded, a_loaded, s_loaded, v_loaded),
    )

pub parse_quality_payload_total :
    (b : List ℕ) (payload : Option ℕ) (old : CameraQualityPayload)
    → 4 ≤ length b
    → (payload ≡ none) ⊎ (payload ≡ some 3)
    → (p : CameraQualityPayload) × (parse_quality_payload b payload (some old) ≡ ok (some p))
unfolding parse_quality_payload
parse_quality_payload_total b payload old room (inl e) = (old, rw e)
parse_quality_payload_total b payload old room (inr e) =
    let (q, loaded) = load_total b 3 (omega arith) in (record { quality = q }, rw (e, loaded))
