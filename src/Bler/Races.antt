-- ===== src/Bler/Races.antt =====
-- Robot/src/BLER.cpp: `Execute` in remote mode and the drive packets and mode switches of
-- `ReceivePacketsFromUdp` at the same time, one access to a shared field after the other. No mutex
-- guards these fields. A field is read and written whole, and a struct is copied field by field in
-- the order of its declaration.
pub mod Fields
pub mod Sources
pub mod Sourced
pub mod Runs
use lame.Prelude.{ℕ, ◌+◌, ◌≡◌, ◌≢◌, List, [], ◌∷◌, ltb, if◌then◌else◌}
use lame.Packet.Payloads.{DrivePayload}
use lame.Bler.State.{DriveMode, remote, no_drive, Bler}

pub data Field : Type 0 where
  left_field right_field vibrator_field actuator_field scooper_field : Field

abbrev pub fields : List Field
fields = left_field ∷ right_field ∷ vibrator_field ∷ actuator_field ∷ scooper_field ∷ []

abbrev pub get : Field → DrivePayload → ℕ
get left_field p = p.left
get right_field p = p.right
get vibrator_field p = p.vibrator
get actuator_field p = p.actuator
get scooper_field p = p.scooper

abbrev pub put : Field → ℕ → DrivePayload → DrivePayload
put left_field v p = record p { left = v }
put right_field v p = record p { right = v }
put vibrator_field v p = record p { vibrator = v }
put actuator_field v p = record p { actuator = v }
put scooper_field v p = record p { scooper = v }

-- What the two threads share.
pub record Shared : Type 0 where
  pub latest : DrivePayload
  pub received_time : ℕ
  pub mode : DriveMode

-- Where the UDP thread stands: at another packet; in the assignment of `latestDrivePayload`, with the
-- fields that are left; between the two assignments of `case REMOTE_SWITCH_OPCODE`.
pub data Writer : Type 0 where
  listening : Writer
  storing : DrivePayload → List Field → Writer
  switching : Writer

-- Where `Execute` stands: before it reads the mode; in the copy of `latestDrivePayload`, with the
-- fields that are left.
pub data Reader : Type 0 where
  sleeping : Reader
  loading : DrivePayload → List Field → Reader

-- With what has been: the payload that the robot began with and those received, the time that it
-- began with and those noted for drive packets and switches to remote mode, and what `Execute` sent, with the time that it asked for.
pub record Race : Type 0 where
  pub shared : Shared
  pub writer : Writer
  pub reader : Reader
  pub written : List DrivePayload
  pub noted : List ℕ
  pub sent : List (ℕ × DrivePayload)

-- The timeout of two seconds.
unfoldable pub judge : DrivePayload → ℕ → ℕ → DrivePayload
judge p received_time now =
    if ltb (received_time + 2) now then record p { left = 0; right = 0 } else p

abbrev pub begin_race : {Frame : Type 0} → Bler Frame → Race
begin_race r = record {
  shared = record {
    latest = r.latest_drive_payload;
    received_time = r.last_drive_payload_received_time;
    mode = r.current_mode;
  };
  writer = listening;
  reader = sleeping;
  written = r.latest_drive_payload ∷ [];
  noted = r.last_drive_payload_received_time ∷ [];
  sent = [];
}

-- The next access of one of the two threads.
pub data Access (s : Race) : Race → Type 0 where
  parses :
      (p : DrivePayload)
      → s.writer ≡ listening
      → Access s (record s { writer = storing p fields; written = p ∷ s.written })
  stores :
      (p : DrivePayload) (f : Field) (rest : List Field)
      → s.writer ≡ storing p (f ∷ rest)
      → Access s (record s {
        shared = record s.shared { latest = put f (get f p) s.shared.latest };
        writer = storing p rest;
      })
  stamps :
      (p : DrivePayload) (now : ℕ)
      → s.writer ≡ storing p []
      → Access s (record s {
        shared = record s.shared { received_time = now };
        writer = listening;
        noted = now ∷ s.noted;
      })
  begins_switch :
      (now : ℕ)
      → s.writer ≡ listening
      → Access s (record s {
        shared = record s.shared { received_time = now };
        writer = switching;
        noted = now ∷ s.noted;
      })
  switches :
      s.writer ≡ switching
      → Access s (record s { shared = record s.shared { mode = remote }; writer = listening })
  leaves :
      (mode : DriveMode)
      → s.writer ≡ listening
      → mode ≢ remote
      → Access s (record s { shared = record s.shared { mode = mode } })
  starts :
      (stale : DrivePayload)
      → s.reader ≡ sleeping
      → s.shared.mode ≡ remote
      → Access s (record s { reader = loading stale fields })
  loads :
      (p : DrivePayload) (f : Field) (rest : List Field)
      → s.reader ≡ loading p (f ∷ rest)
      → Access s (record s { reader = loading (put f (get f s.shared.latest) p) rest })
  sends :
      (p : DrivePayload) (now : ℕ)
      → s.reader ≡ loading p []
      → Access s (record s {
        reader = sleeping;
        sent = (now, judge p s.shared.received_time now) ∷ s.sent;
      })

pub data Reach (s : Race) : Race → Type 0 where
  here : Reach s s
  next : {t u : Race} → Reach s t → Access t u → Reach s u
