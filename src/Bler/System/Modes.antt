-- ===== src/Bler/System/Modes.antt =====
-- How the mode of Robot/src/BLER.cpp can change while the threads that `Run` starts are running.
use lame.Prelude.{
  ◌⊎◌, inl, inr, ℕ, ◌≤◌, ◌<◌, ◌≡◌, refl, sym, ◌∙◌, List, Option, none, some, length, take, arith,
  ok, ok-injective, [],
}
use lame.Packet.Header.{HeaderRead, read_packet_header}
use lame.Bler.State.{Sockets, SockAddr, Bler}
use lame.Bler.Udp.{failed, datagram, pointee_or_zero}
use lame.Bler.Udp.Total.{arrived}
use lame.Bler.Udp.Keeps.{SwitchedTo, udp_round-RoundKept, udp_round-failed}
use lame.Bler.Camera.Frames.{camera_read_round-FramesOnly}
use lame.Bler.Startup.{Thread, Devices, run, run-heartbeat}
use lame.Bler.System.{World, Step, still, udp, camera, heartbeat, Reach, here, next}

-- The UDP thread's array has its size; the quality and the AI's address are in order.
pub record IsSound {Frame : Type 0} (ai_addr : SockAddr) (s : World Frame) : Type 0 where
  pub buffer : length s.read_buffer ≡ 64
  pub quality : s.robot.quality ≤ 100
  pub peer : s.robot.ai_addr ≡ ai_addr

bounded : {q q' : ℕ} → (q' ≡ q) ⊎ (q' ≤ 100) → q ≤ 100 → q' ≤ 100
bounded (inl e) h = omega arith
bounded (inr small) h = small

-- `t` follows from `s` by the packet read from the first 64 bytes of `packet`: the mode stays, or
-- the packet was accepted, has one of the three switch opcodes, and names the new mode.
pub data Ordered {Frame : Type 0} (s t : World Frame) (packet : List ℕ) : Type 0 where
  unmoved : t.robot.current_mode ≡ s.robot.current_mode → Ordered s t packet
  moved :
      (h : HeaderRead)
      → read_packet_header
          (some (arrived s.read_buffer packet))
          (length (take 64 packet))
          (some 0)
          (some none)
        ≡ ok h
      → 0 < h.result
      → SwitchedTo (pointee_or_zero h.opcode) t.robot.current_mode
      → Ordered s t packet

module _ {Frame : Type 0} (imencode : Frame → ℕ → Option (List ℕ)) (sys : Sockets) where
  -- Why the mode of `t` is what it is: only the datagram that the UDP thread receives in this very
  -- step can have changed it.
  abbrev pub Cause :
      (threads : List Thread) (s t : World Frame) → Step imencode sys threads s t → Type 0
  Cause threads s t (still e) = t.robot.current_mode ≡ s.robot.current_mode
  Cause threads s t (udp env failed after started running round e) =
      t.robot.current_mode ≡ s.robot.current_mode
  Cause threads s t (udp env (datagram packet addr) after started running round e) =
      Ordered s t packet
  Cause threads s t (camera img img1 started running e) =
      t.robot.current_mode ≡ s.robot.current_mode
  Cause threads s t (heartbeat beats now started running e) =
      t.robot.current_mode ≡ s.robot.current_mode

  by_packet :
      (s t : World Frame) (packet : List ℕ) (h : HeaderRead)
      → read_packet_header
          (some (arrived s.read_buffer packet))
          (length (take 64 packet))
          (some 0)
          (some none)
        ≡ ok h
      → (t.robot.current_mode ≡ s.robot.current_mode)
        ⊎ ((0 < h.result) × SwitchedTo (pointee_or_zero h.opcode) t.robot.current_mode)
      → Ordered s t packet
  by_packet s t packet h read (inl e) = unmoved e
  by_packet s t packet h read (inr (accepted, to)) = moved h read accepted to

  -- From a sound state every step of the threads that `Run` starts leads to a sound state. It
  -- changes the mode only where the UDP thread receives a datagram in that step, and the packet
  -- read from the first 64 bytes of this datagram is accepted and has one of the three switch
  -- opcodes; the new mode is the one that the opcode names. No silence of the AI changes it.
  pub Step-Good :
      (ai_addr : SockAddr) (r : Bler Frame) (devices : Devices) (s t : World Frame)
      → IsSound ai_addr s
      → (step : Step imencode sys (run r devices).threads s t)
      → IsSound ai_addr t × Cause (run r devices).threads s t step
  Step-Good ai_addr r devices s t v (still e) = rw e (v, refl)
  Step-Good ai_addr r devices s t v (udp env failed after started running round e) =
      let same : record { robot = s.robot; read_buffer = s.read_buffer; events = [] } ≡ after =
        ok-injective (sym (udp_round-failed imencode sys s.robot s.read_buffer env) ∙ round) in
      rw (e, ← same) (record { buffer = v.buffer; quality = v.quality; peer = v.peer }, refl)
  Step-Good ai_addr r devices s t v (udp env (datagram packet addr) after started running round e) =
      let (h, after', read, received, l, k) =
        udp_round-RoundKept imencode sys s.robot s.read_buffer packet addr env v.buffer in
      let one : after' ≡ after = ok-injective (sym received ∙ round) in
      rw (e, ← one)
        (
          record { buffer = l; quality = bounded k.quality v.quality; peer = k.ai_addr ∙ v.peer },
          by_packet s _ packet h read k.mode,
        )
  Step-Good ai_addr r devices s t v (camera img img1 started running e) =
      let k = camera_read_round-FramesOnly s.robot img img1 in
      rw e (
        record {
          buffer = v.buffer;
          quality = omega (arith, v.quality, k.quality);
          peer = k.ai_addr ∙ v.peer;
        },
        k.mode,
      )
  Step-Good ai_addr r devices s t v (heartbeat beats now started running e) =
      absurd (cc (run-heartbeat r devices))

  -- So in every state that the threads reach the array has its 64 places, the image quality is at
  -- most 100, and the AI's address is the one it was.
  pub Reach-IsSound :
      (ai_addr : SockAddr) (r : Bler Frame) (devices : Devices) (s t : World Frame)
      → IsSound ai_addr s
      → Reach imencode sys (run r devices).threads s t
      → IsSound ai_addr t
  Reach-IsSound ai_addr r devices s t v here = v
  Reach-IsSound ai_addr r devices s t v (next {t = m} reach step) =
      (Step-Good ai_addr r devices m t (Reach-IsSound ai_addr r devices s m v reach) step).0
