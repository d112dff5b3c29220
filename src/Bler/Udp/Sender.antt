-- ===== src/Bler/Udp/Sender.antt =====
-- Noting the sender, in `ReceivePacketsFromUdp` of Robot/src/BLER.cpp.
use lame.Prelude.{ap, ◌&&◌, ◌==◌, ◌≡◌, inl, inr, Bool-cases, if◌then◌else◌}
use lame.Bler.State.{Sockets, SockAddr, Bler}
use lame.Bler.Udp.{is_from_ai, note_sender}

module _ {Frame : Type 0} (sys : Sockets) (r : Bler Frame) (addr : SockAddr) where
  -- Only the base station's address can change.
  pub record Noted (r' : Bler Frame) : Type 0 where
    pub mode : r'.current_mode ≡ r.current_mode
    pub quality : r'.quality ≡ r.quality
    pub payload : r'.latest_drive_payload ≡ r.latest_drive_payload
    pub ai_addr : r'.ai_addr ≡ r.ai_addr
    pub running : r'.is_running ≡ r.is_running
    pub base : r'.base_station_addr ≡ (if is_from_ai sys r addr then r.base_station_addr else addr)

  pub note_sender-Noted : Noted (note_sender sys r addr)
  unfolding note_sender
  note_sender-Noted = elim (Bool-cases (is_from_ai sys r addr)) [
    | inl from_ai ↦ record {
      mode = rw from_ai;
      quality = rw from_ai;
      payload = rw from_ai;
      ai_addr = rw from_ai;
      running = rw from_ai;
      base = rw from_ai;
    }
    | inr stranger ↦ record {
      mode = rw stranger;
      quality = rw stranger;
      payload = rw stranger;
      ai_addr = rw stranger;
      running = rw stranger;
      base = rw stranger;
    }
  ]

-- Who the AI is depends on nothing but its noted address.
pub is_from_ai-ai_addr :
    {Frame : Type 0} (sys : Sockets) (r r' : Bler Frame) (addr : SockAddr)
    → r'.ai_addr ≡ r.ai_addr
    → is_from_ai sys r' addr ≡ is_from_ai sys r addr
unfolding is_from_ai
is_from_ai-ai_addr sys r r' addr e =
    ap
      (λ (peer : SockAddr).
        addr.sin_family == sys.af_inet
        && (addr.s_addr == sys.htonl sys.inaddr_loopback && addr.sin_port == peer.sin_port))
      e
