-- ===== src/Packet/Transfer.antt =====
-- What the sender of a packet writes and what the receiver of those bytes reads, both by
-- Robot/include/Packet.h.
pub mod Drive
pub mod Camera
pub mod Report
use lame.Prelude.{ℕ, ◌≡◌, List, none, some, Outcome, ok, ◌>>=◌}
use lame.Packet.Header.{HeaderRead, read_packet_header}

-- The receiver has the sender's bytes, their number, and `o` where the opcode goes; its payload
-- pointer starts as NULL, as in `BLER::ReceivePacketsFromUdp`.
abbrev pub receive : Outcome (List ℕ × ℕ) → ℕ → Outcome HeaderRead
receive sent o = sent >>= λ s. read_packet_header (some s.0) s.1 (some o) (some none)

pub receive_lem :
    (sent : Outcome (List ℕ × ℕ)) {b : List ℕ} {n : ℕ} (o : ℕ) {h : HeaderRead}
    → sent ≡ ok (b, n)
    → read_packet_header (some b) n (some o) (some none) ≡ ok h
    → receive sent o ≡ ok h
receive_lem sent o e read = rw e read
