-- ===== src/MainWindow/Network/Sent.antt =====
-- What holds of what is sent holds of the datagrams that go to one of the two addresses.
use lame.Prelude.{ℕ, ◌≡◌, ◌⊎◌, inl, inr, ◌∙◌, List, [], ◌∷◌, All}
use lame.Bler.State.{SockAddr, DriveMode, remote}
use lame.Bler.Sending.{Event, serial_write, udp_write, tcp_write}
use lame.Bler.Udp.Obeys.{IsReply, IsTrue}
use lame.MainWindow.Exchange.{same_addr}
use lame.MainWindow.Network.Lists.{if-All}
use lame.MainWindow.Network.{sent_to}
use lame.MainWindow.Network.Ours.{IsOurs, EventOurs}

pub sent_to-Ours :
    (there : SockAddr) (events : List Event)
    → All EventOurs events
    → All IsOurs (sent_to there events)
unfolding sent_to
sent_to-Ours there [] all = tt
sent_to-Ours there (serial_write bytes ∷ events) (first, rest) = sent_to-Ours there events rest
sent_to-Ours there (tcp_write bytes addr ∷ events) (first, rest) = sent_to-Ours there events rest
sent_to-Ours there (udp_write bytes addr ∷ events) (first, rest) =
    if-All IsOurs (same_addr addr there) bytes _ first (sent_to-Ours there events rest)

pub sent_to-IsReply :
    (there : SockAddr) (mode : DriveMode) (events : List Event)
    → All (IsTrue mode) events
    → All (IsReply mode) (sent_to there events)
unfolding sent_to
sent_to-IsReply there mode [] all = tt
sent_to-IsReply there mode (serial_write bytes ∷ events) (first, rest) =
    sent_to-IsReply there mode events rest
sent_to-IsReply there mode (tcp_write bytes addr ∷ events) (first, rest) =
    sent_to-IsReply there mode events rest
sent_to-IsReply there mode (udp_write bytes addr ∷ events) (first, rest) =
    if-All (IsReply mode) (same_addr addr there) bytes _ first
      (sent_to-IsReply there mode events rest)

pub IsReply-later :
    (mode mode' : DriveMode) (bytes : List ℕ)
    → (mode' ≡ mode) ⊎ (mode' ≡ remote)
    → IsReply mode bytes
    → IsReply mode' bytes
IsReply-later mode mode' bytes (inl same) (op, e, honest) = (op, e, λ ack. same ∙ honest ack)
IsReply-later mode mode' bytes (inr now) (op, e, honest) = (op, e, λ ack. now)
