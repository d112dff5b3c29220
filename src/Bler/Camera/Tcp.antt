-- ===== src/Bler/Camera/Tcp.antt =====
-- `SendCameraImage` of Robot/src/BLER.cpp sends over TCP alone.
use lame.Prelude.{ℕ, List, [], Option, none, some, All, Bool-cases, inl, inr}
use lame.Bler.State.{Sockets, SockAddr, Bler}
use lame.Bler.Sending.{Event, tcp_write}
use lame.Bler.Camera.{Link, send_image, send_frame, send_camera_image}

module _ {Frame : Type 0} (imencode : Frame → ℕ → Option (List ℕ)) (sys : Sockets)
    (P : Event → Type 0) (tcp : (bytes : List ℕ) (addr : SockAddr) → P (tcp_write bytes addr))
    (id : ℕ) (link : Link) where
  send_image-tcp : (base : SockAddr) (raw : List ℕ) → All P (send_image base id link sys raw)
  unfolding send_image
  send_image-tcp base raw = elim (Bool-cases link.opens) [
    | inr closed ↦ rw closed tt
    | inl up ↦ elim (Bool-cases link.connects) [
      | inr alone ↦ rw (up, alone) tt
      | inl there ↦ rw (up, there) (tcp _ _, (tcp _ _, tt))
    ]
  ]

  compressed-tcp :
      (base : SockAddr) (raw : Option (List ℕ))
      → All P (elim raw [ none ↦ [] | some bytes ↦ send_image base id link sys bytes ])
  compressed-tcp base none = tt
  compressed-tcp base (some bytes) = send_image-tcp base bytes

  send_frame-tcp :
      (r : Bler Frame) (frame : Option Frame) → All P (send_frame imencode sys r id link frame)
  unfolding send_frame
  send_frame-tcp r none = tt
  send_frame-tcp r (some img) = compressed-tcp r.base_station_addr (imencode img r.quality)

  -- What holds of what is sent over TCP holds of all that a request for an image sends.
  pub send_camera_image-tcp : (r : Bler Frame) → All P (send_camera_image imencode sys r id link)
  unfolding send_camera_image
  send_camera_image-tcp r = send_frame-tcp r _
