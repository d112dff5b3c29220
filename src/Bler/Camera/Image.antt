-- ===== src/Bler/Camera/Image.antt =====
-- What `SendCameraImage` of Robot/src/BLER.cpp sends.
use lame.Prelude.{
  ℕ, ◌+◌, ◌*◌, ◌/◌, ◌<◌, ◌≡◌, refl, true, List, [], ◌∷◌, Option, some, length, take, take_all,
  arith, u8, u32, ◌==◌, ◌&&◌, if◌then◌else◌,
}
use lame.Bler.State.{Sockets, Bler}
use lame.Bler.Sending.{tcp_write}
use lame.Bler.Camera.{Link, first_pkt, send_image, send_frame, send_camera_image}

-- The size that a receiver reads from bytes 1 to 4 of the header, most significant first.
abbrev pub size_of : ℕ → ℕ → ℕ → ℕ → ℕ
size_of a b c d = a * 16777216 + b * 65536 + c * 256 + d

-- The header holds any size below 2^32 in full.
pub first_pkt_size :
    (size id : ℕ)
    → size < 4294967296
    → (a : ℕ) × (b : ℕ) × (c : ℕ) × (d : ℕ) × (first_pkt size id
        ≡ 0xaa ∷ a ∷ b ∷ c ∷ d ∷ u8 id ∷ 0x7f ∷ [])
      × (size_of a b c d ≡ size)
unfolding first_pkt
first_pkt_size size id h =
    (u8 (size / 16777216), u8 (size / 65536), u8 (size / 256), u8 size, refl, omega arith)

-- The seven bytes of the header.
pub first_pkt_bytes :
    (size id : ℕ)
    → first_pkt size id
      ≡ 0xaa
        ∷ u8 (size / 16777216)
        ∷ u8 (size / 65536)
        ∷ u8 (size / 256)
        ∷ u8 size
        ∷ u8 id
        ∷ 0x7f
        ∷ []
unfolding first_pkt
first_pkt_bytes size id = refl

module _ {Frame : Type 0} (imencode : Frame → ℕ → Option (List ℕ)) (sys : Sockets) where
  sent_data :
      (r : Bler Frame) (link : Link) (id : ℕ) (img : Frame) (bytes : List ℕ)
      → imencode img r.quality ≡ some bytes
      → (link.opens && link.connects) ≡ true
      → length bytes < 4294967296
      → let station = record r.base_station_addr { sin_port = sys.htons 11000 } in
        send_frame imencode sys r id link (some img)
        ≡ tcp_write (first_pkt (length bytes) id) station ∷ tcp_write bytes station ∷ []
  unfolding send_frame send_image
  sent_data r link id img bytes made up small =
      let whole : take (u32 (length bytes)) bytes ≡ bytes =
        take_all bytes (u32 (length bytes)) (omega arith) in
      let opens : link.opens ≡ true = ground arith in
      let connects : link.connects ≡ true = ground arith in
      rw (made, send_frame) (rw (opens, connects, whole))

  -- A frame that the camera has given, that can be compressed to less than 2^32 bytes, goes to the
  -- noted base station, at its image port, if the connection can be made: the header with the size
  -- of the compressed data, then all of the data.
  pub send_camera_image_lem :
      (r : Bler Frame) (link : Link) (id : ℕ) (img : Frame) (bytes : List ℕ)
      → (if id == 0 then r.latest_camera_frame else r.latest_camera1_frame) ≡ some img
      → imencode img r.quality ≡ some bytes
      → (link.opens && link.connects) ≡ true
      → length bytes < 4294967296
      → let station = record r.base_station_addr { sin_port = sys.htons 11000 } in
        send_camera_image imencode sys r id link
        ≡ tcp_write (first_pkt (length bytes) id) station ∷ tcp_write bytes station ∷ []
  unfolding send_camera_image send_frame
  send_camera_image_lem r link id img bytes has made up small =
      rw has (sent_data r link id img bytes made up small)
