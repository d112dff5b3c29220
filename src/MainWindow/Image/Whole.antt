-- ===== src/MainWindow/Image/Whole.antt =====
-- What `ImageListenerThread` of BaseStation/BaseStation/MainWindow.xaml.cs makes of the stream that
-- `SendCameraImage` of Robot/src/BLER.cpp writes.
use mathlib.Core.List.{append-nil}
use lame.Prelude.{
  ap, true, Option, some, ◌&&◌, ◌==◌, if◌then◌else◌, ℕ, suc, ◌+◌, ◌-◌, ◌*◌, ◌/◌, ◌≤◌, ◌<◌, ◌≡◌, ◌∙◌,
  inr, List, [], ◌∷◌, ◌++◌, length, drop, length-drop, min, arith, u8, bit_or, bit_or_shifted, ok,
  load, lt→ltb,
}
use lame.Bler.State.{Sockets, Bler}
use lame.Bler.Sending.{Event, serial_write, udp_write, tcp_write}
use lame.Bler.Camera.{Link, first_pkt, send_camera_image}
use lame.Bler.Camera.Image.{first_pkt_bytes, send_camera_image_lem}
use lame.MainWindow.Image.{stream_read, size_from, receive_image}
use lame.MainWindow.Image.Loop.{receive_loop_lem}

-- `(a << 24) | (b << 16) | (c << 8) | d` of four bytes.
bit_or_size :
    (a b c d : ℕ)
    → a < 256
    → b < 256
    → c < 256
    → d < 256
    → bit_or (bit_or (bit_or (a * 16777216) (b * 65536)) (c * 256)) d
      ≡ ((a * 256 + b) * 256 + c) * 256 + d
bit_or_size a b c d a_small b_small c_small d_small =
    let first : bit_or (a * 16777216) (b * 65536) ≡ (a * 256 + b) * 65536 =
      bit_or_shifted 8 24 a (b * 65536) a_small (omega arith) ∙ omega arith in
    let second : bit_or ((a * 256 + b) * 65536) (c * 256) ≡ ((a * 256 + b) * 256 + c) * 256 =
      bit_or_shifted 16 16 (a * 256 + b) (c * 256) (omega arith) (omega arith) ∙ omega arith in
    rw (first, second) (bit_or_shifted 24 8 ((a * 256 + b) * 256 + c) d (omega arith) d_small)

-- The header says its size, whatever bytes follow it.
size_from-first_pkt :
    (size id : ℕ) (more : List ℕ)
    → size < 1073741824
    → size_from (
        0xaa
        ∷ u8 (size / 16777216)
        ∷ u8 (size / 65536)
        ∷ u8 (size / 256)
        ∷ u8 size
        ∷ u8 id
        ∷ 0x7f
        ∷ more)
      ≡ ok size
unfolding size_from load
size_from-first_pkt size id more small =
    let whole =
      bit_or_size (u8 (size / 16777216)) (u8 (size / 65536)) (u8 (size / 256)) (u8 size)
        (omega arith) (omega arith) (omega arith) (omega arith) in
    let same : ((u8 (size / 16777216) * 256 + u8 (size / 65536)) * 256 + u8 (size / 256)) * 256
          + u8 size
        ≡ size =
      omega arith in
    let fits : size < 2147483648 = omega arith in rw (whole, same, lt→ltb size 2147483648 fits)

-- An image of 1 to 2^30 - 1 bytes, sent as the robot sends it, whose header has arrived in full at
-- the first read, is received under the camera's number and without its first bytes: those, at most
-- nine, that had arrived with the header. With exactly the header's seven bytes at the first read
-- it is received in full, however it arrives later.
pub receive_image-first_pkt :
    (fuel first id : ℕ) (arrived : ℕ → ℕ) (image : List ℕ)
    → 0 < length image
    → length image < 1073741824
    → length image < fuel
    → 6 ≤ first
    → receive_image fuel first arrived (first_pkt (length image) id ++ image)
      ≡ ok (record { img_id = u8 id; bytes = drop (min (first - 6) (min 9 (length image))) image })
unfolding receive_image stream_read load
receive_image-first_pkt fuel first id arrived image some_data small enough whole_header =
    let size = length image in
    let lost = min (first - 6) (min 9 size) in
    let got : min (suc first) (min 16 (suc (suc (suc (suc (suc (suc (suc size))))))))
        ≡ suc (suc (suc (suc (suc (suc (suc lost)))))) =
      omega arith in
    let left = length-drop lost image in
    rw (first_pkt_bytes size id, got)
      (rw (size_from-first_pkt size id _ small) (
        rw (
          receive_loop_lem arrived fuel 0 size [] (drop lost image) some_data (inr (omega arith))
            (omega arith) (omega arith))))

-- The stream that the robot's writes to the connection make.
abbrev pub stream_of : List Event → List ℕ
stream_of [] = []
stream_of (serial_write bytes ∷ events) = stream_of events
stream_of (udp_write bytes addr ∷ events) = stream_of events
stream_of (tcp_write bytes addr ∷ events) = bytes ++ stream_of events

-- From the robot's camera to the window: if there is a frame, it is compressed to 1 to 2^30 - 1
-- bytes and the connection is made, what `SendCameraImage` writes is received under the camera's
-- number and without the image's first bytes: those, at most nine, that had arrived at the first
-- read, when the header must have arrived in full. With exactly the header's seven bytes there the
-- image is received in full, however it arrives later.
pub receive_image-send_camera_image :
    {Frame : Type 0} (imencode : Frame → ℕ → Option (List ℕ)) (sys : Sockets) (r : Bler Frame)
    (link : Link) (id : ℕ) (img : Frame) (image : List ℕ) (fuel first : ℕ) (arrived : ℕ → ℕ)
    → (if id == 0 then r.latest_camera_frame else r.latest_camera1_frame) ≡ some img
    → imencode img r.quality ≡ some image
    → (link.opens && link.connects) ≡ true
    → 0 < length image
    → length image < 1073741824
    → length image < fuel
    → 6 ≤ first
    → receive_image fuel first arrived (stream_of (send_camera_image imencode sys r id link))
      ≡ ok (record { img_id = u8 id; bytes = drop (min (first - 6) (min 9 (length image))) image })
receive_image-send_camera_image imencode sys r link id img image fuel first arrived has made up
      some_data small enough whole_header =
    let sent = send_camera_image_lem imencode sys r link id img image has made up (omega arith) in
    ap (λ (events : List Event). receive_image fuel first arrived (stream_of events)) sent
    ∙ ap
        (λ (bytes : List ℕ).
          receive_image fuel first arrived (first_pkt (length image) id ++ bytes))
        (append-nil image)
    ∙ receive_image-first_pkt fuel first id arrived image some_data small enough whole_header
