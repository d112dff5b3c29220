-- ===== src/Bler/Camera.antt =====
-- Robot/src/BLER.cpp: `SendCameraImage`, and the loops of the two camera threads.
pub mod Image
pub mod Frames
pub mod Tcp
pub mod Mutex
use lame.Prelude.{
  ℕ, ◌/◌, Bool, List, [], ◌∷◌, Option, none, some, length, take, u8, u32, ◌==◌, if◌then◌else◌,
}
use lame.Bler.State.{Sockets, SockAddr, Bler}
use lame.Bler.Sending.{Event, tcp_write}

abbrev pub base_image_port : ℕ
base_image_port = 11000

-- Whether `TcpClient::Open` and `TcpClient::Connect` succeed at this call.
pub record Link : Type 0 where
  pub opens : Bool
  pub connects : Bool

-- The header in front of the image: its size in four bytes, most significant first, and the camera.
pub first_pkt : ℕ → ℕ → List ℕ
first_pkt size id =
    0xaa ∷ u8 (size / 16777216) ∷ u8 (size / 65536) ∷ u8 (size / 256) ∷ u8 size ∷ u8 id ∷ 0x7f ∷ []

pub send_image : SockAddr → ℕ → Link → Sockets → List ℕ → List Event
unfolding first_pkt
send_image base id link sys raw_compressed_data =
    if link.opens
    then (let img_addr = record base { sin_port = sys.htons base_image_port } in
        if link.connects
        then (tcp_write (first_pkt (length raw_compressed_data) id) img_addr
            ∷ tcp_write (take (u32 (length raw_compressed_data)) raw_compressed_data) img_addr
            ∷ [])
        else [])
    else []

-- `imencode` is OpenCV's, at a quality; `none` is its failure.
module _ {Frame : Type 0} (imencode : Frame → ℕ → Option (List ℕ)) (sys : Sockets) where
  pub send_frame : Bler Frame → ℕ → Link → Option Frame → List Event
  send_frame r id link none = []
  send_frame r id link (some img) = elim (imencode img r.quality) [
    | none ↦ []
    | some raw_compressed_data ↦ send_image r.base_station_addr id link sys raw_compressed_data
  ]

  pub send_camera_image : Bler Frame → ℕ → Link → List Event
  send_camera_image r id link =
      send_frame r id link (if id == 0 then r.latest_camera_frame else r.latest_camera1_frame)

  -- One round of `CameraSendThread`.
  pub camera_send_round : Bler Frame → Link → List Event
  camera_send_round r link = send_camera_image r 1 link

-- One round of `CameraReadThread`: the images that the open cameras gave, `none` without data.
pub camera_read_round : {Frame : Type 0} → Bler Frame → Option Frame → Option Frame → Bler Frame
camera_read_round r none none = r
camera_read_round r (some img) none = record r { latest_camera_frame = some img }
camera_read_round r none (some img1) = record r { latest_camera1_frame = some img1 }
camera_read_round r (some img) (some img1) = record r {
  latest_camera_frame = some img;
  latest_camera1_frame = some img1;
}
