-- ===== src/Bler/Camera/Mutex/Rounds.antt =====
-- The rounds of Robot/src/BLER.cpp that store and fetch images, as turns without interruption.
use lame.Prelude.{ℕ, ◌≡◌, refl, ◌∙◌, List, ◌∷◌, Option, none, some, ◌==◌, if◌then◌else◌}
use lame.Bler.State.{Sockets, Bler}
use lame.Bler.Startup.{Thread, camera_read}
use lame.Bler.Camera.{Link, send_frame, send_camera_image, camera_read_round}
use lame.Bler.Camera.Mutex.Threads.{set_same}
use lame.Bler.Camera.Mutex.{
  outside, asking, fetching, Booth, set, keep, Asks, films, locks_filmed, stores, stores1,
  unlocks_stored, asks, locks_asking, fetches, unlocks_fetched, Turns, here, next,
}

module _ {Frame : Type 0} where
  -- The images of the robot are those that the threads share.
  abbrev pub Shows : Booth Frame → Bler Frame → Type 0
  Shows s r = (s.latest ≡ r.latest_camera_frame) × (s.latest1 ≡ r.latest_camera1_frame)

  keep-Shows :
      (s : Booth Frame) (r : Bler Frame) (img img1 : Option Frame)
      → Shows s r
      → (keep img s.latest ≡ (camera_read_round r img img1).latest_camera_frame)
        × (keep img1 s.latest1 ≡ (camera_read_round r img img1).latest_camera1_frame)
  unfolding camera_read_round
  keep-Shows s r none none shows = shows
  keep-Shows s r (some img) none (e, e1) = (refl, e1)
  keep-Shows s r none (some img1) (e, e1) = (e, refl)
  keep-Shows s r (some img) (some img1) shows = (refl, refl)

  stores-round :
      (s : Booth Frame) (img img1 : Option Frame)
      → s.holder ≡ none
      → s.pc camera_read ≡ outside
      → (u : Booth Frame) × Turns s u
        × (u.latest ≡ keep img s.latest)
        × (u.latest1 ≡ keep img1 s.latest1)
        × (u.holder ≡ none)
  stores-round s img img1 free e = (
    _,
    next
        (next
          (next (next (next here (films img img1 e)) (locks_filmed img img1 refl free))
            (stores img img1 refl))
          (stores1 img1 refl))
        (unlocks_stored refl),
    refl,
    refl,
    refl,
  )

  fetches-round :
      (s : Booth Frame) (t : Thread) (id : ℕ)
      → Asks t id
      → s.holder ≡ none
      → s.pc t ≡ outside
      → (u : Booth Frame) × Turns s u
        × (u.got ≡ (if id == 0 then s.latest else s.latest1) ∷ s.got)
        × (u.holder ≡ none)
  fetches-round s t id who free e = (
    _,
    next
        (next (next (next here (asks t id who e)) (locks_asking t id (set_same s.pc t _) free))
          (fetches t id (set_same (set s.pc t (asking id)) t _)))
        (unlocks_fetched t _ (set_same (set (set s.pc t (asking id)) t (fetching id)) t _)),
    refl,
    refl,
  )

  -- While nobody holds the mutex, a round of `CameraReadThread` and a call of `SendCameraImage` that
  -- are made as one step are runs of the turns: the images afterwards are those of the round, and the
  -- image that is fetched is the one that the call sends.
  pub rounds-Turns :
      (imencode : Frame → ℕ → Option (List ℕ)) (sys : Sockets) (r : Bler Frame) (s : Booth Frame)
      (img img1 : Option Frame) (t : Thread) (id : ℕ) (link : Link)
      → Shows s r
      → s.holder ≡ none
      → s.pc camera_read ≡ outside
      → Asks t id
      → s.pc t ≡ outside
      → ((u : Booth Frame) × Turns s u × Shows u (camera_read_round r img img1))
        × ((u : Booth Frame) × (fetch : Option Frame) × Turns s u
            × (u.got ≡ fetch ∷ s.got)
            × (send_camera_image imencode sys r id link ≡ send_frame imencode sys r id link fetch))
  unfolding send_camera_image
  rounds-Turns imencode sys r s img img1 t id link (e, e1) free out who out' =
      let (u, turns, new, new1, _) = stores-round s img img1 free out in
      let (kept, kept1) = keep-Shows s r img img1 (e, e1) in
      let (v, turns', got, _) = fetches-round s t id who free out' in
      ((u, turns, (new ∙ kept, new1 ∙ kept1)), (v, _, turns', got, rw (e, e1) refl))
