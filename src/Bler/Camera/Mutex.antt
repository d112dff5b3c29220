-- ===== src/Bler/Camera/Mutex.antt =====
-- `cameraMutex` of Robot/src/BLER.cpp: `CameraReadThread` stores the latest images under it, and
-- `SendCameraImage`, which the UDP thread and `CameraSendThread` call, fetches them under it. The
-- steps are the accesses to the mutex and to the images.
pub mod Threads
pub mod Holding
pub mod Given
pub mod Exclusive
pub mod Released
pub mod Rounds
use lame.Prelude.{ℕ, ◌≡◌, Bool, true, false, List, [], ◌∷◌, Option, none, some, ◌==◌, if◌then◌else◌}
use lame.Bler.State.{Bler}
use lame.Bler.Startup.{Thread, udp_read, camera_read, camera_send, tag}

-- Where a thread stands, with its local variables.
pub data Pc (Frame : Type 0) : Type 0 where
  outside : Pc Frame
  filmed : Option Frame → Option Frame → Pc Frame
  storing : Option Frame → Option Frame → Pc Frame
  storing1 : Option Frame → Pc Frame
  stored : Pc Frame
  asking : ℕ → Pc Frame
  fetching : ℕ → Pc Frame
  fetched : Option Frame → Pc Frame

-- Between `lock` and `unlock`.
abbrev pub inside : {Frame : Type 0} → Pc Frame → Bool
inside outside = false
inside (filmed img img1) = false
inside (storing img img1) = true
inside (storing1 img1) = true
inside stored = true
inside (asking id) = false
inside (fetching id) = true
inside (fetched img) = true

-- `given` has the images that the cameras gave and `got` those that were fetched.
pub record Booth (Frame : Type 0) : Type 0 where
  pub latest : Option Frame
  pub latest1 : Option Frame
  pub holder : Option Thread
  pub pc : Thread → Pc Frame
  pub given : List Frame
  pub got : List (Option Frame)

abbrev pub set : {A : Type 0} → (Thread → A) → Thread → A → Thread → A
set f t a u = if tag t == tag u then a else f u

-- `if (img.data) latest = img;`
abbrev pub keep : {Frame : Type 0} → Option Frame → Option Frame → Option Frame
keep none latest = latest
keep (some img) latest = some img

abbrev pub add : {Frame : Type 0} → Option Frame → List Frame → List Frame
add none given = given
add (some img) given = img ∷ given

-- Who asks for which image: a packet, or the timer of `CameraSendThread`.
pub data Asks : Thread → ℕ → Type 0 where
  by_packet : (id : ℕ) → Asks udp_read id
  by_timer : Asks camera_send 1

abbrev pub begin_booth : {Frame : Type 0} → Booth Frame
begin_booth = record {
  latest = none;
  latest1 = none;
  holder = none;
  pc = λ t. outside;
  given = [];
  got = [];
}

module _ {Frame : Type 0} where
  pub data Turn (s : Booth Frame) : Booth Frame → Type 0 where
    films :
        (img img1 : Option Frame)
        → s.pc camera_read ≡ outside
        → Turn s (record s {
          pc = set s.pc camera_read (filmed img img1);
          given = add img (add img1 s.given);
        })
    skips :
        s.pc camera_read ≡ filmed none none
        → Turn s (record s { pc = set s.pc camera_read outside })
    locks_filmed :
        (img img1 : Option Frame)
        → s.pc camera_read ≡ filmed img img1
        → s.holder ≡ none
        → Turn s
            (record s { holder = some camera_read; pc = set s.pc camera_read (storing img img1) })
    stores :
        (img img1 : Option Frame)
        → s.pc camera_read ≡ storing img img1
        → Turn s
            (record s { latest = keep img s.latest; pc = set s.pc camera_read (storing1 img1) })
    stores1 :
        (img1 : Option Frame)
        → s.pc camera_read ≡ storing1 img1
        → Turn s (record s { latest1 = keep img1 s.latest1; pc = set s.pc camera_read stored })
    unlocks_stored :
        s.pc camera_read ≡ stored
        → Turn s (record s { holder = none; pc = set s.pc camera_read outside })
    asks :
        (t : Thread) (id : ℕ)
        → Asks t id
        → s.pc t ≡ outside
        → Turn s (record s { pc = set s.pc t (asking id) })
    locks_asking :
        (t : Thread) (id : ℕ)
        → s.pc t ≡ asking id
        → s.holder ≡ none
        → Turn s (record s { holder = some t; pc = set s.pc t (fetching id) })
    fetches :
        (t : Thread) (id : ℕ)
        → s.pc t ≡ fetching id
        → Turn s (record s { pc = set s.pc t (fetched (if id == 0 then s.latest else s.latest1)) })
    unlocks_fetched :
        (t : Thread) (img : Option Frame)
        → s.pc t ≡ fetched img
        → Turn s (record s { holder = none; pc = set s.pc t outside; got = img ∷ s.got })

  pub data Turns (s : Booth Frame) : Booth Frame → Type 0 where
    here : Turns s s
    next : {t u : Booth Frame} → Turns s t → Turn t u → Turns s u
