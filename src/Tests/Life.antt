-- ===== src/Tests/Life.antt =====
-- The life of the robot's object and of its mutex, at concrete inputs.
use lame.Prelude.{ℕ, ◌≡◌, refl, true, false, List, [], ◌∷◌, All, Option, none, some, ok}
use lame.Prelude.Int.{pos}
use lame.CommandLine.{
  Options, default_options, same_string, flag_of, argument, assign, take_value, take_flag,
  take_argument, parse_arguments, robot_options,
}
use lame.Bler.State.{remote}
use lame.Bler.Startup.{Thread, udp_read, camera_send}
use lame.Bler.Life.{Birth, Answers, Exit, main}
use lame.Bler.Life.Ends.{Ends, main_lem}
use lame.Bler.Camera.{send_frame, send_camera_image, camera_read_round}
use lame.Bler.Camera.Mutex.{
  Booth, inside, begin_booth, by_packet, by_timer, films, locks_filmed, stores, stores1,
  unlocks_stored, asks, locks_asking, fetches, unlocks_fetched, Turns, here, next,
}
use lame.Bler.Camera.Mutex.Given.{IsGiven}
use lame.Bler.Camera.Mutex.Exclusive.{Turns-exclusive}
use lame.Bler.Camera.Mutex.Released.{Turns-released}
use lame.Bler.Camera.Mutex.Rounds.{Shows, rounds-Turns}
use lame.Tests.Samples.{linux, compress, station, robot_in, around}

-- `bler -s /x`, with an `atoi` that reads every string as 7.
abbrev with_port : List (List ℕ)
with_port = (98 ∷ []) ∷ (45 ∷ 115 ∷ []) ∷ (47 ∷ 120 ∷ []) ∷ []

abbrev chosen : Options
chosen = record default_options { serial_port = 47 ∷ 120 ∷ [] }

with_port-read : robot_options (λ _. pos 7) with_port ≡ ok (some chosen)
unfolding same_string flag_of argument assign take_value take_flag take_argument parse_arguments
    robot_options
with_port-read = refl

abbrev birth : Birth
birth = record { stale_addr = station; stale_handle = pos 77; now = 1000; fd = pos 3 }

-- The address of the socket is in use.
abbrev in_use : Answers
in_use = record { sock_handle = pos 4; binds = false; fd = pos 5; joysticks_initialize = true }

main_lem_example :
    (e : Exit ℕ) × (main (λ _. pos 7) linux with_port birth in_use ≡ ok e)
    × Ends (some chosen) in_use e
main_lem_example = main_lem (λ _. pos 7) linux with_port birth in_use (some chosen) with_port-read

abbrev busy_run : (s : Booth ℕ) × Turns begin_booth s
busy_run = (
  _,
  next
      (next
        (next
          (next
            (next
              (next
                (next
                  (next
                    (next (next (next here (films (some 9) none refl)) (locks_filmed _ _ refl refl))
                      (stores _ _ refl))
                    (stores1 _ refl))
                  (unlocks_stored refl))
                (asks udp_read 0 (by_packet 0) refl))
              (locks_asking udp_read 0 refl refl))
            (fetches udp_read 0 refl))
          (unlocks_fetched udp_read (some 9) refl))
        (asks camera_send 1 by_timer refl))
      (locks_asking camera_send 1 refl refl),
)

Turns-exclusive_example :
    ((t u : Thread) → inside (busy_run.0.pc t) ≡ true → inside (busy_run.0.pc u) ≡ true → t ≡ u)
    × All (IsGiven {Frame = ℕ} (9 ∷ [])) (some 9 ∷ [])
Turns-exclusive_example = Turns-exclusive busy_run.0 busy_run.1

Turns-released_example : (u : Booth ℕ) × Turns busy_run.0 u × (u.holder ≡ none)
Turns-released_example = Turns-released busy_run.0 camera_send busy_run.1 refl

abbrev shown_booth : Booth ℕ
shown_booth = record begin_booth { latest = some 7 }

rounds-Turns_example :
    ((u : Booth ℕ) × Turns shown_booth u
      × Shows u (camera_read_round (robot_in remote) (some 9) none))
    × ((u : Booth ℕ) × (fetch : Option ℕ) × Turns shown_booth u
        × (u.got ≡ fetch ∷ [])
        × (send_camera_image compress linux (robot_in remote) 0 around.link
            ≡ send_frame compress linux (robot_in remote) 0 around.link fetch))
rounds-Turns_example =
    rounds-Turns compress linux (robot_in remote) shown_booth (some 9) none udp_read 0 around.link
      (refl, refl) refl refl (by_packet 0) refl
