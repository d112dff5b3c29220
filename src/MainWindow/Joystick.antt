-- ===== src/MainWindow/Joystick.antt =====
-- BaseStation/BaseStation/MainWindow.xaml.cs: `ReadJoystickValues`, and `Clamp` of
-- BaseStation/BaseStation/Util.cs. An `int` that stays small and positive is a ℕ; `DateTime.Now` is in
-- milliseconds and does not move during a round; `lastPacket`, which nothing reads, is left out.
pub mod Limits
pub mod Flown
pub mod Driven
use lame.Prelude.{
  ℕ, zero, suc, ◌+◌, ◌-◌, ◌/◌, ◌%◌, Bool, true, false, not, ◌&&◌, ◌||◌, ltb, ◌==◌, List, [], ◌∷◌,
  Outcome, ok, fault, ◌>>=◌, if◌then◌else◌,
}
use lame.Prelude.Int.{ℤ, pos, negsuc, pos_part, neg_part}
use lame.Bler.Sending.{Event}
use lame.PacketHandler.{Drive, get_drive_packet}
use lame.MainWindow.State.{DriveMode, direct, remote, ai, Window, send}

abbrev pub js_deadzone : ℕ
js_deadzone = 15

abbrev pub scooper_inc : ℕ
scooper_inc = 10

abbrev pub scooper_min : ℕ
scooper_min = 10

abbrev pub scooper_max : ℕ
scooper_max = 15

abbrev pub vib_inc : ℕ
vib_inc = 10

abbrev pub vib_max : ℕ
vib_max = 30

abbrev pub default_speed_divisor : ℕ
default_speed_divisor = 2

abbrev pub max_speed_divisor : ℕ
max_speed_divisor = 5

-- The joystick library's answers in one round. A getter is given the `ref` variable's old value and
-- gives its new one; the last two say whether the pad gives `POV_NORTH` or `POV_SOUTH`.
pub record Xbox : Type 0 where
  pub ids : List ℕ
  pub get_left_y : ℕ → ℤ → ℤ
  pub get_right_y : ℕ → ℤ → ℤ
  pub get_left_trigger : ℕ → ℤ → ℤ
  pub get_right_trigger : ℕ → ℤ → ℤ
  pub a_pressed : ℕ → Bool
  pub x_pressed : ℕ → Bool
  pub is_north : ℕ → Bool
  pub is_south : ℕ → Bool

-- The locals of `ReadJoystickValues` that live through its loop.
pub record Pilot : Type 0 where
  pub js_id : ℤ
  pub left_y : ℤ
  pub right_y : ℤ
  pub left_trigger : ℤ
  pub right_trigger : ℤ
  pub enumerate_js : Bool
  pub scooper_speed : ℕ
  pub vibrator_speed : ℕ
  pub speed_divisor : ℕ
  pub last_scooper_toggle : ℕ
  pub last_vibrator_toggle : ℕ

unfoldable pub begin_pilot : ℕ → Pilot
begin_pilot now = record {
  js_id = negsuc 0;
  left_y = pos 0;
  right_y = pos 0;
  left_trigger = pos 0;
  right_trigger = pos 0;
  enumerate_js = true;
  scooper_speed = 0;
  vibrator_speed = 0;
  speed_divisor = default_speed_divisor;
  last_scooper_toggle = now;
  last_vibrator_toggle = now;
}

-- `Util.Clamp`.
unfoldable pub clamp : ℕ → ℕ → ℕ → ℕ
clamp val min max = if ltb val min then min else (if ltb max val then max else val)

abbrev pub magnitude : ℤ → ℕ
magnitude a = pos_part a + neg_part a

-- `-a` of an `int`; the least one has no opposite and stays.
unfoldable pub neg_int : ℤ → ℤ
neg_int (pos zero) = pos 0
neg_int (pos (suc n)) = negsuc n
neg_int (negsuc n) = if n == 2147483647 then negsuc n else pos (suc n)

-- `Math.Abs(y) < JS_DEADZONE`; `Math.Abs` throws for the least `int`.
unfoldable pub deadzone : ℤ → Outcome ℤ
deadzone y =
    if neg_part y == 2147483648
    then fault
    else ok (if ltb (magnitude y) js_deadzone then pos 0 else y)

unfoldable pub actuator_speed : ℤ → ℤ → ℤ
actuator_speed left_trigger right_trigger =
    let left = not (magnitude left_trigger == 0) in
    let right = not (magnitude right_trigger == 0) in
    if left && right
    then pos 0
    else (if left then neg_int left_trigger else (if right then right_trigger else pos 0))

-- `(DateTime.Now - toggle).Milliseconds > 200`: the part of the time span below a second.
unfoldable pub may_toggle : ℕ → ℕ → Bool
may_toggle now toggle = ltb 200 ((now - toggle) % 1000)

unfoldable pub next_scooper : ℕ → ℕ
next_scooper scooper_speed =
    if scooper_speed == 0
    then scooper_min
    else (if ltb scooper_max (scooper_speed + scooper_inc) then 0 else scooper_speed + scooper_inc)

unfoldable pub next_vibrator : ℕ → ℕ
next_vibrator vibrator_speed =
    if ltb vib_max (vibrator_speed + vib_inc) then 0 else vibrator_speed + vib_inc

unfoldable pub toggle_scooper : ℕ → Bool → Pilot → Pilot
toggle_scooper now a_pressed p =
    if a_pressed && may_toggle now p.last_scooper_toggle
    then record p { scooper_speed = next_scooper p.scooper_speed; last_scooper_toggle = now }
    else p

unfoldable pub toggle_vibrator : ℕ → Bool → Pilot → Pilot
toggle_vibrator now x_pressed p =
    if x_pressed && may_toggle now p.last_vibrator_toggle
    then record p { vibrator_speed = next_vibrator p.vibrator_speed; last_vibrator_toggle = now }
    else p

unfoldable pub scale : Bool → Bool → ℕ → ℕ
scale north south speed_divisor =
    if north
    then clamp (speed_divisor + 1) 1 max_speed_divisor
    else (if south then clamp (speed_divisor - 1) 1 max_speed_divisor else speed_divisor)

-- `y /= speed_divisor`, toward zero.
unfoldable pub divide : ℤ → ℕ → Outcome ℤ
divide y zero = fault
divide (pos n) (suc d) = ok (pos (n / suc d))
divide (negsuc n) (suc d) = ok (neg_int (pos (suc n / suc d)))

-- The round up to the divisions: what is read, and what the buttons change.
unfoldable pub read_controls : Xbox → ℕ → Pilot → ℕ → Pilot
read_controls xbox now p id =
    let read = record p {
      left_y = xbox.get_left_y id p.left_y;
      right_y = xbox.get_right_y id p.right_y;
      left_trigger = xbox.get_left_trigger id p.left_trigger;
      right_trigger = xbox.get_right_trigger id p.right_trigger;
    } in
    let toggled =
      toggle_vibrator now (xbox.x_pressed id) (toggle_scooper now (xbox.a_pressed id) read) in
    record toggled {
      speed_divisor = scale (xbox.is_north id) (xbox.is_south id) toggled.speed_divisor;
    }

unfoldable pub scale_stick : ℤ → ℕ → Outcome ℤ
scale_stick y speed_divisor = deadzone y >>= λ y'. divide y' speed_divisor

unfoldable pub speeds_of : Pilot → Drive
speeds_of p = record {
  left = p.left_y;
  right = p.right_y;
  actuator = actuator_speed p.left_trigger p.right_trigger;
  scooper = pos p.scooper_speed;
  vibrator = pos p.vibrator_speed;
}

unfoldable pub is_remote : DriveMode → Bool
is_remote remote = true
is_remote direct = false
is_remote ai = false

-- The end of the round.
unfoldable pub send_speeds : Window → Drive → Outcome (List Event)
send_speeds w speeds =
    if not w.is_connected || not (is_remote w.current_drive_mode)
    then ok []
    else get_drive_packet speeds >>= λ buffer. send buffer w.robot_packet_endpoint

unfoldable pub fly : Xbox → ℕ → Window → Pilot → ℕ → Outcome (Pilot × List Event)
fly xbox now w p id =
    let read = read_controls xbox now p id in
    scale_stick read.right_y read.speed_divisor >>= λ right.
    scale_stick read.left_y read.speed_divisor >>= λ left.
    let flown = record read { left_y = left; right_y = right } in
    send_speeds w (speeds_of flown) >>= λ events. ok (flown, events)

unfoldable pub enumerate : List ℕ → Pilot → Pilot
enumerate [] p = p
enumerate (id ∷ ids) p = record p { enumerate_js = false; js_id = pos id }

unfoldable pub contains : List ℕ → ℕ → Bool
contains [] id = false
contains (x ∷ xs) id = x == id || contains xs id

-- No joystick has a negative number.
unfoldable pub fly_if_there : Xbox → ℕ → Window → Pilot → ℤ → Outcome (Pilot × List Event)
fly_if_there xbox now w p (negsuc n) = ok (record p { enumerate_js = true }, [])
fly_if_there xbox now w p (pos id) =
    if contains xbox.ids id then fly xbox now w p id else ok (record p { enumerate_js = true }, [])

-- One round of the loop.
unfoldable pub pilot_round : Xbox → ℕ → Window → Pilot → Outcome (Pilot × List Event)
pilot_round xbox now w p =
    if p.enumerate_js then ok (enumerate xbox.ids p, []) else fly_if_there xbox now w p p.js_id

-- What the loop has the dispatcher do: the two sliders' values, from -1 to 100, win when set.
unfoldable pub override : ℤ → ℕ → ℕ
override (pos value) speed = value
override (negsuc n) speed = speed

unfoldable pub apply_sliders : ℤ → ℤ → Pilot → Pilot
apply_sliders disp_override vib_override p = record p {
  scooper_speed = override disp_override p.scooper_speed;
  vibrator_speed = override vib_override p.vibrator_speed;
}
