-- ===== src/MainWindow/Joystick/Limits.antt =====
-- The limits within which `ReadJoystickValues` of BaseStation/BaseStation/MainWindow.xaml.cs stays.
use lame.Prelude.{
  ℕ, zero, suc, ◌/◌, ◌≤◌, ◌≡◌, refl, inl, inr, Bool, true, false, Bool-cases, ◌&&◌, ltb, ◌==◌, List,
  arith, ok, ◌>>=◌, if◌then◌else◌,
}
use native.Mathlib.Nat.{div-le_self}
use lame.Prelude.Int.{ℤ, pos, negsuc, neg_part}
use lame.Bler.Sending.{Event}
use lame.MainWindow.State.{Window}
use lame.MainWindow.Joystick.{
  Xbox, Pilot, begin_pilot, clamp, magnitude, js_deadzone, neg_int, deadzone, may_toggle,
  next_scooper, next_vibrator, toggle_scooper, toggle_vibrator, scale, divide, read_controls,
  scale_stick, speeds_of, send_speeds, fly,
}

-- What the joystick library promises: sticks from -100 to 100, triggers up to 100.
pub record IsXbox (xbox : Xbox) : Type 0 where
  pub left_y : (id : ℕ) (y : ℤ) → magnitude y ≤ 100 → magnitude (xbox.get_left_y id y) ≤ 100
  pub right_y : (id : ℕ) (y : ℤ) → magnitude y ≤ 100 → magnitude (xbox.get_right_y id y) ≤ 100
  pub left_trigger :
      (id : ℕ) (y : ℤ) → magnitude y ≤ 100 → magnitude (xbox.get_left_trigger id y) ≤ 100
  pub right_trigger :
      (id : ℕ) (y : ℤ) → magnitude y ≤ 100 → magnitude (xbox.get_right_trigger id y) ≤ 100

pub record IsPilot (p : Pilot) : Type 0 where
  pub left_y : magnitude p.left_y ≤ 100
  pub right_y : magnitude p.right_y ≤ 100
  pub left_trigger : magnitude p.left_trigger ≤ 100
  pub right_trigger : magnitude p.right_trigger ≤ 100
  pub scooper : p.scooper_speed ≤ 100
  pub vibrator : p.vibrator_speed ≤ 100
  pub divisor_low : 1 ≤ p.speed_divisor
  pub divisor_high : p.speed_divisor ≤ 5

pub begin_pilot-IsPilot : (now : ℕ) → IsPilot (begin_pilot now)
unfolding begin_pilot
begin_pilot-IsPilot now = record {
  left_y = omega arith;
  right_y = omega arith;
  left_trigger = omega arith;
  right_trigger = omega arith;
  scooper = omega arith;
  vibrator = omega arith;
  divisor_low = omega arith;
  divisor_high = omega arith;
}

toggle_scooper-IsPilot :
    (now : ℕ) (a : Bool) (p : Pilot) → IsPilot p → IsPilot (toggle_scooper now a p)
unfolding toggle_scooper next_scooper
toggle_scooper-IsPilot now a p inv = elim (Bool-cases (a && may_toggle now p.last_scooper_toggle)) [
  | inl toggled ↦ rw toggled (record {
    left_y = inv.left_y;
    right_y = inv.right_y;
    left_trigger = inv.left_trigger;
    right_trigger = inv.right_trigger;
    scooper = ground arith;
    vibrator = inv.vibrator;
    divisor_low = inv.divisor_low;
    divisor_high = inv.divisor_high;
  })
  | inr kept ↦ rw kept inv
]

toggle_vibrator-IsPilot :
    (now : ℕ) (x : Bool) (p : Pilot) → IsPilot p → IsPilot (toggle_vibrator now x p)
unfolding toggle_vibrator next_vibrator
toggle_vibrator-IsPilot now x p inv =
    elim (Bool-cases (x && may_toggle now p.last_vibrator_toggle)) [
      | inl toggled ↦ rw toggled (record {
        left_y = inv.left_y;
        right_y = inv.right_y;
        left_trigger = inv.left_trigger;
        right_trigger = inv.right_trigger;
        scooper = inv.scooper;
        vibrator = ground arith;
        divisor_low = inv.divisor_low;
        divisor_high = inv.divisor_high;
      })
      | inr kept ↦ rw kept inv
    ]

scale-low : (north south : Bool) (d : ℕ) → 1 ≤ d → 1 ≤ scale north south d
unfolding scale clamp
scale-low true south d low = ground arith
scale-low false true d low = ground arith
scale-low false false d low = low

scale-high : (north south : Bool) (d : ℕ) → d ≤ 5 → scale north south d ≤ 5
unfolding scale clamp
scale-high true south d high = ground arith
scale-high false true d high = ground arith
scale-high false false d high = high

read_controls-IsPilot :
    (xbox : Xbox) (now : ℕ) (p : Pilot) (id : ℕ)
    → IsXbox xbox
    → IsPilot p
    → IsPilot (read_controls xbox now p id)
unfolding read_controls
read_controls-IsPilot xbox now p id promised inv =
    let read = record p {
      left_y = xbox.get_left_y id p.left_y;
      right_y = xbox.get_right_y id p.right_y;
      left_trigger = xbox.get_left_trigger id p.left_trigger;
      right_trigger = xbox.get_right_trigger id p.right_trigger;
    } in
    let fresh : IsPilot read = record {
      left_y = promised.left_y id p.left_y inv.left_y;
      right_y = promised.right_y id p.right_y inv.right_y;
      left_trigger = promised.left_trigger id p.left_trigger inv.left_trigger;
      right_trigger = promised.right_trigger id p.right_trigger inv.right_trigger;
      scooper = inv.scooper;
      vibrator = inv.vibrator;
      divisor_low = inv.divisor_low;
      divisor_high = inv.divisor_high;
    } in
    let toggled =
      toggle_vibrator-IsPilot now (xbox.x_pressed id) _
        (toggle_scooper-IsPilot now (xbox.a_pressed id) read fresh) in
    record {
      left_y = toggled.left_y;
      right_y = toggled.right_y;
      left_trigger = toggled.left_trigger;
      right_trigger = toggled.right_trigger;
      scooper = toggled.scooper;
      vibrator = toggled.vibrator;
      divisor_low = scale-low (xbox.is_north id) (xbox.is_south id) _ toggled.divisor_low;
      divisor_high = scale-high (xbox.is_north id) (xbox.is_south id) _ toggled.divisor_high;
    }

neg_int-magnitude : (n : ℕ) → magnitude (neg_int (pos n)) ≡ n
unfolding neg_int
neg_int-magnitude zero = refl
neg_int-magnitude (suc n) = omega arith

divide_lem :
    (y : ℤ) (d : ℕ)
    → magnitude y ≤ 100
    → 1 ≤ d
    → (y' : ℤ) × (divide y d ≡ ok y') × (magnitude y' ≤ 100)
unfolding divide neg_int
divide_lem y zero small low = absurd (omega arith)
divide_lem (pos n) (suc d) small low = (pos (n / suc d), refl, omega (arith, div-le_self n (suc d)))
divide_lem (negsuc n) (suc d) small low = (
  neg_int (pos (suc n / suc d)),
  refl,
  omega (arith, div-le_self (suc n) (suc d), neg_int-magnitude (suc n / suc d)),
)

deadzone_lem : (y : ℤ) → magnitude y ≤ 100 → (y' : ℤ) × (deadzone y ≡ ok y') × (magnitude y' ≤ 100)
unfolding deadzone
deadzone_lem y small =
    let no_least : (neg_part y == 2147483648) ≡ false = ground arith in
    rw no_least (if ltb (magnitude y) js_deadzone then pos 0 else y, refl, ground arith)

scale_stick_lem :
    (y : ℤ) (d : ℕ)
    → magnitude y ≤ 100
    → 1 ≤ d
    → (y' : ℤ) × (scale_stick y d ≡ ok y') × (magnitude y' ≤ 100)
unfolding scale_stick
scale_stick_lem y d small low =
    let (kept, is_kept, kept_small) = deadzone_lem y small in
    let (out, divided, out_small) = divide_lem kept d kept_small low in
    (out, rw is_kept divided, out_small)

-- A round with the joystick comes to the sending, within the limits.
pub fly_lem :
    (xbox : Xbox) (now : ℕ) (w : Window) (p : Pilot) (id : ℕ)
    → IsXbox xbox
    → IsPilot p
    → (flown : Pilot) × IsPilot flown
      × (fly xbox now w p id
          ≡ (send_speeds w (speeds_of flown) >>= λ (events : List Event). ok (flown, events)))
unfolding fly
fly_lem xbox now w p id promised inv =
    let controls = read_controls xbox now p id in
    let read = read_controls-IsPilot xbox now p id promised inv in
    let (right, right_scaled, right_small) =
      scale_stick_lem controls.right_y controls.speed_divisor read.right_y read.divisor_low in
    let (left, left_scaled, left_small) =
      scale_stick_lem controls.left_y controls.speed_divisor read.left_y read.divisor_low in
    (
      record controls { left_y = left; right_y = right },
      record {
        left_y = left_small;
        right_y = right_small;
        left_trigger = read.left_trigger;
        right_trigger = read.right_trigger;
        scooper = read.scooper;
        vibrator = read.vibrator;
        divisor_low = read.divisor_low;
        divisor_high = read.divisor_high;
      },
      rw (right_scaled, left_scaled),
    )
