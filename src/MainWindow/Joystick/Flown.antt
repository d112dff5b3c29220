-- ===== src/MainWindow/Joystick/Flown.antt =====
-- The states that `ReadJoystickValues` of BaseStation/BaseStation/MainWindow.xaml.cs can reach.
use lame.Prelude.{
  ℕ, ◌≤◌, ◌≡◌, inl, inr, Bool, true, false, Bool-cases, List, [], ◌∷◌, arith, Outcome, ok, fault,
  no_fuel, ◌>>=◌,
}
use lame.Prelude.Int.{ℤ, pos, negsuc, ◌≤ℤ◌}
use lame.Bler.Sending.{Event}
use lame.MainWindow.State.{Window}
use lame.MainWindow.Joystick.{
  Xbox, Pilot, begin_pilot, send_speeds, speeds_of, enumerate, contains, fly_if_there, pilot_round,
  override, apply_sliders,
}
use lame.MainWindow.Joystick.Limits.{IsXbox, IsPilot, begin_pilot-IsPilot, fly_lem}

-- The locals of the loop after any rounds, with any joysticks and windows, and any moves of the two
-- sliders in between.
pub data Flown : Pilot → Type 0 where
  begins : (now : ℕ) → Flown (begin_pilot now)
  flies :
      (xbox : Xbox) (now : ℕ) (w : Window) (p p' : Pilot) (events : List Event)
      → IsXbox xbox
      → Flown p
      → pilot_round xbox now w p ≡ ok (p', events)
      → Flown p'
  slides :
      (disp_override vib_override : ℤ) (p : Pilot)
      → disp_override ≤ℤ pos 100
      → vib_override ≤ℤ pos 100
      → Flown p
      → Flown (apply_sliders disp_override vib_override p)

enumerate_js-IsPilot :
    (p : Pilot) (again : Bool) (id : ℤ)
    → IsPilot p
    → IsPilot (record p { enumerate_js = again; js_id = id })
enumerate_js-IsPilot p again id inv = record {
  left_y = inv.left_y;
  right_y = inv.right_y;
  left_trigger = inv.left_trigger;
  right_trigger = inv.right_trigger;
  scooper = inv.scooper;
  vibrator = inv.vibrator;
  divisor_low = inv.divisor_low;
  divisor_high = inv.divisor_high;
}

enumerate-IsPilot : (ids : List ℕ) (p : Pilot) → IsPilot p → IsPilot (enumerate ids p)
unfolding enumerate
enumerate-IsPilot [] p inv = inv
enumerate-IsPilot (id ∷ ids) p inv = enumerate_js-IsPilot p false (pos id) inv

override-small :
    (value : ℤ) (speed : ℕ) → value ≤ℤ pos 100 → speed ≤ 100 → override value speed ≤ 100
unfolding override
override-small (pos n) speed fits small = omega arith
override-small (negsuc n) speed fits small = small

sliders-IsPilot :
    (disp_override vib_override : ℤ) (p : Pilot)
    → disp_override ≤ℤ pos 100
    → vib_override ≤ℤ pos 100
    → IsPilot p
    → IsPilot (apply_sliders disp_override vib_override p)
unfolding apply_sliders
sliders-IsPilot d v p d_fits v_fits inv = record {
  left_y = inv.left_y;
  right_y = inv.right_y;
  left_trigger = inv.left_trigger;
  right_trigger = inv.right_trigger;
  scooper = override-small d p.scooper_speed d_fits inv.scooper;
  vibrator = override-small v p.vibrator_speed v_fits inv.vibrator;
  divisor_low = inv.divisor_low;
  divisor_high = inv.divisor_high;
}

-- A round that ends leaves locals within their limits.
EndsWithin : Outcome (Pilot × List Event) → Type 0
EndsWithin (ok (p, events)) = IsPilot p
EndsWithin fault = Unit
EndsWithin no_fuel = Unit

sent-EndsWithin :
    (sent : Outcome (List Event)) (flown : Pilot)
    → IsPilot flown
    → EndsWithin (◌>>=◌ {B = Pilot × List Event} sent (λ (events : List Event). ok (flown, events)))
unfolding EndsWithin
sent-EndsWithin (ok events) flown within = within
sent-EndsWithin fault flown within = tt
sent-EndsWithin no_fuel flown within = tt

fly_if_there-EndsWithin :
    (xbox : Xbox) (now : ℕ) (w : Window) (p : Pilot) (id : ℤ)
    → IsXbox xbox
    → IsPilot p
    → EndsWithin (fly_if_there xbox now w p id)
unfolding fly_if_there EndsWithin
fly_if_there-EndsWithin xbox now w p (negsuc n) promised inv =
    enumerate_js-IsPilot p true p.js_id inv
fly_if_there-EndsWithin xbox now w p (pos id) promised inv =
    elim (Bool-cases (contains xbox.ids id)) [
      | inl there ↦
          let (flown, within, ends) = fly_lem xbox now w p id promised inv in
          rw (there, ends) (sent-EndsWithin (send_speeds w (speeds_of flown)) flown within)
      | inr gone ↦ rw gone (enumerate_js-IsPilot p true p.js_id inv)
    ]

pilot_round-EndsWithin :
    (xbox : Xbox) (now : ℕ) (w : Window) (p : Pilot)
    → IsXbox xbox
    → IsPilot p
    → EndsWithin (pilot_round xbox now w p)
unfolding pilot_round EndsWithin
pilot_round-EndsWithin xbox now w p promised inv = elim (Bool-cases p.enumerate_js) [
  | inl searching ↦ simp searching (enumerate-IsPilot xbox.ids p inv)
  | inr found ↦ simp found (fly_if_there-EndsWithin xbox now w p p.js_id promised inv)
]

-- Whatever the operator does and whichever joysticks come and go, if the joystick library keeps to
-- its ranges: the speeds stay from -100 to 100, those of the scooper and the vibrator from 0 to 100,
-- and the divisor of the speeds stays from 1 to 5.
pub Flown-IsPilot : (p : Pilot) → Flown p → IsPilot p
unfolding EndsWithin
Flown-IsPilot p (begins now) = begin_pilot-IsPilot now
Flown-IsPilot p (flies xbox now w p0 p' events promised before round) =
    rw round at (pilot_round-EndsWithin xbox now w p0 promised (Flown-IsPilot p0 before))
Flown-IsPilot p (slides d v p0 d_fits v_fits before) =
    sliders-IsPilot d v p0 d_fits v_fits (Flown-IsPilot p0 before)
