-- ===== src/Bler/Camera/Mutex/Holding.antt =====
-- The holder of `cameraMutex` in Robot/src/BLER.cpp is the one thread between `lock` and `unlock`.
use lame.Prelude.{◌≡◌, sym, ◌∙◌, inl, inr, true, false, Option, none, some, ap}
use lame.Bler.Startup.{Thread}
use lame.Bler.Camera.Mutex.{Pc, inside, set}
use lame.Bler.Camera.Mutex.Threads.{set-cases, set_same}

unfoldable pub IsHeld : {Frame : Type 0} → Option Thread → (Thread → Pc Frame) → Type 0
IsHeld holder pc = (u : Thread) → inside (pc u) ≡ true → holder ≡ some u

thread_or : Thread → Option Thread → Thread
thread_or t none = t
thread_or t (some u) = u

pub some_injective : {t u : Thread} → some t ≡ some u → t ≡ u
unfolding thread_or
some_injective {t} e = ap (thread_or t) e

module _ {Frame : Type 0} (holder : Option Thread) (pc : Thread → Pc Frame) (t : Thread)
    (p : Pc Frame) (held : IsHeld holder pc) where
  -- A step on the same side of the mutex.
  pub quiet-IsHeld : (inside p ≡ true → inside (pc t) ≡ true) → IsHeld holder (set pc t p)
  unfolding IsHeld
  quiet-IsHeld kept u e = elim (set-cases pc t u p) [
    | inl (same, new) ↦ rw same at (held t (kept (ap inside (sym new) ∙ e)))
    | inr old ↦ held u (ap inside (sym old) ∙ e)
  ]

  pub lock-IsHeld : holder ≡ none → IsHeld (some t) (set pc t p)
  unfolding IsHeld
  lock-IsHeld free u e = elim (set-cases pc t u p) [
    | inl (same, new) ↦ ap some same
    | inr old ↦ absurd (cc (free, held u (ap inside (sym old) ∙ e)))
  ]

  pub unlock-IsHeld : inside (pc t) ≡ true → inside p ≡ false → IsHeld none (set pc t p)
  unfolding IsHeld
  unlock-IsHeld was out u e = elim (set-cases pc t u p) [
    | inl (same, new) ↦ absurd (cc (out, ap inside (sym new) ∙ e))
    | inr old ↦
        let one : t ≡ u = some_injective (sym (held t was) ∙ held u (ap inside (sym old) ∙ e)) in
        let inner : inside p ≡ true = ap inside (sym (set_same pc t p) ∙ ap (set pc t p) one) ∙ e in
        absurd (cc (out, inner))
  ]
