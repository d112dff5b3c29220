-- ===== src/Bler/Camera/Mutex/Threads.antt =====
-- The threads of Robot/src/BLER.cpp, told apart.
use lame.Prelude.{◌≡◌, refl, ◌⊎◌, inl, inr, ◌==◌, Bool-cases, ==_iff, arith}
use lame.Bler.Startup.{Thread, tag}
use lame.Bler.Camera.Mutex.{set}

tag_injective : (t u : Thread) → tag t ≡ tag u → t ≡ u
tag_injective t u e = ground (arith, e)

-- The thread that moves, or another one.
pub set-cases :
    {A : Type 0} (f : Thread → A) (t u : Thread) (a : A)
    → ((t ≡ u) × (set f t a u ≡ a)) ⊎ (set f t a u ≡ f u)
set-cases f t u a = elim (Bool-cases (tag t == tag u)) [
  | inl same ↦ inl (tag_injective t u ((==_iff (tag t) (tag u)).0 same), rw same refl)
  | inr other ↦ inr (rw other refl)
]

pub set_same : {A : Type 0} (f : Thread → A) (t : Thread) (a : A) → set f t a t ≡ a
set_same f t a = rw ((==_iff (tag t) (tag t)).1 refl) refl

-- What holds of every thread.
pub set-each :
    {A : Type 0} (P : Thread → A → Type 0) (f : Thread → A) (t : Thread) (a : A)
    → P t a
    → ((u : Thread) → P u (f u))
    → (u : Thread) → P u (set f t a u)
set-each P f t a new old u = elim (set-cases f t u a) [
  | inl (same, e) ↦ rw e (rw same at new)
  | inr e ↦ rw e (old u)
]

pub set-all :
    {A : Type 0} (P : A → Type 0) (f : Thread → A) (t : Thread) (a : A)
    → P a
    → ((u : Thread) → P (f u))
    → (u : Thread) → P (set f t a u)
set-all P f t a new old u = set-each (λ v. P) f t a new old u
