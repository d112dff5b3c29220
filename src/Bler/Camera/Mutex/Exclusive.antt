-- ===== src/Bler/Camera/Mutex/Exclusive.antt =====
-- What `cameraMutex` of Robot/src/BLER.cpp ensures.
use lame.Prelude.{◌≡◌, refl, sym, ◌∙◌, ap, true, Option, none, some, All, ◌==◌, if◌then◌else◌}
use lame.Bler.Startup.{Thread, camera_read}
use lame.Bler.Camera.Mutex.Threads.{set-all}
use lame.Bler.Camera.Mutex.Given.{
  IsGiven, LocalsGiven, keep-IsGiven, if-IsGiven, add-IsGiven, add-here, add-LocalsGiven, add-got,
}
use lame.Bler.Camera.Mutex.Holding.{
  IsHeld, quiet-IsHeld, lock-IsHeld, unlock-IsHeld, some_injective,
}
use lame.Bler.Camera.Mutex.{
  Pc, outside, filmed, storing, storing1, stored, asking, fetching, fetched, inside, Booth, set,
  add, begin_booth, Turn, films, skips, locks_filmed, stores, stores1, unlocks_stored, asks,
  locks_asking, fetches, unlocks_fetched, Turns, here, next,
}

pub record IsGuarded {Frame : Type 0} (s : Booth Frame) : Type 0 where
  pub held : IsHeld s.holder s.pc
  pub locals : (t : Thread) → LocalsGiven s.given (s.pc t)
  pub latest : IsGiven s.given s.latest
  pub latest1 : IsGiven s.given s.latest1
  pub got : All (IsGiven s.given) s.got

module _ {Frame : Type 0} where
  -- The cameras have given two images.
  film-IsGuarded :
      (s : Booth Frame) (img img1 : Option Frame)
      → s.pc camera_read ≡ outside
      → IsGuarded s
      → IsGuarded (record s {
        pc = set s.pc camera_read (filmed img img1);
        given = add img (add img1 s.given);
      })
  film-IsGuarded s img img1 e k =
      let more : (x : Option Frame) → IsGiven s.given x → IsGiven (add img (add img1 s.given)) x =
        λ x g. add-IsGiven (add img1 s.given) img x (add-IsGiven s.given img1 x g) in
      record {
        held = quiet-IsHeld s.holder s.pc camera_read _ k.held (λ i. absurd (cc i));
        locals =
            set-all (LocalsGiven (add img (add img1 s.given))) s.pc camera_read (filmed img img1)
              (add-here (add img1 s.given) img, add-IsGiven _ img img1 (add-here s.given img1))
              (λ u.
                add-LocalsGiven _ img (s.pc u)
                  (add-LocalsGiven s.given img1 (s.pc u) (k.locals u)));
        latest = more s.latest k.latest;
        latest1 = more s.latest1 k.latest1;
        got = add-got _ img s.got (add-got s.given img1 s.got k.got);
      }

  -- Another step of a thread, which keeps what the images are.
  step-IsGuarded :
      (s : Booth Frame) (t : Thread) (p : Pc Frame) (holder : Option Thread)
      → IsHeld holder (set s.pc t p)
      → LocalsGiven s.given p
      → IsGuarded s
      → IsGuarded (record s { holder = holder; pc = set s.pc t p })
  step-IsGuarded s t p holder held local k = record {
    held = held;
    locals = set-all (LocalsGiven s.given) s.pc t p local k.locals;
    latest = k.latest;
    latest1 = k.latest1;
    got = k.got;
  }

  Turn-IsGuarded : (s t : Booth Frame) → IsGuarded s → Turn s t → IsGuarded t
  Turn-IsGuarded s t k (films img img1 e) = film-IsGuarded s img img1 e k
  Turn-IsGuarded s t k (skips e) =
      step-IsGuarded s camera_read outside s.holder
        (quiet-IsHeld s.holder s.pc camera_read _ k.held (λ i. absurd (cc i))) tt k
  Turn-IsGuarded s t k (locks_filmed img img1 e free) =
      step-IsGuarded s camera_read (storing img img1) (some camera_read)
        (lock-IsHeld s.holder s.pc camera_read _ k.held free) (rw e at (k.locals camera_read)) k
  Turn-IsGuarded s t k (stores img img1 e) =
      let (new, new1) = rw e at (k.locals camera_read) in
      let k' =
        step-IsGuarded s camera_read (storing1 img1) s.holder
          (quiet-IsHeld s.holder s.pc camera_read _ k.held (λ i. ap inside e)) new1 k in
      record {
        held = k'.held;
        locals = k'.locals;
        latest = keep-IsGiven s.given img s.latest new k.latest;
        latest1 = k.latest1;
        got = k.got;
      }
  Turn-IsGuarded s t k (stores1 img1 e) =
      let k' =
        step-IsGuarded s camera_read stored s.holder
          (quiet-IsHeld s.holder s.pc camera_read _ k.held (λ i. ap inside e)) tt k in
      record {
        held = k'.held;
        locals = k'.locals;
        latest = k.latest;
        latest1 = keep-IsGiven s.given img1 s.latest1 (rw e at (k.locals camera_read)) k.latest1;
        got = k.got;
      }
  Turn-IsGuarded s t k (unlocks_stored e) =
      step-IsGuarded s camera_read outside none
        (unlock-IsHeld s.holder s.pc camera_read _ k.held (ap inside e) refl) tt k
  Turn-IsGuarded s t k (asks u id who e) =
      step-IsGuarded s u (asking id) s.holder
        (quiet-IsHeld s.holder s.pc u _ k.held (λ i. absurd (cc i))) tt k
  Turn-IsGuarded s t k (locks_asking u id e free) =
      step-IsGuarded s u (fetching id) (some u) (lock-IsHeld s.holder s.pc u _ k.held free) tt k
  Turn-IsGuarded s t k (fetches u id e) =
      step-IsGuarded s u (fetched (if id == 0 then s.latest else s.latest1)) s.holder
        (quiet-IsHeld s.holder s.pc u _ k.held (λ i. ap inside e))
        (if-IsGiven s.given (id == 0) s.latest s.latest1 k.latest k.latest1) k
  Turn-IsGuarded s t k (unlocks_fetched u img e) =
      let k' =
        step-IsGuarded s u outside none (unlock-IsHeld s.holder s.pc u _ k.held (ap inside e) refl)
          tt k in
      record {
        held = k'.held;
        locals = k'.locals;
        latest = k.latest;
        latest1 = k.latest1;
        got = (rw e at (k.locals u), k.got);
      }

  begin_booth-IsGuarded : IsGuarded (begin_booth {Frame = Frame})
  unfolding IsHeld
  begin_booth-IsGuarded = record {
    held = λ u e. absurd (cc e);
    locals = λ t. tt;
    latest = tt;
    latest1 = tt;
    got = tt;
  }

  pub Turns-IsGuarded : (s t : Booth Frame) → IsGuarded s → Turns s t → IsGuarded t
  Turns-IsGuarded s t k here = k
  Turns-IsGuarded s t k (next {t = m} before turn) =
      Turn-IsGuarded m t (Turns-IsGuarded s m k before) turn

  -- However the threads take turns: no two of them are between `lock` and `unlock` at once, and every
  -- image that was fetched for sending is one that a camera gave, or none at all.
  pub Turns-exclusive :
      (s : Booth Frame)
      → Turns begin_booth s
      → ((t u : Thread) → inside (s.pc t) ≡ true → inside (s.pc u) ≡ true → t ≡ u)
        × All (IsGiven s.given) s.got
  unfolding IsHeld
  Turns-exclusive s turns =
      let k = Turns-IsGuarded begin_booth s begin_booth-IsGuarded turns in
      (λ t u e e'. some_injective (sym (k.held t e) ∙ k.held u e'), k.got)
