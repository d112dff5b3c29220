-- ===== src/Bler/Camera/Mutex/Released.antt =====
-- Whoever has locked `cameraMutex` of Robot/src/BLER.cpp unlocks it.
use lame.Prelude.{◌≡◌, refl, sym, ◌∙◌, ap, true, Option, none, some, ◌==◌, if◌then◌else◌}
use lame.Bler.Startup.{Thread, camera_read}
use lame.Bler.Camera.Mutex.Threads.{set-each, set_same}
use lame.Bler.Camera.Mutex.Holding.{some_injective}
use lame.Bler.Camera.Mutex.{
  Pc, outside, filmed, storing, storing1, stored, asking, fetching, fetched, inside, Booth, set,
  begin_booth, Turn, films, skips, locks_filmed, stores, stores1, unlocks_stored, asks,
  locks_asking, fetches, unlocks_fetched, Turns, here, next,
}

module _ {Frame : Type 0} where
  -- Only `CameraReadThread` stores.
  abbrev Stores : Thread → Pc Frame → Type 0
  Stores t outside = Unit
  Stores t (filmed img img1) = Unit
  Stores t (storing img img1) = t ≡ camera_read
  Stores t (storing1 img1) = t ≡ camera_read
  Stores t stored = t ≡ camera_read
  Stores t (asking id) = Unit
  Stores t (fetching id) = Unit
  Stores t (fetched img) = Unit

  abbrev Engaged : Option Thread → Thread → Pc Frame → Type 0
  Engaged holder t p = holder ≡ some t → inside p ≡ true

  record IsBusy (s : Booth Frame) : Type 0 where
    engaged : (t : Thread) → Engaged s.holder t (s.pc t)
    own : (t : Thread) → Stores t (s.pc t)

  -- A step on the same side of the mutex, and a lock.
  quiet-IsBusy :
      (s : Booth Frame) (t : Thread) (p : Pc Frame)
      → inside p ≡ inside (s.pc t)
      → Stores t p
      → IsBusy s
      → IsBusy (record s { pc = set s.pc t p })
  quiet-IsBusy s t p side stores_own k = record {
    engaged = set-each (Engaged s.holder) s.pc t p (λ e. side ∙ k.engaged t e) k.engaged;
    own = set-each Stores s.pc t p stores_own k.own;
  }

  lock-IsBusy :
      (s : Booth Frame) (t : Thread) (p : Pc Frame)
      → inside p ≡ true
      → Stores t p
      → IsBusy s
      → IsBusy (record s { holder = some t; pc = set s.pc t p })
  lock-IsBusy s t p inner stores_own k = record {
    engaged =
        λ u e. ap inside (ap (set s.pc t p) (sym (some_injective e)) ∙ set_same s.pc t p) ∙ inner;
    own = set-each Stores s.pc t p stores_own k.own;
  }

  unlock-IsBusy :
      (s : Booth Frame) (t : Thread)
      → IsBusy s
      → IsBusy (record s { holder = none; pc = set s.pc t outside })
  unlock-IsBusy s t k = record {
    engaged = λ u e. absurd (cc e);
    own = set-each Stores s.pc t outside tt k.own;
  }

  Turn-IsBusy : (s t : Booth Frame) → IsBusy s → Turn s t → IsBusy t
  Turn-IsBusy s t k (films img img1 e) =
      let k' = quiet-IsBusy s camera_read (filmed img img1) (sym (ap inside e)) tt k in
      record { engaged = k'.engaged; own = k'.own }
  Turn-IsBusy s t k (skips e) = quiet-IsBusy s camera_read outside (sym (ap inside e)) tt k
  Turn-IsBusy s t k (locks_filmed img img1 e free) =
      lock-IsBusy s camera_read (storing img img1) refl refl k
  Turn-IsBusy s t k (stores img img1 e) =
      let k' = quiet-IsBusy s camera_read (storing1 img1) (sym (ap inside e)) refl k in
      record { engaged = k'.engaged; own = k'.own }
  Turn-IsBusy s t k (stores1 img1 e) =
      let k' = quiet-IsBusy s camera_read stored (sym (ap inside e)) refl k in
      record { engaged = k'.engaged; own = k'.own }
  Turn-IsBusy s t k (unlocks_stored e) = unlock-IsBusy s camera_read k
  Turn-IsBusy s t k (asks u id who e) = quiet-IsBusy s u (asking id) (sym (ap inside e)) tt k
  Turn-IsBusy s t k (locks_asking u id e free) = lock-IsBusy s u (fetching id) refl tt k
  Turn-IsBusy s t k (fetches u id e) =
      quiet-IsBusy s u (fetched (if id == 0 then s.latest else s.latest1)) (sym (ap inside e)) tt k
  Turn-IsBusy s t k (unlocks_fetched u img e) =
      let k' = unlock-IsBusy s u k in record { engaged = k'.engaged; own = k'.own }

  Turns-IsBusy : (s t : Booth Frame) → IsBusy s → Turns s t → IsBusy t
  Turns-IsBusy s t k here = k
  Turns-IsBusy s t k (next {t = m} before turn) = Turn-IsBusy m t (Turns-IsBusy s m k before) turn

  -- The mutex is free after some turns.
  abbrev Frees : Booth Frame → Type 0
  Frees s = (u : Booth Frame) × Turns s u × (u.holder ≡ none)

  Turn-Frees : (s t : Booth Frame) → Turn s t → Frees t → Frees s
  Turn-Frees s t turn (u, turns, free) = (u, after turns, free)
    where
      after : {v : Booth Frame} → Turns t v → Turns s v
      after here = next here turn
      after (next before last) = next (after before) last

  stored-Frees : (s : Booth Frame) → s.pc camera_read ≡ stored → Frees s
  stored-Frees s e = (_, next here (unlocks_stored e), refl)

  storing1-Frees :
      (s : Booth Frame) (img1 : Option Frame) → s.pc camera_read ≡ storing1 img1 → Frees s
  storing1-Frees s img1 e =
      Turn-Frees s _ (stores1 img1 e) (stored-Frees _ (set_same s.pc camera_read stored))

  fetched-Frees :
      (s : Booth Frame) (t : Thread) (img : Option Frame) → s.pc t ≡ fetched img → Frees s
  fetched-Frees s t img e = (_, next here (unlocks_fetched t img e), refl)

  inside-Frees :
      (s : Booth Frame) (t : Thread) (p : Pc Frame)
      → s.pc t ≡ p
      → inside p ≡ true
      → Stores t p
      → Frees s
  inside-Frees s t outside at_p inner own = absurd (cc inner)
  inside-Frees s t (filmed img img1) at_p inner own = absurd (cc inner)
  inside-Frees s t (asking id) at_p inner own = absurd (cc inner)
  inside-Frees s t (storing img img1) at_p inner own =
      Turn-Frees s _ (stores img img1 (ap s.pc (sym own) ∙ at_p))
        (storing1-Frees _ img1 (set_same s.pc camera_read (storing1 img1)))
  inside-Frees s t (storing1 img1) at_p inner own = storing1-Frees s img1 (ap s.pc (sym own) ∙ at_p)
  inside-Frees s t stored at_p inner own = stored-Frees s (ap s.pc (sym own) ∙ at_p)
  inside-Frees s t (fetching id) at_p inner own =
      Turn-Frees s _ (fetches t id at_p) (fetched-Frees _ t _ (set_same s.pc t _))
  inside-Frees s t (fetched img) at_p inner own = fetched-Frees s t img at_p

  begin_booth-IsBusy : IsBusy (begin_booth {Frame = Frame})
  begin_booth-IsBusy = record { engaged = λ t e. absurd (cc e); own = λ t. tt }

  -- In every state in which a thread has locked the mutex, turns of the threads lead to a state in
  -- which it is free: no thread keeps it for good.
  pub Turns-released :
      (s : Booth Frame) (t : Thread)
      → Turns begin_booth s
      → s.holder ≡ some t
      → (u : Booth Frame) × Turns s u × (u.holder ≡ none)
  Turns-released s t turns has =
      let k = Turns-IsBusy begin_booth s begin_booth-IsBusy turns in
      inside-Frees s t (s.pc t) refl (k.engaged t has) (k.own t)
