-- ===== src/Bler/Camera/Mutex/Given.antt =====
-- The images that the threads of Robot/src/BLER.cpp hold are images that a camera gave.
use mathlib.Core.List.{Memᴰ}
use mathlib.Core.List.Memᴰ.{head, tail}
use lame.Prelude.{refl, Bool, true, false, List, [], ◌∷◌, Option, none, some, All, if◌then◌else◌}
use lame.Bler.Camera.Mutex.{
  Pc, outside, filmed, storing, storing1, stored, asking, fetching, fetched, keep, add,
}

module _ {Frame : Type 0} (given : List Frame) where
  -- An image, if there is one, that a camera gave.
  abbrev pub IsGiven : Option Frame → Type 0
  IsGiven none = Unit
  IsGiven (some img) = Memᴰ img given

  abbrev pub LocalsGiven : Pc Frame → Type 0
  LocalsGiven outside = Unit
  LocalsGiven (filmed img img1) = IsGiven img × IsGiven img1
  LocalsGiven (storing img img1) = IsGiven img × IsGiven img1
  LocalsGiven (storing1 img1) = IsGiven img1
  LocalsGiven stored = Unit
  LocalsGiven (asking id) = Unit
  LocalsGiven (fetching id) = Unit
  LocalsGiven (fetched img) = IsGiven img

module _ {Frame : Type 0} where
  pub keep-IsGiven :
      (given : List Frame) (img latest : Option Frame)
      → IsGiven given img
      → IsGiven given latest
      → IsGiven given (keep img latest)
  keep-IsGiven given none latest new old = old
  keep-IsGiven given (some img) latest new old = new

  pub if-IsGiven :
      (given : List Frame) (test : Bool) (img img1 : Option Frame)
      → IsGiven given img
      → IsGiven given img1
      → IsGiven given (if test then img else img1)
  if-IsGiven given true img img1 g g1 = g
  if-IsGiven given false img img1 g g1 = g1

  -- More images.
  pub add-IsGiven :
      (given : List Frame) (more img : Option Frame)
      → IsGiven given img
      → IsGiven (add more given) img
  add-IsGiven given none img g = g
  add-IsGiven given (some new) none g = tt
  add-IsGiven given (some new) (some img) g = tail g

  pub add-here : (given : List Frame) (img : Option Frame) → IsGiven (add img given) img
  add-here given none = tt
  add-here given (some img) = head refl

  pub add-LocalsGiven :
      (given : List Frame) (more : Option Frame) (p : Pc Frame)
      → LocalsGiven given p
      → LocalsGiven (add more given) p
  add-LocalsGiven given more outside g = tt
  add-LocalsGiven given more (filmed img img1) (g, g1) =
      (add-IsGiven given more img g, add-IsGiven given more img1 g1)
  add-LocalsGiven given more (storing img img1) (g, g1) =
      (add-IsGiven given more img g, add-IsGiven given more img1 g1)
  add-LocalsGiven given more (storing1 img1) g = add-IsGiven given more img1 g
  add-LocalsGiven given more stored g = tt
  add-LocalsGiven given more (asking id) g = tt
  add-LocalsGiven given more (fetching id) g = tt
  add-LocalsGiven given more (fetched img) g = add-IsGiven given more img g

  pub add-got :
      (given : List Frame) (more : Option Frame) (got : List (Option Frame))
      → All (IsGiven given) got
      → All (IsGiven (add more given)) got
  add-got given more [] all = tt
  add-got given more (img ∷ got) (first, rest) =
      (add-IsGiven given more img first, add-got given more got rest)
