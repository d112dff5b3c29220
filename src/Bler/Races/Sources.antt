-- ===== src/Bler/Races/Sources.antt =====
-- Which payloads the fields of the structs that Robot/src/BLER.cpp copies can come from.
use mathlib.Core.List.{Memᴰ}
use mathlib.Core.List.Memᴰ.{head, tail}
use lame.Prelude.{ℕ, ◌+◌, ◌≤◌, ◌≡◌, refl, sym, ◌∙◌, ap, ◌⊎◌, inl, inr, List, [], ◌∷◌, All}
use lame.Packet.Payloads.{DrivePayload}
use lame.Bler.Races.Fields.{get-put}
use lame.Bler.Races.{
  Field, left_field, right_field, vibrator_field, actuator_field, scooper_field, fields, get, put,
  Writer, listening, storing, switching, Reader, sleeping, loading,
}

-- The value is that of the field in one of the payloads.
unfoldable pub Comes : List DrivePayload → Field → ℕ → Type 0
Comes written f v = (q : DrivePayload) × Memᴰ q written × (v ≡ get f q)

pub data IsWheel : Field → Type 0 where
  left_wheel : IsWheel left_field
  right_wheel : IsWheel right_field

-- A payload that was sent at the time `now`: each of its fields comes from a payload, or is a wheel
-- that stands; and if a wheel does not stand, a time was noted in the last two seconds.
pub record Sourced (written : List DrivePayload) (noted : List ℕ) (now : ℕ) (p : DrivePayload)
    : Type 0 where
  pub each : (f : Field) → (IsWheel f × (get f p ≡ 0)) ⊎ Comes written f (get f p)
  pub fresh : ((p.left ≡ 0) × (p.right ≡ 0)) ⊎ ((t : ℕ) × Memᴰ t noted × (now ≤ t + 2))

abbrev pub StoresOne : List DrivePayload → Writer → Type 0
StoresOne written listening = Unit
StoresOne written (storing p rest) = Memᴰ p written
StoresOne written switching = Unit

abbrev pub LoadsOne : List DrivePayload → Reader → Type 0
LoadsOne written sleeping = Unit
LoadsOne written (loading p rest) = (f : Field) → Memᴰ f rest ⊎ Comes written f (get f p)

pub mem-Comes :
    (written : List DrivePayload) (q : DrivePayload) (f : Field)
    → Memᴰ q written
    → Comes written f (get f q)
unfolding Comes
mem-Comes written q f m = (q, m, refl)

-- More payloads and times.
pub Comes-more :
    (written : List DrivePayload) (p : DrivePayload) (f : Field) (v : ℕ)
    → Comes written f v
    → Comes (p ∷ written) f v
unfolding Comes
Comes-more written p f v (q, m, e) = (q, tail m, e)

pub LoadsOne-more :
    (written : List DrivePayload) (p : DrivePayload) (reader : Reader)
    → LoadsOne written reader
    → LoadsOne (p ∷ written) reader
LoadsOne-more written p sleeping ok = tt
LoadsOne-more written p (loading l rest) some_of = λ f. elim (some_of f) [
  | inl ahead ↦ inl ahead
  | inr c ↦ inr (Comes-more written p f (get f l) c)
]

pub Sourced-written :
    (written : List DrivePayload) (noted : List ℕ) (p : DrivePayload)
    (sent : List (ℕ × DrivePayload))
    → All (λ (e : ℕ × DrivePayload). Sourced written noted e.0 e.1) sent
    → All (λ (e : ℕ × DrivePayload). Sourced (p ∷ written) noted e.0 e.1) sent
Sourced-written written noted p [] all = tt
Sourced-written written noted p ((now, l) ∷ sent) (first, rest) = (
  record {
    each = λ f. elim (first.each f) [
      | inl stands ↦ inl stands
      | inr c ↦ inr (Comes-more written p f (get f l) c)
    ];
    fresh = first.fresh;
  },
  Sourced-written written noted p sent rest,
)

pub Sourced-noted :
    (written : List DrivePayload) (noted : List ℕ) (time : ℕ) (sent : List (ℕ × DrivePayload))
    → All (λ (e : ℕ × DrivePayload). Sourced written noted e.0 e.1) sent
    → All (λ (e : ℕ × DrivePayload). Sourced written (time ∷ noted) e.0 e.1) sent
Sourced-noted written noted time [] all = tt
Sourced-noted written noted time ((now, l) ∷ sent) (first, rest) = (
  record {
    each = first.each;
    fresh = elim first.fresh [ inl stands ↦ inl stands | inr (t, m, soon) ↦ inr (t, tail m, soon) ];
  },
  Sourced-noted written noted time sent rest,
)

-- A field is copied from one struct to another.
pub put-Comes :
    (written : List DrivePayload) (f g : Field) (v : ℕ) (p : DrivePayload)
    → Comes written f v
    → (get g (put f v p) ≡ get g p) ⊎ Comes written g (get g (put f v p))
unfolding Comes
put-Comes written f g v p (q, m, e) = elim (get-put f g v p) [
  | inl (new, same) ↦ inr (q, m, new ∙ e ∙ ap (λ h. get h q) (sym same))
  | inr old ↦ inl old
]

pub store-Comes :
    (written : List DrivePayload) (f g : Field) (v : ℕ) (p : DrivePayload)
    → Comes written f v
    → Comes written g (get g p)
    → Comes written g (get g (put f v p))
unfolding Comes
store-Comes written f g v p c d = elim (put-Comes written f g v p c) [
  | inl old ↦ (d.0, d.1, old ∙ d.2)
  | inr new ↦ new
]

pub fields-all : (f : Field) → Memᴰ f fields
fields-all left_field = head refl
fields-all right_field = tail (head refl)
fields-all vibrator_field = tail (tail (head refl))
fields-all actuator_field = tail (tail (tail (head refl)))
fields-all scooper_field = tail (tail (tail (tail (head refl))))
