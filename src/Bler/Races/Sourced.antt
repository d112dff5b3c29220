-- ===== src/Bler/Races/Sourced.antt =====
-- Where the speeds come from that `Execute` of Robot/src/BLER.cpp sends in remote mode, whatever
-- accesses of the UDP thread fall between its own.
use mathlib.Core.List.{Memᴰ}
use mathlib.Core.List.Memᴰ.{head}
use mathlib.Core.List.Memᴰ
use lame.Prelude.{ℕ, ◌+◌, ◌≡◌, refl, ◌⊎◌, inl, inr, List, [], ◌∷◌, All, arith, ltb, Bool-cases}
use lame.Packet.Payloads.{DrivePayload}
use lame.Bler.State.{Bler}
use lame.Bler.Races.Fields.{get-put-same}
use lame.Bler.Races.Sources.{
  Comes, IsWheel, left_wheel, right_wheel, Sourced, StoresOne, LoadsOne, Comes-more, mem-Comes,
  LoadsOne-more, Sourced-written, Sourced-noted, store-Comes, fields-all,
}
use lame.Bler.Races.{
  Field, left_field, right_field, vibrator_field, actuator_field, scooper_field, get, put, loading,
  Race, judge, begin_race, Access, parses, stores, stamps, begins_switch, switches, leaves, starts,
  loads, sends, Reach, here, next,
}

record IsSourced (s : Race) : Type 0 where
  latest : (f : Field) → Comes s.written f (get f s.shared.latest)
  stored : StoresOne s.written s.writer
  loaded : LoadsOne s.written s.reader
  time : Memᴰ s.shared.received_time s.noted
  sent : All (λ (e : ℕ × DrivePayload). Sourced s.written s.noted e.0 e.1) s.sent

-- The field that is loaded is no longer ahead.
load-LoadsOne :
    (written : List DrivePayload) (latest p : DrivePayload) (f : Field) (rest : List Field)
    → ((g : Field) → Comes written g (get g latest))
    → LoadsOne written (loading p (f ∷ rest))
    → LoadsOne written (loading (put f (get f latest) p) rest)
load-LoadsOne written latest p f rest all some_of = λ g. elim (some_of g) [
  | inr c ↦ inr (store-Comes written f g (get f latest) p (all f) c)
  | inl ahead ↦ elim (Memᴰ.cases_cons ahead) [
    | inr later ↦ inl later
    | inl same ↦ inr (rw (same, get-put-same f (get f latest) p) (all f))
  ]
]

module _ (written : List DrivePayload) (noted : List ℕ) (p : DrivePayload)
    (done : LoadsOne written (loading p [])) where
  whole : (f : Field) → Comes written f (get f p)
  whole f = elim (done f) [ inl ahead ↦ absurd (Memᴰ.not-nil ahead) | inr c ↦ c ]

  -- With the wheels stopped.
  stopped : DrivePayload
  stopped = record p { left = 0; right = 0 }

  stopped-each : (f : Field) → (IsWheel f × (get f stopped ≡ 0)) ⊎ Comes written f (get f stopped)
  unfolding stopped
  stopped-each left_field = inl (left_wheel, refl)
  stopped-each right_field = inl (right_wheel, refl)
  stopped-each vibrator_field = inr (whole vibrator_field)
  stopped-each actuator_field = inr (whole actuator_field)
  stopped-each scooper_field = inr (whole scooper_field)

  judge-Sourced : (time now : ℕ) → Memᴰ time noted → Sourced written noted now (judge p time now)
  unfolding judge stopped
  judge-Sourced time now there = elim (Bool-cases (ltb (time + 2) now)) [
    | inl late ↦ rw late (record { each = stopped-each; fresh = inl (refl, refl) })
    | inr soon ↦
        rw soon
          (record { each = λ f. inr (whole f); fresh = inr (time, there, ground (arith, soon)) })
  ]

Access-IsSourced : (s t : Race) → IsSourced s → Access s t → IsSourced t
Access-IsSourced s t k (parses p e) = record {
  latest = λ f. Comes-more s.written p f _ (k.latest f);
  stored = head refl;
  loaded = LoadsOne-more s.written p s.reader k.loaded;
  time = k.time;
  sent = Sourced-written s.written s.noted p s.sent k.sent;
}
Access-IsSourced s t k (stores p f rest e) =
    let of_p : Memᴰ p s.written = rw e at k.stored in
    record {
      latest = λ g.
          store-Comes s.written f g (get f p) s.shared.latest (mem-Comes s.written p f of_p)
            (k.latest g);
      stored = of_p;
      loaded = k.loaded;
      time = k.time;
      sent = k.sent;
    }
Access-IsSourced s t k (stamps p now e) = record {
  latest = k.latest;
  stored = tt;
  loaded = k.loaded;
  time = head refl;
  sent = Sourced-noted s.written s.noted now s.sent k.sent;
}
Access-IsSourced s t k (begins_switch now e) = record {
  latest = k.latest;
  stored = tt;
  loaded = k.loaded;
  time = head refl;
  sent = Sourced-noted s.written s.noted now s.sent k.sent;
}
Access-IsSourced s t k (switches e) = record {
  latest = k.latest;
  stored = tt;
  loaded = k.loaded;
  time = k.time;
  sent = k.sent;
}
Access-IsSourced s t k (leaves mode e other) = record {
  latest = k.latest;
  stored = k.stored;
  loaded = k.loaded;
  time = k.time;
  sent = k.sent;
}
Access-IsSourced s t k (starts stale e on) = record {
  latest = k.latest;
  stored = k.stored;
  loaded = λ f. inl (fields-all f);
  time = k.time;
  sent = k.sent;
}
Access-IsSourced s t k (loads p f rest e) = record {
  latest = k.latest;
  stored = k.stored;
  loaded = load-LoadsOne s.written s.shared.latest p f rest k.latest (rw e at k.loaded);
  time = k.time;
  sent = k.sent;
}
Access-IsSourced s t k (sends p now e) = record {
  latest = k.latest;
  stored = k.stored;
  loaded = tt;
  time = k.time;
  sent = (
    judge-Sourced s.written s.noted p (rw e at k.loaded) s.shared.received_time now k.time,
    k.sent,
  );
}

begin_race-IsSourced : {Frame : Type 0} (r : Bler Frame) → IsSourced (begin_race r)
unfolding Comes
begin_race-IsSourced r = record {
  latest = λ f. (r.latest_drive_payload, head refl, refl);
  stored = tt;
  loaded = tt;
  time = head refl;
  sent = tt;
}

Reach-IsSourced : (s t : Race) → IsSourced s → Reach s t → IsSourced t
Reach-IsSourced s t k here = k
Reach-IsSourced s t k (next {t = m} before access) =
    Access-IsSourced m t (Reach-IsSourced s m k before) access

-- However the accesses of the two threads interleave: each field of each payload that `Execute` sends
-- in remote mode comes from a payload that was received or that the robot began with, or is a wheel
-- that stands; and unless both wheels stand, the time that the robot began with, or that of a drive
-- packet or of a switch to remote mode since, is no more than two seconds before.
pub Reach-Sourced :
    {Frame : Type 0} (r : Bler Frame) (s : Race)
    → Reach (begin_race r) s
    → All (λ (e : ℕ × DrivePayload). Sourced s.written s.noted e.0 e.1) s.sent
Reach-Sourced r s reach = (Reach-IsSourced (begin_race r) s (begin_race-IsSourced r) reach).sent
