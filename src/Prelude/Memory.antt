-- ===== src/Prelude/Memory.antt =====
-- What a C function leaves behind, and the C array as a list of bytes.
-- `fault` is an access outside the array, which C leaves undefined; `no_fuel` is a loop that has
-- not ended within its fuel.
use Prim.Native.Nat.{ℕ, zero, suc, ◌+◌, ◌≤◌, ◌<◌}
use mathlib.Core.Path.{◌≡◌, refl, ap}
use mathlib.Core.List.{List, [], ◌∷◌, ◌++◌, append_assoc}
use native.Mathlib.Omega.{arith}
use lame.Prelude.Lists.{length, length-append}

pub data Outcome {ℓ} (A : Type ℓ) : Type ℓ where
  ok : A → Outcome A
  fault no_fuel : Outcome A

infixl 5 ◌>>=◌ ◌>>◌
abbrev pub ◌>>=◌ {ℓ κ} : {A : Type ℓ} {B : Type κ} → Outcome A → (A → Outcome B) → Outcome B
ok a >>= f = f a
fault >>= f = fault
no_fuel >>= f = no_fuel

abbrev pub ◌>>◌ {ℓ κ} : {A : Type ℓ} {B : Type κ} → Outcome A → Outcome B → Outcome B
m >> k = m >>= λ _. k

-- `buffer[i]`
unfoldable pub load : List ℕ → ℕ → Outcome ℕ
load [] i = fault
load (x ∷ xs) zero = ok x
load (x ∷ xs) (suc i) = load xs i

-- `buffer[i] = v`
unfoldable pub store : List ℕ → ℕ → ℕ → Outcome (List ℕ)
store [] i v = fault
store (x ∷ xs) zero v = ok (v ∷ xs)
store (x ∷ xs) (suc i) v = store xs i v >>= λ ys. ok (x ∷ ys)

-- `buffer[i] = v; buffer[i + 1] = w; …`: stores to consecutive places, in that order.
unfoldable pub stores : List ℕ → ℕ → List ℕ → Outcome (List ℕ)
stores b i [] = ok b
stores b i (v ∷ vs) = store b i v >>= λ b'. stores b' (i + 1) vs

pub load-append : (xs : List ℕ) (y : ℕ) (ys : List ℕ) → load (xs ++ y ∷ ys) (length xs) ≡ ok y
unfolding load
load-append [] y ys = refl
load-append (x ∷ xs) y ys = load-append xs y ys

pub store-append :
    (xs : List ℕ) (y : ℕ) (ys : List ℕ) (v : ℕ)
    → store (xs ++ y ∷ ys) (length xs) v ≡ ok (xs ++ v ∷ ys)
unfolding store
store-append [] y ys v = refl
store-append (x ∷ xs) y ys v = rw (store-append xs y ys v)

pub load_total : (xs : List ℕ) (i : ℕ) → i < length xs → (v : ℕ) × (load xs i ≡ ok v)
unfolding load
load_total [] i h = elim h [ ]
load_total (x ∷ xs) zero h = (x, refl)
load_total (x ∷ xs) (suc i) h = load_total xs i (omega arith)

pub store_total :
    (xs : List ℕ) (i v : ℕ)
    → i < length xs
    → (ys : List ℕ) × (store xs i v ≡ ok ys) × (length ys ≡ length xs) × (load ys i ≡ ok v)
unfolding store load
store_total [] i v h = elim h [ ]
store_total (x ∷ xs) zero v h = (v ∷ xs, refl, refl, refl)
store_total (x ∷ xs) (suc i) v h =
    let (ys, e, l, k) = store_total xs i v (omega arith) in (x ∷ ys, rw e, ap suc l, k)

pub load_fault : (xs : List ℕ) (i : ℕ) → length xs ≤ i → load xs i ≡ fault
unfolding load
load_fault [] i h = refl
load_fault (x ∷ xs) zero h = absurd (omega arith)
load_fault (x ∷ xs) (suc i) h = load_fault xs i (omega arith)

pub store_fault : (xs : List ℕ) (i v : ℕ) → length xs ≤ i → store xs i v ≡ fault
unfolding store
store_fault [] i v h = refl
store_fault (x ∷ xs) zero v h = absurd (omega arith)
store_fault (x ∷ xs) (suc i) v h = rw (store_fault xs i v (omega arith))

-- The same at an index and in an array that are known by equations.
pub load_at :
    (xs : List ℕ) (y : ℕ) (ys : List ℕ) {b : List ℕ} {i : ℕ}
    → b ≡ xs ++ y ∷ ys
    → i ≡ length xs
    → load b i ≡ ok y
load_at xs y ys e h = rw (e, h) (load-append xs y ys)

pub store_at :
    (xs : List ℕ) (y : ℕ) (ys : List ℕ) (v : ℕ) {b : List ℕ} {i : ℕ}
    → b ≡ xs ++ y ∷ ys
    → i ≡ length xs
    → store b i v ≡ ok (xs ++ v ∷ ys)
store_at xs y ys v e h = rw (e, h) (store-append xs y ys v)

pub stores_total :
    (vs xs : List ℕ) (i : ℕ)
    → i + length vs ≤ length xs
    → (ys : List ℕ) × (stores xs i vs ≡ ok ys) × (length ys ≡ length xs)
unfolding stores
stores_total [] xs i h = (xs, refl, refl)
stores_total (v ∷ vs) xs i h =
    let (ys, e, l, _) = store_total xs i v (omega arith) in
    let (zs, e', l') = stores_total vs ys (i + 1) (omega arith) in (zs, rw e e', omega arith)

-- Stores over the places `old` behind `front`.
pub stores-append :
    (front vs old rest : List ℕ) (i : ℕ)
    → i ≡ length front
    → length old ≡ length vs
    → stores (front ++ (old ++ rest)) i vs ≡ ok (front ++ (vs ++ rest))
unfolding stores
stores-append front [] [] rest i ei el = refl
stores-append front [] (o ∷ old) rest i ei el = absurd (omega arith)
stores-append front (v ∷ vs) [] rest i ei el = absurd (omega arith)
stores-append front (v ∷ vs) (o ∷ old) rest i ei el =
    let ih =
      stores-append (front ++ v ∷ []) vs old rest (i + 1)
        (omega (arith, length-append front (v ∷ []))) (omega arith) in
    rw (store_at front o (old ++ rest) v {i = i} refl ei) (rw (append_assoc, append_assoc) at ih)

outcome_or : {A : Type 0} → A → Outcome A → A
outcome_or a (ok b) = b
outcome_or a fault = a
outcome_or a no_fuel = a

pub ok-injective : {A : Type 0} {a b : A} → ok a ≡ ok b → a ≡ b
unfolding outcome_or
ok-injective {a} e = ap (outcome_or a) e
