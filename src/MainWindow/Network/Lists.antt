-- ===== src/MainWindow/Network/Lists.antt =====
-- What holds of each of the datagrams that were sent.
use mathlib.Core.List.{Memᴰ}
use mathlib.Core.List.Memᴰ.{head, tail}
use lame.Prelude.{Bool, true, false, List, [], ◌∷◌, All, if◌then◌else◌}

pub All-member : {A : Type 0} (P : A → Type 0) (x : A) (xs : List A) → All P xs → Memᴰ x xs → P x
All-member P x [] all there = elim there [ ]
All-member P x (y ∷ xs) (first, rest) (head e) = rw e first
All-member P x (y ∷ xs) (first, rest) (tail m) = All-member P x xs rest m

pub All-weaken :
    {A : Type 0} (P Q : A → Type 0) (xs : List A) → ((x : A) → P x → Q x) → All P xs → All Q xs
All-weaken P Q [] f all = tt
All-weaken P Q (x ∷ xs) f (first, rest) = (f x first, All-weaken P Q xs f rest)

pub if-All :
    {A : Type 0} (P : A → Type 0) (test : Bool) (x : A) (xs : List A)
    → P x
    → All P xs
    → All P (if test then x ∷ xs else xs)
if-All P true x xs first rest = (first, rest)
if-All P false x xs first rest = rest
