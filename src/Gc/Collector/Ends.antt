-- ===== src/Gc/Collector/Ends.antt =====
-- A property of what an operation of the collector leaves, if it ends.
use visuall.Base.{ℕ, Bool, true, false, if◌then◌else◌, ◌≡◌, refl}
use visuall.Gc.Collector.{Ended, ended, exited, strayed, unfinished, after}

pub data Ends {ℓ} {A : Type ℓ} (P : A → Type 0) : Ended A → Type ℓ where
  ends : {a : A} → P a → Ends P (ended a)
  exits : Ends P exited
  strays : {p : ℕ} → Ends P (strayed p)
  stops : Ends P unfinished

pub after-Ends :
    {A B : Type 0} {P : A → Type 0} {Q : B → Type 0} {e : Ended A} (k : A → Ended B)
    → Ends P e
    → ((a : A) → P a → Ends Q (k a))
    → Ends Q (after e k)
unfolding after
after-Ends k (ends {a} h) f = f a h
after-Ends k exits f = exits
after-Ends k strays f = strays
after-Ends k stops f = stops

pub Ends-if :
    {A : Type 0} {P : A → Type 0} (b : Bool) {x y : Ended A}
    → (b ≡ true → Ends P x)
    → (b ≡ false → Ends P y)
    → Ends P (if b then x else y)
Ends-if true f g = f refl
Ends-if false f g = g refl

-- A property that holds of what an operation leaves.
pub holds : {A : Type 0} {P : A → Type 0} {a : A} → Ends P (ended a) → P a
holds (ends h) = h
