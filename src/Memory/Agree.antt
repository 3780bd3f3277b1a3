-- ===== src/Memory/Agree.antt =====
-- Outcomes that agree, for the comparison of two programs.
use networking_programming.Base.{Bool, true, false, ◌≡◌, refl, if◌then◌else◌}
use networking_programming.Memory.{Outcome, ok, fault, timeout, ◌>>=◌}

-- Two runs end alike: with related results, or both undefined, or both out of fuel.
abbrev pub Agree : {A B : Type 0} → (A → B → Type 0) → Outcome A → Outcome B → Type 0
Agree R (ok a) (ok b) = R a b
Agree R fault fault = Unit
Agree R timeout timeout = Unit
Agree R _ _ = ⊥

pub Agree->>= :
    {A B C D : Type 0} {R : A → B → Type 0} (S : C → D → Type 0) (m : Outcome A) (n : Outcome B)
    (f : A → Outcome C) (g : B → Outcome D)
    → Agree R m n
    → ((a : A) (b : B) → R a b → Agree S (f a) (g b))
    → Agree S (m >>= f) (n >>= g)
Agree->>= S (ok a) (ok b) f g r both = both a b r
Agree->>= S fault fault f g r both = tt
Agree->>= S timeout timeout f g r both = tt
Agree->>= S (ok a) fault f g r both = absurd r
Agree->>= S (ok a) timeout f g r both = absurd r
Agree->>= S fault (ok b) f g r both = absurd r
Agree->>= S fault timeout f g r both = absurd r
Agree->>= S timeout (ok b) f g r both = absurd r
Agree->>= S timeout fault f g r both = absurd r

-- The same call on both sides.
pub Agree-eq :
    {A C D : Type 0} (S : C → D → Type 0) (m n : Outcome A) (f : A → Outcome C) (g : A → Outcome D)
    → n ≡ m
    → ((a : A) → m ≡ ok a → Agree S (f a) (g a))
    → Agree S (m >>= f) (n >>= g)
Agree-eq S (ok a) n f g e both = rw e (both a refl)
Agree-eq S fault n f g e both = rw e tt
Agree-eq S timeout n f g e both = rw e tt

-- The same test on both sides.
pub Agree-if :
    {C D : Type 0} (S : C → D → Type 0) (b : Bool) (x x' : Outcome C) (y y' : Outcome D)
    → Agree S x y
    → Agree S x' y'
    → Agree S (if b then x else x') (if b then y else y')
Agree-if S true x x' y y' p q = p
Agree-if S false x x' y y' p q = q

pub Agree-weaken :
    {A B : Type 0} {R S : A → B → Type 0} (m : Outcome A) (n : Outcome B)
    → Agree R m n
    → ((a : A) (b : B) → R a b → S a b)
    → Agree S m n
Agree-weaken (ok a) (ok b) r weaker = weaker a b r
Agree-weaken fault fault r weaker = tt
Agree-weaken timeout timeout r weaker = tt
Agree-weaken (ok a) fault r weaker = absurd r
Agree-weaken (ok a) timeout r weaker = absurd r
Agree-weaken fault (ok b) r weaker = absurd r
Agree-weaken fault timeout r weaker = absurd r
Agree-weaken timeout (ok b) r weaker = absurd r
Agree-weaken timeout fault r weaker = absurd r
