-- ===== src/Memory/Post.antt =====
-- Postconditions of runs that consist of parts.
use networking_programming.Base.{Bool, true, false, if◌then◌else◌}
use networking_programming.Memory.{Outcome, ok, fault, timeout, ◌>>=◌, IfOk}

-- The rest of a run has the property for whatever result it goes on from.
pub IfOk->>= :
    {A B : Type 0} (Q : B → Type 0) (m : Outcome A) (f : A → Outcome B)
    → ((a : A) → IfOk Q (f a))
    → IfOk Q (m >>= f)
IfOk->>= Q (ok a) f h = h a
IfOk->>= Q fault f h = tt
IfOk->>= Q timeout f h = tt

-- What is known of the first part serves the rest.
pub IfOk-IfOk :
    {A B : Type 0} (P : A → Type 0) (Q : B → Type 0) (m : Outcome A) (f : A → Outcome B)
    → IfOk P m
    → ((a : A) → P a → IfOk Q (f a))
    → IfOk Q (m >>= f)
IfOk-IfOk P Q (ok a) f p h = h a p
IfOk-IfOk P Q fault f p h = tt
IfOk-IfOk P Q timeout f p h = tt

-- What both branches have.
pub IfOk-if :
    {A : Type 0} (Q : A → Type 0) (b : Bool) (x y : Outcome A)
    → IfOk Q x
    → IfOk Q y
    → IfOk Q (if b then x else y)
IfOk-if Q true x y p q = p
IfOk-if Q false x y p q = q
