-- ===== src/Staging/Process/Children.antt =====
-- What the children of a process satisfy, by their positions.
use stadtstack.Base.{
  ℕ, zero, suc, true, none, some, List, [], ◌∷◌, length, All, ◌≡◌, refl, arith, subst,
}
use stadtstack.Staging.Runtime.State
use stadtstack.Staging.Runtime.State.{Runtime, initial_runtime, health}
use stadtstack.Staging.Runtime.Step.{RuntimeReach}
use stadtstack.Staging.Process.State.{Child, child_at, update_child}
use stadtstack.Staging.Process.Close.{has_closed}

-- The children before the one at a position, that child, and those after it.
abbrev pub Layout : (P Q R : Child → Type 0) → ℕ → List Child → Type 0
Layout P Q R n [] = Unit
Layout P Q R zero (c ∷ cs) = Q c × All R cs
Layout P Q R (suc n) (c ∷ cs) = P c × Layout P Q R n cs

-- Never started, started by the loop, started and ready, asked to close, closed, and what every
-- child is.
abbrev pub IsFresh : Child → Type 0
IsFresh c = (c.runtime.start ≡ State.not_started) × (c.runtime.close ≡ State.not_closing)

abbrev pub IsOpen : Child → Type 0
IsOpen c = c.runtime.close ≡ State.not_closing

abbrev pub IsUp : Child → Type 0
IsUp c = (c.runtime.start ≡ State.bound) × (c.runtime.close ≡ State.not_closing)

abbrev pub IsAsked : Child → Type 0
IsAsked c = State.closing_requested c.runtime.close ≡ true

abbrev pub IsClosed : Child → Type 0
IsClosed c = c.runtime.close ≡ State.closed

abbrev pub IsAny : Child → Type 0
IsAny c = Unit

abbrev pub IsReached : Child → Type 0
IsReached c = RuntimeReach c.host c.runtime

-- A change of a child's runtime that keeps a predicate.
abbrev pub Keeps : (Child → Runtime) → (Child → Type 0) → Type 0
Keeps f P = (c : Child) → P c → P (record c { runtime = f c })

pub update-All :
    (P : Child → Type 0) (f : Child → Runtime) (n : ℕ) (cs : List Child)
    → Keeps f P
    → All P cs
    → All P (update_child n f cs)
unfolding update_child
update-All P f n [] k h = tt
update-All P f zero (c ∷ cs) k h = (k c h.0, h.1)
update-All P f (suc n) (c ∷ cs) k h = (h.0, update-All P f n cs k h.1)

pub update-Layout :
    (P Q R : Child → Type 0) (f : Child → Runtime) (m n : ℕ) (cs : List Child)
    → Keeps f P
    → Keeps f Q
    → Keeps f R
    → Layout P Q R n cs
    → Layout P Q R n (update_child m f cs)
unfolding update_child
update-Layout P Q R f m n [] p q r h = tt
update-Layout P Q R f zero zero (c ∷ cs) p q r h = (q c h.0, h.1)
update-Layout P Q R f zero (suc n) (c ∷ cs) p q r h = (p c h.0, h.1)
update-Layout P Q R f (suc m) zero (c ∷ cs) p q r h = (h.0, update-All R f m cs r h.1)
update-Layout P Q R f (suc m) (suc n) (c ∷ cs) p q r h =
    (h.0, update-Layout P Q R f m n cs p q r h.1)

-- The child at the position takes a step from `Q` to `S`.
pub update-at :
    (P Q R S : Child → Type 0) (f : Child → Runtime) (n : ℕ) (cs : List Child)
    → ((c : Child) → Q c → S (record c { runtime = f c }))
    → Layout P Q R n cs
    → Layout P S R n (update_child n f cs)
unfolding update_child
update-at P Q R S f n [] k h = tt
update-at P Q R S f zero (c ∷ cs) k h = (k c h.0, h.1)
update-at P Q R S f (suc n) (c ∷ cs) k h = (h.0, update-at P Q R S f n cs k h.1)

pub update-length :
    (f : Child → Runtime) (n : ℕ) (cs : List Child) → length (update_child n f cs) ≡ length cs
unfolding update_child
update-length f n [] = refl
update-length f zero (c ∷ cs) = refl
update-length f (suc n) (c ∷ cs) = omega (arith, update-length f n cs)

-- The position moves up: its child satisfies `P`, and the next one `Q`.
pub Layout-up :
    (P Q R : Child → Type 0) (n : ℕ) (cs : List Child)
    → ((c : Child) → Q c → child_at n cs ≡ some c → P c)
    → Layout P Q R n cs
    → Layout P R R (suc n) cs
unfolding child_at
Layout-up P Q R n [] p h = tt
Layout-up P Q R zero (c ∷ []) p h = (p c h.0 refl, tt)
Layout-up P Q R zero (c ∷ d ∷ cs) p h = (p c h.0 refl, h.1)
Layout-up P Q R (suc n) (c ∷ cs) p h = (h.0, Layout-up P Q R n cs p h.1)

-- The position is past the last child.
pub Layout-past :
    (P Q R : Child → Type 0) (n : ℕ) (cs : List Child)
    → child_at n cs ≡ none
    → Layout P Q R n cs
    → All P cs
unfolding child_at
Layout-past P Q R n [] e h = tt
Layout-past P Q R zero (c ∷ cs) e h = absurd (ground arith)
Layout-past P Q R (suc n) (c ∷ cs) e h = (h.0, Layout-past P Q R n cs e h.1)

-- The position moves down.
pub Layout-down :
    (n : ℕ) (cs : List Child)
    → has_closed (child_at (suc n) cs) ≡ true
    → Layout IsAny IsAsked IsClosed (suc n) cs
    → Layout IsAny IsAny IsClosed n cs
unfolding child_at
Layout-down n [] e h = tt
Layout-down zero (c ∷ []) e h = (tt, tt)
Layout-down zero (c ∷ d ∷ cs) e h = (tt, (ground arith, h.1.1))
Layout-down (suc n) (c ∷ cs) e h = (tt, Layout-down n cs e h.1)

pub Layout-bottom :
    (cs : List Child)
    → has_closed (child_at 0 cs) ≡ true
    → Layout IsAny IsAsked IsClosed 0 cs
    → All IsClosed cs
unfolding child_at
Layout-bottom [] e h = tt
Layout-bottom (c ∷ cs) e h = (ground arith, h.1)

pub Layout-top : (n : ℕ) (cs : List Child) → length cs ≡ suc n → Layout IsAny IsAny IsClosed n cs
Layout-top n [] e = tt
Layout-top zero (c ∷ []) e = (tt, tt)
Layout-top zero (c ∷ d ∷ cs) e = absurd (omega (arith, e))
Layout-top (suc n) (c ∷ cs) e = (tt, Layout-top n cs (omega (arith, e)))

pub All-Layout : (P : Child → Type 0) (cs : List Child) → All P cs → Layout IsUp P P 0 cs
All-Layout P [] h = tt
All-Layout P (c ∷ cs) h = h

some-injective : {A : Type 0} {x y : A} → some x ≡ some y → x ≡ y
some-injective h = cc

pub All-at :
    (P : Child → Type 0) (n : ℕ) (cs : List Child) {c : Child}
    → All P cs
    → child_at n cs ≡ some c
    → P c
unfolding child_at
All-at P n [] h e = cc
All-at P zero (c ∷ cs) h e = subst P (some-injective e) h.0
All-at P (suc n) (c ∷ cs) h e = All-at P n cs h.1 e
