-- ===== src/Staging/Process/Shapes.antt =====
-- What the shape of the children says where the progress of `start` or `close` is known.
use stadtstack.Base.{ℕ, Bool, true, false, List, All, ◌≡◌, arith, subst}
use stadtstack.Staging.Process.State.{
  Child, StartProgress, not_started, start_skipped, start_fulfilled, undo_releasing, start_rejected,
  starting_child, undoing_child, CloseProgress, not_closing, awaiting_start, close_releasing,
  close_fulfilled, close_rejected, closing_child,
}
use stadtstack.Staging.Process.Invariant.{Shape, StartShape, close_is_final}
use stadtstack.Staging.Process.Children

abbrev pub is_early : CloseProgress → Bool
is_early not_closing = true
is_early awaiting_start = true
is_early _ = false

pub early-Shape :
    (s : StartProgress) (c : CloseProgress) (cs : List Child)
    → is_early c ≡ true
    → StartShape s c cs
    → Shape s c cs
early-Shape s not_closing cs e h = h
early-Shape s awaiting_start cs e h = h
early-Shape s close_releasing cs e h = absurd (ground arith)
early-Shape s close_fulfilled cs e h = absurd (ground arith)
early-Shape s close_rejected cs e h = absurd (ground arith)
early-Shape s (closing_child n) cs e h = absurd (ground arith)

pub up-StartShape :
    (c : CloseProgress) (cs : List Child) → All Children.IsUp cs → StartShape start_fulfilled c cs
up-StartShape not_closing cs h = h
up-StartShape awaiting_start cs h = tt
up-StartShape close_releasing cs h = tt
up-StartShape close_fulfilled cs h = tt
up-StartShape close_rejected cs h = tt
up-StartShape (closing_child n) cs h = tt

pub late-Shape :
    (p q : StartProgress) (c : CloseProgress) (cs : List Child)
    → is_early c ≡ false
    → Shape p c cs
    → Shape q c cs
late-Shape p q not_closing cs e h = absurd (ground arith)
late-Shape p q awaiting_start cs e h = absurd (ground arith)
late-Shape p q close_releasing cs e h = h
late-Shape p q close_fulfilled cs e h = h
late-Shape p q close_rejected cs e h = h
late-Shape p q (closing_child n) cs e h = h

pub final-Shape :
    (p : StartProgress) (c : CloseProgress) (cs : List Child)
    → close_is_final c ≡ true
    → Shape p c cs
    → All Children.IsClosed cs
final-Shape p not_closing cs e h = absurd (ground arith)
final-Shape p awaiting_start cs e h = absurd (ground arith)
final-Shape p close_releasing cs e h = h
final-Shape p close_fulfilled cs e h = h
final-Shape p close_rejected cs e h = h
final-Shape p (closing_child n) cs e h = absurd (ground arith)

pub closing-Shape :
    (p : StartProgress) (n : ℕ) (c : CloseProgress) (cs : List Child)
    → c ≡ closing_child n
    → Shape p c cs
    → Children.Layout Children.IsAny Children.IsAsked Children.IsClosed n cs
closing-Shape p n c cs e h = subst (λ d. Shape p d cs) e h

-- The shape that goes with a known progress of `start`.
pub start-Shape :
    (p q : StartProgress) (c : CloseProgress) (cs : List Child)
    → p ≡ q
    → is_early c ≡ true
    → Shape p c cs
    → StartShape q c cs
start-Shape p q not_closing cs s e h = subst (λ r. StartShape r not_closing cs) s h
start-Shape p q awaiting_start cs s e h = subst (λ r. StartShape r awaiting_start cs) s h
start-Shape p q close_releasing cs s e h = absurd (ground arith)
start-Shape p q close_fulfilled cs s e h = absurd (ground arith)
start-Shape p q close_rejected cs s e h = absurd (ground arith)
start-Shape p q (closing_child n) cs s e h = absurd (ground arith)

-- The reverse loop of `close`.
pub awaiting-Shape :
    (p : StartProgress) (c : CloseProgress) (cs : List Child)
    → c ≡ not_closing
    → Shape p c cs
    → Shape p awaiting_start cs
awaiting-Shape start_fulfilled c cs e h = tt
awaiting-Shape not_started c cs e h = subst (λ d. Shape not_started d cs) e h
awaiting-Shape start_skipped c cs e h = tt
awaiting-Shape undo_releasing c cs e h = subst (λ d. Shape undo_releasing d cs) e h
awaiting-Shape start_rejected c cs e h = subst (λ d. Shape start_rejected d cs) e h
awaiting-Shape (starting_child n) c cs e h = subst (λ d. Shape (starting_child n) d cs) e h
awaiting-Shape (undoing_child n) c cs e h = subst (λ d. Shape (undoing_child n) d cs) e h
