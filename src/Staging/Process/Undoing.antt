-- ===== src/Staging/Process/Undoing.antt =====
-- The two loops that close the children in reverse keep the invariant of a process.
use stadtstack.Base.{
  ℕ, zero, suc, Bool, true, false, List, [], ◌∷◌, length, All, ◌≡◌, refl, arith, if◌then◌else◌,
}
use stadtstack.Staging.Process.State.{
  Child, undo_releasing, start_rejected, undoing_child, Process, is_released, child_at,
  update_child,
}
use stadtstack.Staging.Process.Close
use stadtstack.Staging.Process.Invariant.{
  ProcessInv, may_close_in, is_over, start_asks_release, is_settled, PhaseFits,
}
use stadtstack.Staging.Process.Children
use stadtstack.Staging.Process.Child
use stadtstack.Staging.Process.Shapes.{is_early, early-Shape}

-- The children from `n` on are closed, as the reverse loop finds them before child `n - 1`.
abbrev Undone : ℕ → List Child → Type 0
Undone zero cs = All Children.IsClosed cs
Undone (suc n) cs = Children.Layout Children.IsAny Children.IsAny Children.IsClosed n cs

pub Undone-length : (n : ℕ) (cs : List Child) → length cs ≡ n → Undone n cs
Undone-length zero [] e = tt
Undone-length zero (c ∷ cs) e = absurd (omega (arith, e))
Undone-length (suc n) cs e = Children.Layout-top n cs e

pub Undone-next :
    (n : ℕ) (cs : List Child)
    → Close.has_closed (child_at n cs) ≡ true
    → Children.Layout Children.IsAny Children.IsAsked Children.IsClosed n cs
    → Undone n cs
Undone-next zero cs e h = Children.Layout-bottom cs e h
Undone-next (suc n) cs e h = Children.Layout-down n cs e h

close_child-shape :
    (b : Bool) (n : ℕ) (cs : List Child)
    → Undone (suc n) cs
    → Children.Layout Children.IsAny Children.IsAsked Children.IsClosed n
        (update_child n (Close.close_child_runtime b) cs)
close_child-shape b n cs h =
    Children.update-at _ Children.IsAny _ Children.IsAsked _ n cs
      (λ c k. Child.close_runtime-IsAsked b c) h

close_child-IsReached :
    (b : Bool) (n : ℕ) (cs : List Child)
    → All Children.IsReached cs
    → All Children.IsReached (update_child n (Close.close_child_runtime b) cs)
close_child-IsReached b n cs h = Children.update-All _ _ n cs (Child.close_runtime-IsReached b) h

-- A process whose start has failed, before its release.
pub record Failing (s : Process) : Type 0 where
  pub reached : All Children.IsReached s.children
  pub early : is_early s.close ≡ true
  pub phase_fails : PhaseFits s.phase (undoing_child 0) s.close
  pub unreleased : is_released s.release ≡ false
  pub uncalled : s.release_calls ≡ 0

pub undo_below-Inv :
    (b : Bool) (n : ℕ) (s : Process)
    → Failing s
    → Undone n s.children
    → ProcessInv (Close.undo_below b n s)
unfolding Close.undo_below
undo_below-Inv b zero s f u = record {
  reached = f.reached;
  control = ground arith;
  shape = early-Shape undo_releasing s.close _ f.early u;
}
undo_below-Inv b (suc n) s f u = record {
  reached = close_child-IsReached b n s.children f.reached;
  control = ground arith;
  shape = early-Shape (undoing_child n) s.close _ f.early (close_child-shape b n s.children u);
}

-- A process whose start is over and which stops its children.
pub record Stopping (s : Process) : Type 0 where
  pub reached : All Children.IsReached s.children
  pub over : is_over s.start ≡ true
  pub phase_open : may_close_in s.phase ≡ true
  pub release_asked : is_released s.release ≡ start_asks_release s.start
  pub rejected_settled : s.start ≡ start_rejected → is_settled s.release ≡ true
  pub once : s.release_calls ≡ (if is_released s.release then 1 else 0)

pub close_below-Inv :
    (b : Bool) (n : ℕ) (s : Process)
    → Stopping s
    → Undone n s.children
    → ProcessInv (Close.close_below b n s)
unfolding Close.close_below
close_below-Inv b zero s f u = record { reached = f.reached; control = ground arith; shape = u }
close_below-Inv b (suc n) s f u = record {
  reached = close_child-IsReached b n s.children f.reached;
  control = ground arith;
  shape = close_child-shape b n s.children u;
}

pub if-Inv :
    (b : Bool) (x y : Process)
    → (b ≡ true → ProcessInv x)
    → (b ≡ false → ProcessInv y)
    → ProcessInv (if b then x else y)
if-Inv true x y p q = p refl
if-Inv false x y p q = q refl
