-- ===== src/Staging/Process/Promises.antt =====
-- What the health and the settled promises of a process tell.
use stadtstack.Base.{
  ℕ, ◌≤◌, String, Option, some, List, [], ◌∷◌, All, Option-cases, ◌≡◌, ◌⊎◌, inl, inr, refl, arith,
  subst,
}
use stadtstack.Staging.Runtime.State
use stadtstack.Staging.Runtime.State.{Phase, ready, stopped, failed, Runtime, health}
use stadtstack.Staging.Runtime.Invariant.{runtime-Inv}
use stadtstack.Staging.Process.State.{
  Child, start_fulfilled, start_rejected, not_closing, close_fulfilled, close_rejected, Process,
  ready_port, with_port, child_ports, ready_ports, process_health,
}
use stadtstack.Staging.Process.Step.{ProcessReach}
use stadtstack.Staging.Process.Children.{IsUp, IsClosed, IsReached}
use stadtstack.Staging.Process.Invariant.{ProcessInv, StartShape}
use stadtstack.Staging.Process.Shapes.{start-Shape, final-Shape}
use stadtstack.Staging.Process.Turns.{process-Inv}

-- A child that is stopped, with its release callback called once.
pub record IsStopped (c : Child) : Type 0 where
  pub in_phase : c.runtime.phase ≡ stopped
  pub forgotten : c.runtime.tracked ≡ State.nothing_tracked
  pub release_done : c.runtime.release ≡ State.released

stopped_lem : (c : Child) → IsReached c → IsClosed c → IsStopped c
stopped_lem c r h = ground (arith, runtime-Inv r)

All-IsStopped : (cs : List Child) → All IsReached cs → All IsClosed cs → All IsStopped cs
All-IsStopped [] r h = tt
All-IsStopped (c ∷ cs) r h = (stopped_lem c r.0 h.0, All-IsStopped cs r.1 h.1)

-- The ports of ready children.
pub PortsOf : List Child → List (String × ℕ) → Type 0
PortsOf [] [] = Unit
PortsOf [] (p ∷ ps) = ⊥
PortsOf (c ∷ cs) [] = ⊥
PortsOf (c ∷ cs) ((id, port) ∷ ps) =
    (c.id ≡ id)
    × (c.runtime.phase ≡ ready)
    × (c.runtime.bound_port ≡ some port)
    × (port ≤ 65535)
    × PortsOf cs ps

up_port :
    (c : Child)
    → IsReached c
    → IsUp c
    → (p : ℕ) × (ready_port (health c.runtime) ≡ some p)
      × (c.runtime.phase ≡ ready)
      × (c.runtime.bound_port ≡ some p)
      × (p ≤ 65535)
unfolding health
up_port c r h = elim (Option-cases c.runtime.bound_port) [
  | inl e ↦ absurd (ground (arith, runtime-Inv r))
  | inr (p, e) ↦
      let i = runtime-Inv r in (p, ground (arith, i), ground (arith, i), e, ground (arith, i))
]

with_ports :
    (id : String) {o : Option ℕ} {ports : Option (List (String × ℕ))} {p : ℕ}
    {ps : List (String × ℕ)}
    → o ≡ some p
    → ports ≡ some ps
    → with_port id o ports ≡ some ((id, p) ∷ ps)
with_ports id e e' = ground arith

up_ports :
    (cs : List Child)
    → All IsReached cs
    → All IsUp cs
    → (ps : List (String × ℕ)) × (child_ports cs ≡ some ps) × PortsOf cs ps
unfolding child_ports PortsOf
up_ports [] r h = ([], refl, tt)
up_ports (c ∷ cs) r h =
    let (p, e, phase_ready, bound, fits) = up_port c r.0 h.0 in
    let (ps, e', rest) = up_ports cs r.1 h.1 in
    ((c.id, p) ∷ ps, with_ports c.id e e', (refl, phase_ready, bound, fits, rest))

-- The close of a process has an outcome: fulfilled where the release callback succeeded.
pub record IsEnded (s : Process) : Type 0 where
  pub in_phase : s.phase ≡ stopped
  pub children_stopped : All IsStopped s.children
  pub released_once : s.release_calls ≡ 1

-- Once the promise of `close` has settled, fulfilled or rejected, the process and all its children
-- are stopped, and the release callback has been called once.
pub closed-IsEnded :
    {listeners : List (String × String)} {s : Process}
    → ProcessReach listeners s
    → (s.close ≡ close_fulfilled) ⊎ (s.close ≡ close_rejected)
    → IsEnded s
closed-IsEnded {s = s} r e =
    let h = process-Inv r in
    record {
      in_phase = ground (arith, e, h.control);
      children_stopped =
          All-IsStopped s.children h.reached
            (final-Shape s.start s.close s.children (ground (arith, e)) h.shape);
      released_once = ground (arith, e, h.control);
    }

ready_children : (s : Process) → ProcessInv s → s.phase ≡ ready → All IsUp s.children
ready_children s h e =
    let open_yet : s.close ≡ not_closing = ground (arith, h.control) in
    subst (λ c. StartShape start_fulfilled c s.children) open_yet
      (start-Shape s.start start_fulfilled s.close s.children (ground (arith, h.control))
        (ground (arith, h.control)) h.shape)

PortsOf-ready :
    (s : Process) {ps : List (String × ℕ)}
    → s.phase ≡ ready
    → child_ports s.children ≡ some ps
    → PortsOf s.children ps
    → PortsOf s.children (process_health s).ports
unfolding process_health ready_ports
PortsOf-ready s e e' h = subst (PortsOf s.children) (ground arith) h

-- The health of a ready process shows, child by child, the port of each, and every child is ready
-- then.
pub ready-PortsOf :
    {listeners : List (String × String)} {s : Process}
    → ProcessReach listeners s
    → s.phase ≡ ready
    → PortsOf s.children (process_health s).ports
ready-PortsOf {s = s} r e =
    let h = process-Inv r in
    let (ps, e', ports) = up_ports s.children h.reached (ready_children s h e) in
    PortsOf-ready s e e' ports

-- Once the promise of `start` is rejected, before any call of `close`, all the children are stopped
-- and the release callback has been called once.
pub rejected-IsUndone :
    {listeners : List (String × String)} {s : Process}
    → ProcessReach listeners s
    → s.start ≡ start_rejected
    → s.close ≡ not_closing
    → All IsStopped s.children × (s.release_calls ≡ 1)
rejected-IsUndone {s = s} r e c =
    let h = process-Inv r in
    let once : s.release_calls ≡ 1 = ground (arith, e, h.control) in
    (
      All-IsStopped s.children h.reached
          (start-Shape s.start start_rejected s.close s.children e (ground (arith, c)) h.shape),
      once,
    )
