-- ===== src/Listener/Paths/Drain.antt =====
-- No interleaving lets a drained path of src/supervisor.rs stop under a connection.
use causeway.Prelude.{ℕ, ◌-◌, ◌≤◌, ◌<◌, ◌≡◌, ◌≢◌, some, List, [], ◌∷◌, ◌==◌, if◌then◌else◌, arith}
use causeway.Listener.Paths.{
  unborn, active, stopped, forced, World, start, publish, capture, remove_one, release, stop,
  force_stop, occurs, Step, publishes, captures, releases, forces, stops, Reach, here, next,
}

record Inv (w : World) : Type 0 where
  counted : (p : ℕ) → w.path_connections p ≡ occurs p w.live
  installed_active : (p : ℕ) → w.installed ≡ some p → w.phase p ≡ active
  active_installed : (p : ℕ) → w.phase p ≡ active → w.installed ≡ some p
  stopped_idle : (p : ℕ) → w.phase p ≡ stopped → w.path_connections p ≡ 0
  unborn_idle : (p : ℕ) → w.fresh ≤ p → w.path_connections p ≡ 0
  unborn_phase : (p : ℕ) → w.fresh ≤ p → w.phase p ≡ unborn

pub occurs-remove_one :
    (p q : ℕ) (l : List ℕ)
    → 0 < occurs p l
    → occurs q (remove_one p l) ≡ (if q == p then occurs q l - 1 else occurs q l)
unfolding remove_one
occurs-remove_one p q [] h = absurd (omega arith)
occurs-remove_one p q (x ∷ l) h = ground (arith, occurs-remove_one p q l)

Step-Inv : {w u : World} → Step w u → Inv w → Inv u
unfolding publish capture release stop force_stop
Step-Inv (publishes w) h = record {
  counted = λ p. ground (arith, h.counted p, h.unborn_idle p);
  installed_active = λ p e. ground arith;
  active_installed = λ p e. ground (arith, h.active_installed p);
  stopped_idle = λ p e. ground (arith, h.stopped_idle p);
  unborn_idle = λ p e. ground (arith, h.unborn_idle p);
  unborn_phase = λ p e. ground (arith, h.unborn_phase p, h.installed_active p);
}
Step-Inv (captures w q i) h = record {
  counted = λ p. ground (arith, h.counted p, h.counted q);
  installed_active = λ p e. h.installed_active p e;
  active_installed = λ p e. h.active_installed p e;
  stopped_idle = λ p e. ground (arith, h.stopped_idle p, h.installed_active q i);
  unborn_idle = λ p e. ground (arith, h.unborn_idle p, h.unborn_phase q, h.installed_active q i);
  unborn_phase = λ p e. h.unborn_phase p e;
}
Step-Inv (releases w q i) h = record {
  counted = λ p. ground (arith, h.counted p, h.counted q, occurs-remove_one q p w.live i);
  installed_active = λ p e. h.installed_active p e;
  active_installed = λ p e. h.active_installed p e;
  stopped_idle = λ p e. ground (arith, h.stopped_idle p);
  unborn_idle = λ p e. ground (arith, h.unborn_idle p);
  unborn_phase = λ p e. h.unborn_phase p e;
}
Step-Inv (stops w q r z) h = record {
  counted = λ p. h.counted p;
  installed_active = λ p e. ground (arith, h.installed_active p);
  active_installed = λ p e. ground (arith, h.active_installed p);
  stopped_idle = λ p e. ground (arith, h.stopped_idle p);
  unborn_idle = λ p e. h.unborn_idle p e;
  unborn_phase = λ p e. ground (arith, h.unborn_phase p, h.unborn_phase q);
}
Step-Inv (forces w q r) h = record {
  counted = λ p. h.counted p;
  installed_active = λ p e. ground (arith, h.installed_active p);
  active_installed = λ p e. ground (arith, h.active_installed p);
  stopped_idle = λ p e. ground (arith, h.stopped_idle p);
  unborn_idle = λ p e. h.unborn_idle p e;
  unborn_phase = λ p e. ground (arith, h.unborn_phase p, h.unborn_phase q);
}

Reach-Inv : {w : World} → Reach start w → Inv w
Reach-Inv here = record {
  counted = λ p. omega arith;
  installed_active = λ p e. cc;
  active_installed = λ p e. cc;
  stopped_idle = λ p e. omega arith;
  unborn_idle = λ p e. omega arith;
  unborn_phase = λ p e. cc;
}
Reach-Inv (next r s) = Step-Inv s (Reach-Inv r)

-- However publications, captures, releases, drains and the hard caps or shutdowns that cut a drain
-- short interleave, the counter of every path is the number of its open connections; no open
-- connection holds a path that was stopped because it had drained, so only the hard cap or shutdown
-- stops a path in use; and the installed path is neither.
pub Reach-drained :
    (w : World) (p : ℕ)
    → Reach start w
    → (w.path_connections p ≡ occurs p w.live)
      × (w.phase p ≡ stopped → occurs p w.live ≡ 0)
      × (w.installed ≡ some p → (w.phase p ≢ stopped) × (w.phase p ≢ forced))
Reach-drained w p r =
    let h = Reach-Inv r in
    (
      h.counted p,
      λ e. ground (arith, h.counted p, h.stopped_idle p e),
      λ i. (
        (λ e. ground (arith, h.installed_active p i)),
        (λ e. ground (arith, h.installed_active p i)),
      ),
    )
