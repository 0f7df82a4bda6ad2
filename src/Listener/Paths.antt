-- ===== src/Listener/Paths.antt =====
-- Connections and route switches interleaved: the counter of an installed path (`PathConnGuard` and
-- the route lock of src/listener.rs) and the retirement of a path (src/supervisor.rs,
-- `install_active` and `schedule_drain_with`). A path is named by a number, as is its counter.
pub mod Drain
use causeway.Prelude.{ℕ, ◌+◌, ◌-◌, ◌<◌, ◌≡◌, Option, none, some, List, [], ◌∷◌, ◌==◌, if◌then◌else◌}

pub data Phase : Type 0 where
  unborn active retired stopped forced : Phase

pub record World : Type 0 where
  pub installed : Option ℕ
  pub fresh : ℕ
  pub phase : ℕ → Phase
  pub path_connections : ℕ → ℕ
  pub live : List ℕ  -- the path that each open connection captured

abbrev pub update {ℓ} : {A : Type ℓ} → (ℕ → A) → ℕ → A → ℕ → A
update f k v n = if n == k then v else f n

abbrev pub start : World
start = record {
  installed = none;
  fresh = 0;
  phase = λ p. unborn;
  path_connections = λ p. 0;
  live = [];
}

abbrev retire : Option ℕ → (ℕ → Phase) → ℕ → Phase
retire none phase = phase
retire (some p) phase = update phase p retired

-- `install_active` under the route's write lock: the new path has a new counter, and the old one
-- is handed to `schedule_drain`.
unfoldable pub publish : World → World
publish w = record {
  installed = some w.fresh;
  fresh = w.fresh + 1;
  phase = update (retire w.installed w.phase) w.fresh active;
  path_connections = update w.path_connections w.fresh 0;
  live = w.live;
}

-- `PathConnGuard::new` under the route's read lock.
unfoldable pub capture : World → ℕ → World
capture w p = record w {
  path_connections = update w.path_connections p (w.path_connections p + 1);
  live = p ∷ w.live;
}

unfoldable pub remove_one : ℕ → List ℕ → List ℕ
remove_one p [] = []
remove_one p (q ∷ qs) = if q == p then qs else q ∷ remove_one p qs

-- `PathConnGuard::drop`
unfoldable pub release : World → ℕ → World
release w p = record w {
  path_connections = update w.path_connections p (w.path_connections p - 1);
  live = remove_one p w.live;
}

unfoldable pub stop : World → ℕ → World
stop w p = record w { phase = update w.phase p stopped }

-- The hard cap or shutdown ends the drain, whatever still uses the path.
unfoldable pub force_stop : World → ℕ → World
force_stop w p = record w { phase = update w.phase p forced }

abbrev pub occurs : ℕ → List ℕ → ℕ
occurs p [] = 0
occurs p (q ∷ qs) = (if q == p then 1 else 0) + occurs p qs

-- The moves of publishers, clients and drain tasks. `forces` is the hard cap, or shutdown:
-- it may come at any time after the retirement.
pub data Step : World → World → Type 0 where
  publishes : (w : World) → Step w (publish w)
  captures : (w : World) (p : ℕ) → w.installed ≡ some p → Step w (capture w p)
  releases : (w : World) (p : ℕ) → 0 < occurs p w.live → Step w (release w p)
  forces : (w : World) (p : ℕ) → w.phase p ≡ retired → Step w (force_stop w p)
  stops : (w : World) (p : ℕ) → w.phase p ≡ retired → w.path_connections p ≡ 0 → Step w (stop w p)

pub data Reach (s : World) : World → Type 0 where
  here : Reach s s
  next : {w u : World} → Reach s w → Step w u → Reach s u
