-- ===== src/Server/Periodic.antt =====
-- RunPeriodicSave (internal/server/snapshot.go) beside the writers of the store: a schedule lists
-- what happens in order, a tick that the loop takes, a write by a handler, or the loop taking ctx.Done. Once
-- the context is cancelled select may still take ticks that are ready: they stand before `done` then.
use rtmetrics.Base.{◌≡◌, refl, List, [], ◌∷◌, ◌||◌, arith, if◌then◌else◌, ◌==◌}
use rtmetrics.Storage.History.{Op, step, run}
use rtmetrics.Config.Server.{ServerConfig}
use rtmetrics.Server.{Server, Platform, is_not_positive, save_snapshot}

pub data Event : Type 0 where
  tick : Event
  done : Event
  write : Op → Event

-- A write that another goroutine makes meanwhile.
abbrev pub written : Op → Server → Server
written op s = record s { mem = step op s.mem }

-- Once the loop has returned.
unfoldable pub writes_only : List Event → Server → Server
writes_only [] s = s
writes_only (write op ∷ es) s = writes_only es (written op s)
writes_only (tick ∷ es) s = writes_only es s
writes_only (done ∷ es) s = writes_only es s

-- The select loop: it returns at `done`; the writes go on without it.
unfoldable pub save_loop : Platform → ServerConfig → List Event → Server → Server
save_loop p cfg [] s = s
save_loop p cfg (tick ∷ es) s = save_loop p cfg es (save_snapshot p cfg s)
save_loop p cfg (write op ∷ es) s = save_loop p cfg es (written op s)
save_loop p cfg (done ∷ es) s = writes_only es s

unfoldable pub run_periodic_save : Platform → ServerConfig → List Event → Server → Server
unfolding save_loop
run_periodic_save p cfg es s =
    if is_not_positive cfg.store_interval || cfg.file_storage_path == ""
    then writes_only es s
    else save_loop p cfg es s

-- The writes of a schedule.
abbrev pub writes : List Event → List Op
writes [] = []
writes (write op ∷ es) = op ∷ writes es
writes (tick ∷ es) = writes es
writes (done ∷ es) = writes es

module _ (p : Platform) (cfg : ServerConfig) where
  mem-save_snapshot : (s : Server) → (save_snapshot p cfg s).mem ≡ s.mem
  unfolding save_snapshot
  mem-save_snapshot s = ground arith

  mem-writes_only : (es : List Event) (s : Server) → (writes_only es s).mem ≡ run (writes es) s.mem
  unfolding writes_only run
  mem-writes_only [] s = refl
  mem-writes_only (write op ∷ es) s = mem-writes_only es (written op s)
  mem-writes_only (tick ∷ es) s = mem-writes_only es s
  mem-writes_only (done ∷ es) s = mem-writes_only es s

  mem-save_loop :
      (es : List Event) (s : Server) → (save_loop p cfg es s).mem ≡ run (writes es) s.mem
  unfolding save_loop run
  mem-save_loop [] s = refl
  mem-save_loop (write op ∷ es) s = mem-save_loop es (written op s)
  mem-save_loop (tick ∷ es) s = rw (mem-save_loop es (save_snapshot p cfg s), mem-save_snapshot s)
  mem-save_loop (done ∷ es) s = mem-writes_only es s

  -- The store after a schedule is that of the writes alone.
  pub mem-run_periodic_save :
      (es : List Event) (s : Server) → (run_periodic_save p cfg es s).mem ≡ run (writes es) s.mem
  unfolding run_periodic_save
  mem-run_periodic_save es s = ground (arith, mem-save_loop es s, mem-writes_only es s)
