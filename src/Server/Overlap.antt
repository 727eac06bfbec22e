-- ===== src/Server/Overlap.antt =====
-- Calls of SyncSaveRepo (internal/server/sync_repo.go) that overlap: no lock is held over a write and
-- its snapshot. Each access to the store is one step, under the store's mutex, and so is a Save, which
-- changes the file where it renames. The store interval is 0, so that every write has its snapshot.
pub mod Copies
pub mod Restored
use rtmetrics.Base.{
  ℕ, ◌≡◌, ◌≢◌, refl, ap, ◌∙◌, Bool, true, false, ◌⊎◌, inl, inr, List, [], ◌∷◌, ◌++◌, nat_eq,
  if◌then◌else◌, arith, Bool-cases,
}
use rtmetrics.Repository.{is_ok}
use rtmetrics.Repository.Contract.{SameView}
use rtmetrics.Storage.{MemStorage, new}
use rtmetrics.Storage.Refinement.{view}
use rtmetrics.Storage.History.{Op, step}
use rtmetrics.Storage.File.{IsFaithful}
use rtmetrics.Config.Server.{ServerConfig}
use rtmetrics.Server.{Server, Platform, save_snapshot, snapshot_save, restore_if_needed}
use rtmetrics.Server.Recovery.{restarted, restore_if_needed-save_snapshot}

-- The steps of the calls, which have numbers: the write to the store, then GetAllCounters and
-- GetAllGauges of SaveSnapshot, and its Save of what these returned.
pub data Step : Type 0 where
  writes : Op → Step
  copies_counters copies_gauges saves : ℕ → Step

-- The server, and what each call has copied.
pub record Calling : Type 0 where
  pub server : Server
  pub copies : ℕ → MemStorage

abbrev pub started : Server → Calling
started s = record { server = s; copies = λ i. new }

abbrev pub updated : ℕ → (MemStorage → MemStorage) → (ℕ → MemStorage) → ℕ → MemStorage
updated i f copies j = if nat_eq i j then f (copies j) else copies j

abbrev pub with_counters : MemStorage → MemStorage → MemStorage
with_counters s m = record m { counters = s.counters }

abbrev pub with_gauges : MemStorage → MemStorage → MemStorage
with_gauges s m = record m { gauges = s.gauges }

module _ (p : Platform) (cfg : ServerConfig) where
  -- Save ranges over the copies.
  unfoldable pub saved_copy : MemStorage → Server → Server
  saved_copy copy s = record (save_snapshot p cfg (record s { mem = copy })) { mem = s.mem }

  unfoldable pub one_step : Step → Calling → Calling
  unfolding saved_copy
  one_step (writes op) c = record c { server = record c.server { mem = step op c.server.mem } }
  one_step (copies_counters i) c = record c {
    copies = updated i (with_counters c.server.mem) c.copies;
  }
  one_step (copies_gauges i) c = record c { copies = updated i (with_gauges c.server.mem) c.copies }
  one_step (saves i) c = record c { server = saved_copy (c.copies i) c.server }

  unfoldable pub run_steps : List Step → Calling → Calling
  unfolding one_step
  run_steps [] c = c
  run_steps (e ∷ es) c = run_steps es (one_step e c)
