-- ===== src/Server/Sync.antt =====
-- SyncSaveRepo (internal/server/sync_repo.go) against the contract of a repository, and what is on
-- the disk after a write.
use rtmetrics.Base.{◌≡◌, ◌≢◌, refl, true, arith, eq_iff}
use rtmetrics.Base.Int64.{pos}
use rtmetrics.Repository.{Result, ok, err, is_ok}
use rtmetrics.Repository.Contract.{SameView, Implements}
use rtmetrics.Storage.{MemStorage, save_counter, save_gauge, save_batch}
use rtmetrics.Storage.Refinement.{view, mem_repository-Implements}
use rtmetrics.Storage.History.{Op, counter_op, gauge_op, batch_op, step}
use rtmetrics.Storage.File.{IsFaithful}
use rtmetrics.Config.Server.{ServerConfig}
use rtmetrics.Server.{
  Server, Platform, save_snapshot, snapshot_save, sync_snapshot, after_save, sync_save_counter,
  sync_save_gauge, sync_save_batch, sync_repository, restore_if_needed,
}
use rtmetrics.Server.Recovery.{restarted, restore_if_needed-save_snapshot}

-- A call of a method of SyncSaveRepo that writes, while no other call runs; Server/Overlap has calls
-- that overlap.
unfoldable pub sync_step : Platform → ServerConfig → Op → Server → Server
sync_step p cfg (counter_op name delta) s = (sync_save_counter p cfg name delta s).1
sync_step p cfg (gauge_op name value) s = (sync_save_gauge p cfg name value s).1
sync_step p cfg (batch_op ms) s = (sync_save_batch p cfg ms s).1

module _ (p : Platform) (cfg : ServerConfig) where
  -- A snapshot leaves the store as it is.
  mem-sync_snapshot : (s : Server) → (sync_snapshot p cfg s).mem ≡ s.mem
  unfolding sync_snapshot
  mem-sync_snapshot s = ground arith

  after_save-result {ℓ} :
      {A : Type ℓ} (s : Server) (r : Result A × MemStorage) → (after_save p cfg s r).0 ≡ r.0
  unfolding after_save
  after_save-result s (ok v, mem) = refl
  after_save-result s (err e, mem) = refl

  after_save-mem {ℓ} :
      {A : Type ℓ} (s : Server) (r : Result A × MemStorage) → (after_save p cfg s r).1.mem ≡ r.1
  unfolding after_save
  after_save-mem s (ok v, mem) = mem-sync_snapshot (record s { mem = mem })
  after_save-mem s (err e, mem) = refl

  -- SyncSaveRepo implements the contract of a repository as the in-memory store does, whatever
  -- becomes of the snapshots: a failing system call or codec changes no result and no metric.
  pub sync_repository-Implements : Implements (sync_repository p cfg) (λ s. view s.mem)
  unfolding sync_save_counter sync_save_gauge sync_save_batch
  sync_repository-Implements =
      let mem = mem_repository-Implements p.ints p.floats in
      record {
        counter_saved = λ name delta s.
            rw
              (
                after_save-result s (save_counter name delta s.mem),
                after_save-mem s (save_counter name delta s.mem),
              )
              (mem.counter_saved name delta s.mem);
        gauge_saved = λ name value s.
            rw
              (
                after_save-result s (save_gauge name value s.mem),
                after_save-mem s (save_gauge name value s.mem),
              )
              (mem.gauge_saved name value s.mem);
        batch_saved = λ ms s.
            rw (after_save-result s (save_batch ms s.mem), after_save-mem s (save_batch ms s.mem))
              (mem.batch_saved ms s.mem);
        counter_read = λ name s. mem.counter_read name s.mem;
        gauge_read = λ name s. mem.gauge_read name s.mem;
        all_counters_read = λ s. mem.all_counters_read s.mem;
        all_gauges_read = λ s. mem.all_gauges_read s.mem;
      }

  module _ (faithful : IsFaithful p.codec) (named : cfg.file_storage_path ≢ "")
      (apart : p.temp_name cfg.file_storage_path ≢ cfg.file_storage_path) (on : cfg.restore ≡ true)
      (interval : cfg.store_interval ≡ pos 0) where
    after_save_synced {ℓ} :
        {A : Type ℓ} (s : Server) (v : A) (mem : MemStorage)
        → (after_save p cfg s (ok v, mem)).1 ≡ save_snapshot p cfg (record s { mem = mem })
    unfolding after_save sync_snapshot
    after_save_synced s v mem = ground (arith, eq_iff cfg.file_storage_path "")

    after_save_durable {ℓ} :
        {A : Type ℓ} (s : Server) (r : Result A × MemStorage)
        → is_ok r.0 ≡ true
        → is_ok (snapshot_save p cfg (record s { mem = r.1 })).0 ≡ true
        → SameView
            (view (restore_if_needed p true cfg (restarted (after_save p cfg s r).1)).mem)
            (view (after_save p cfg s r).1.mem)
    after_save_durable s (ok v, mem) acknowledged done = rw (after_save-mem s (ok v, mem)) (
        rw (after_save_synced {ℓ} s v mem) (
          restore_if_needed-save_snapshot p cfg (record s { mem = mem }) faithful named apart on
            done))
    after_save_durable s (err e, mem) acknowledged done = cc

    -- A call of SaveCounter, SaveGauge or SaveBatch while no other call runs, whose snapshot is written
    -- without an error: a process started after it restores the metrics that the store holds then.
    pub sync_step-durable :
        (op : Op) (s : Server)
        → is_ok (snapshot_save p cfg (record s { mem = step op s.mem })).0 ≡ true
        → SameView
            (view (restore_if_needed p true cfg (restarted (sync_step p cfg op s))).mem)
            (view (sync_step p cfg op s).mem)
    unfolding sync_step sync_save_counter sync_save_gauge sync_save_batch step save_counter
        save_gauge save_batch
    sync_step-durable (counter_op name delta) s done =
        after_save_durable s (save_counter name delta s.mem) refl done
    sync_step-durable (gauge_op name value) s done =
        after_save_durable s (save_gauge name value s.mem) refl done
    sync_step-durable (batch_op ms) s done = after_save_durable s (save_batch ms s.mem) refl done
