-- ===== src/Server.antt =====
-- internal/server: restoring the in-memory store from its snapshot file, writing the snapshot, on
-- every change (SyncSaveRepo) or periodically. The state is the store with the disk below it.
pub mod Recovery
pub mod Sync
pub mod Overlap
pub mod Periodic
pub mod Shutdown
pub mod Startup
use rtmetrics.Base.{
  ℕ, String, Bool, true, false, some, List, [], ◌∷◌, ◌&&◌, ◌||◌, not, if◌then◌else◌, ◌==◌, leb,
  nat_eq,
}
use rtmetrics.Base.Int64.{ℤ, pos, negsuc, neg_part}
use rtmetrics.Base.GoMap.{GoMap, Iteration, size, fill, empty}
use rtmetrics.Model.{Float64, Metrics}
use rtmetrics.Repository.{Result, ok, err, MetricsRepository}
use rtmetrics.Storage
use rtmetrics.Storage.{MemStorage}
use rtmetrics.Storage.File
use rtmetrics.Storage.File.{Codec, Calls, Disk, all_succeed}
use rtmetrics.Config.Server.{ServerConfig}

-- The system calls of the Saves still to come succeed or fail as `calls` says; where the list has
-- ended, all succeed.
pub record Server : Type 0 where
  pub mem : MemStorage
  pub disk : Disk
  pub calls : List Calls

abbrev pub next_calls : List Calls → Calls
next_calls [] = all_succeed
next_calls (c ∷ cs) = c

abbrev pub later_calls : List Calls → List Calls
later_calls [] = []
later_calls (c ∷ cs) = cs

abbrev pub is_zero : ℤ → Bool
is_zero (pos n) = nat_eq n 0
is_zero (negsuc n) = false

-- i <= 0
abbrev pub is_not_positive : ℤ → Bool
is_not_positive (pos n) = nat_eq n 0
is_not_positive (negsuc n) = true

-- What the package gets from outside: the JSON codec, the name that os.CreateTemp picks, and the
-- orders in which the runtime iterates over the maps.
pub record Platform : Type 0 where
  pub codec : Codec
  pub temp_name : String → String
  pub ints : Iteration ℕ
  pub floats : Iteration Float64

module _ (p : Platform) where
  -- The end of RestoreIfNeeded, with what Load returned.
  unfoldable pub restore_loaded : Result (GoMap ℕ × GoMap Float64) → Server → Server
  restore_loaded (err e) s = s
  restore_loaded (ok (counters, gauges)) s =
      if nat_eq (size counters) 0 && nat_eq (size gauges) 0
      then s
      else record s { mem = Storage.restore p.ints p.floats (some counters) (some gauges) s.mem }

  -- `readable` is false where the file is there and cannot be read.
  unfoldable pub restore_if_needed : Bool → ServerConfig → Server → Server
  unfolding restore_loaded
  restore_if_needed readable cfg s =
      if not cfg.restore || cfg.file_storage_path == ""
      then s
      else restore_loaded (File.load p.codec readable cfg.file_storage_path s.disk) s

  -- The Save of SaveSnapshot: it ranges over copies of the two maps.
  unfoldable pub snapshot_save : ServerConfig → Server → Result (Unit {0}) × Disk
  snapshot_save cfg s =
      File.save p.codec p.temp_name (next_calls s.calls) cfg.file_storage_path
        (p.ints.order (fill (p.ints.order s.mem.counters) empty))
        (p.floats.order (fill (p.floats.order s.mem.gauges) empty)) s.disk

  -- An error of Save is logged and dropped.
  unfoldable pub save_snapshot : ServerConfig → Server → Server
  save_snapshot cfg s =
      if cfg.file_storage_path == ""
      then s
      else record s { disk = (snapshot_save cfg s).1; calls = later_calls s.calls }

  -- What follows a write of SyncSaveRepo.
  unfoldable pub sync_snapshot : ServerConfig → Server → Server
  unfolding save_snapshot
  sync_snapshot cfg s =
      if is_zero cfg.store_interval && not (cfg.file_storage_path == "")
      then save_snapshot cfg s
      else s

  -- `v, err := s.repo.M(…); if err != nil { return v, err }; …; return v, nil`
  unfoldable pub after_save {ℓ} :
      {A : Type ℓ} → ServerConfig → Server → Result A × MemStorage → Result A × Server
  unfolding sync_snapshot
  after_save cfg s (err e, mem) = (err e, record s { mem = mem })
  after_save cfg s (ok v, mem) = (ok v, sync_snapshot cfg (record s { mem = mem }))

  abbrev pub read_only {ℓ} : {A : Type ℓ} → Server → Result A × MemStorage → Result A × Server
  read_only s (r, mem) = (r, record s { mem = mem })

  unfoldable pub sync_save_counter : ServerConfig → String → ℕ → Server → Result ℕ × Server
  unfolding after_save
  sync_save_counter cfg name value s = after_save cfg s (Storage.save_counter name value s.mem)

  unfoldable pub sync_save_gauge :
      ServerConfig → String → Float64 → Server → Result Float64 × Server
  unfolding after_save
  sync_save_gauge cfg name value s = after_save cfg s (Storage.save_gauge name value s.mem)

  unfoldable pub sync_save_batch : ServerConfig → List Metrics → Server → Result (Unit {0}) × Server
  unfolding after_save
  sync_save_batch cfg ms s = after_save cfg s (Storage.save_batch ms s.mem)

  -- *SyncSaveRepo as a repository; reads go through to the store.
  abbrev pub sync_repository : ServerConfig → MetricsRepository Server
  sync_repository cfg = record {
    save_counter = sync_save_counter cfg;
    save_gauge = sync_save_gauge cfg;
    get_counter = λ name s. read_only s (Storage.get_counter name s.mem);
    get_gauge = λ name s. read_only s (Storage.get_gauge name s.mem);
    get_all_counters = λ s. read_only s (Storage.get_all_counters p.ints p.floats s.mem);
    get_all_gauges = λ s. read_only s (Storage.get_all_gauges p.ints p.floats s.mem);
    save_batch = sync_save_batch cfg;
  }
