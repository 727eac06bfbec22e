-- ===== src/Server/Recovery.antt =====
-- A restart after a snapshot (internal/server/snapshot.go): what the server restores.
use rtmetrics.Base.{ℕ, ◌≡◌, ◌≢◌, refl, ◌∙◌, true, ◌&&◌, arith, nat_eq, eq_iff, Bool-cases, inl, inr}
use rtmetrics.Base.GoMap.{
  GoMap, empty, get, fill, size, get-empty, get-fill_range, get_of_size_zero,
}
use rtmetrics.Model.{Float64}
use rtmetrics.Repository.{ok, is_ok}
use rtmetrics.Repository.Contract.{SameView, SameView-trans}
use rtmetrics.Storage.{new, restore}
use rtmetrics.Storage.Refinement.{view}
use rtmetrics.Storage.File.{IsFaithful, load}
use rtmetrics.Storage.File.RoundTrip.{load-save}
use rtmetrics.Config.Server.{ServerConfig}
use rtmetrics.Server.{
  Server, Platform, next_calls, restore_loaded, restore_if_needed, snapshot_save, save_snapshot,
}

-- A new process over the disk that the old one left.
abbrev pub restarted : Server → Server
restarted s = record { mem = new; disk = s.disk; calls = s.calls }

module _ (p : Platform) where
  -- Restoring into a new store what Load returned gives a store with just that content.
  restore_loaded-view :
      (c : GoMap ℕ) (g : GoMap Float64) (s : Server)
      → s.mem ≡ new
      → SameView
          (view (restore_loaded p (ok (c, g)) s).mem)
          (record { counters = λ k. get c k; gauges = λ k. get g k })
  unfolding restore_loaded restore
  restore_loaded-view c g s fresh = elim (Bool-cases (nat_eq (size c) 0 && nat_eq (size g) 0)) [
    | inl none_there ↦ record {
      counters = λ k. ground (arith, none_there, get-empty {V = ℕ} k, get_of_size_zero c k);
      gauges = λ k. ground (arith, none_there, get-empty {V = Float64} k, get_of_size_zero g k);
    }
    | inr some_there ↦ record {
      counters = λ k. ground (arith, get-fill_range (p.ints.order c) c k (p.ints.is_range c));
      gauges = λ k. ground (arith, get-fill_range (p.floats.order g) g k (p.floats.is_range g));
    }
  ]

  pub disk-save_snapshot :
      (cfg : ServerConfig) (s : Server)
      → cfg.file_storage_path ≢ ""
      → (save_snapshot p cfg s).disk ≡ (snapshot_save p cfg s).1
  unfolding save_snapshot
  disk-save_snapshot cfg s named = ground (arith, eq_iff cfg.file_storage_path "")

  restore_if_needed_on :
      (cfg : ServerConfig) (s : Server)
      → cfg.file_storage_path ≢ ""
      → cfg.restore ≡ true
      → restore_if_needed p true cfg s
        ≡ restore_loaded p (load p.codec true cfg.file_storage_path s.disk) s
  unfolding restore_if_needed
  restore_if_needed_on cfg s named on = ground (arith, eq_iff cfg.file_storage_path "")

  -- After a snapshot that was written without an error, a new process that restores from the file
  -- has every counter and every gauge of the old one with its value, and no others. (The path is
  -- not empty, restoring is on, the temporary file is another one, the codec decodes what it
  -- encodes, and the file can be read.)
  pub restore_if_needed-save_snapshot :
      (cfg : ServerConfig) (s : Server)
      → IsFaithful p.codec
      → cfg.file_storage_path ≢ ""
      → p.temp_name cfg.file_storage_path ≢ cfg.file_storage_path
      → cfg.restore ≡ true
      → is_ok (snapshot_save p cfg s).0 ≡ true
      → SameView
          (view (restore_if_needed p true cfg (restarted (save_snapshot p cfg s))).mem)
          (view s.mem)
  unfolding snapshot_save
  restore_if_needed-save_snapshot cfg s faithful named apart on done =
      let counters = fill (p.ints.order s.mem.counters) empty in
      let gauges = fill (p.floats.order s.mem.gauges) empty in
      let (c, g, loaded, same_c, same_g) =
        load-save p.codec p.temp_name cfg.file_storage_path faithful named apart
          (p.ints.order counters) (p.floats.order gauges) s.disk (next_calls s.calls) counters
          gauges (p.ints.is_range counters) (p.floats.is_range gauges) done in
      rw (restore_if_needed_on cfg (restarted (save_snapshot p cfg s)) named on) (
        rw (disk-save_snapshot cfg s named) (
          rw loaded (
            SameView-trans
              (restore_loaded-view c g (record { mem = new; disk = _; calls = _ }) refl)
              (record {
                counters = λ k.
                    same_c k ∙ get-fill_range _ s.mem.counters k (p.ints.is_range s.mem.counters);
                gauges = λ k.
                    same_g k ∙ get-fill_range _ s.mem.gauges k (p.floats.is_range s.mem.gauges);
              }))))
