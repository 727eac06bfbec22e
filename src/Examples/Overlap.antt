-- ===== src/Examples/Overlap.antt =====
-- Overlapping calls of SyncSaveRepo (internal/server/sync_repo.go) at concrete inputs.
use rtmetrics.Base.{◌≡◌, refl, true, some, List, [], ◌∷◌, ◌++◌, inl}
use rtmetrics.Base.Int64.{add64}
use rtmetrics.Base.GoMap.{fill, empty, get, put, range, lookup}
use rtmetrics.Model.{new_counter, new_gauge}
use rtmetrics.Repository.{is_ok}
use rtmetrics.Repository.Contract.{SameView}
use rtmetrics.Storage.{new, save_counter}
use rtmetrics.Storage.Refinement.{view}
use rtmetrics.Storage.History.{counter_op, step}
use rtmetrics.Storage.File.{save, snapshot_items, write_temp, replace_file}
use rtmetrics.Server.{Server, snapshot_save, save_snapshot, restore_if_needed}
use rtmetrics.Server.Recovery.{restarted}
use rtmetrics.Server.Overlap.{
  Step, writes, copies_counters, copies_gauges, saves, started, saved_copy, one_step, run_steps,
}
use rtmetrics.Server.Overlap.Restored.{restore_if_needed-run_steps}
use rtmetrics.Examples.Toolkit.{
  toy_codec-IsFaithful, toy_platform, sync_config, path_named, path_apart,
}

abbrev fresh : Server
fresh = record { mem = new; disk = empty; calls = [] }

-- Two calls write. The first has copied the store before the second writes, and is the last to save: its
-- older copy replaces the newer file.
abbrev first_written : List Step
first_written = writes (counter_op "hits" 3) ∷ []

abbrev first_copies : List Step
first_copies = copies_counters 0 ∷ copies_gauges 0 ∷ []

abbrev second_call : List Step
second_call = writes (counter_op "hits" 1) ∷ copies_counters 1 ∷ copies_gauges 1 ∷ saves 1 ∷ []

first_saves :
    is_ok
      (snapshot_save toy_platform sync_config
        (record (run_steps toy_platform sync_config
          (first_written ++ (first_copies ++ second_call))
          (started fresh)).server {
            mem = (run_steps toy_platform sync_config first_written (started fresh)).server.mem;
          })).0
    ≡ true
unfolding run_steps one_step saved_copy save_snapshot snapshot_save save write_temp replace_file
    snapshot_items range put empty get fill step save_counter new_counter new_gauge
first_saves = refl

restore_if_needed-run_steps_example :
    SameView
      (view
        (restore_if_needed toy_platform true sync_config (
          restarted
            (run_steps toy_platform sync_config
              ((first_written ++ (first_copies ++ second_call)) ++ saves 0 ∷ [])
              (started fresh)).server)).mem)
      (view (run_steps toy_platform sync_config first_written (started fresh)).server.mem)
restore_if_needed-run_steps_example =
    restore_if_needed-run_steps toy_platform sync_config first_written first_copies second_call [] 0
      fresh toy_codec-IsFaithful path_named path_apart refl tt (inl refl) (inl refl)
      (refl, (refl, tt)) tt first_saves

-- So the acknowledged write of the second call is lost: the store has 4, and 3 is restored.
lost_write :
    (get
        (run_steps toy_platform sync_config
          ((first_written ++ (first_copies ++ second_call)) ++ saves 0 ∷ [])
          (started fresh)).server.mem.counters
        "hits"
      ≡ some 4)
    × (get
          (run_steps toy_platform sync_config first_written (started fresh)).server.mem.counters
          "hits"
        ≡ some 3)
unfolding run_steps one_step saved_copy put empty get lookup step save_counter add64
lost_write = (refl, refl)
