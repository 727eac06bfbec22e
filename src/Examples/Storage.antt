-- ===== src/Examples/Storage.antt =====
-- The theorems on internal/storage and internal/server at concrete inputs.
use mathlib.Core.List.{Perm}
use mathlib.Core.List.Perm
use rtmetrics.Base.{ℕ, String, ◌≡◌, refl, true, false, some, List, [], ◌∷◌}
use rtmetrics.Base.GoMap.{fill, GoMap, empty, get, put, range, range-IsRange}
use rtmetrics.Model.{Float64, new_counter, new_gauge}
use rtmetrics.Repository.{ok, is_ok}
use rtmetrics.Repository.Contract.{Implements, SameView}
use rtmetrics.Storage.{new, save_counter, mem_repository}
use rtmetrics.Storage.Refinement.{view, mem_repository-Implements}
use rtmetrics.Storage.History.{
  Op, counter_op, gauge_op, batch_op, step, run, total, last, wrapped, run-new, run-perm,
}
use rtmetrics.Storage.File.{
  Calls, Disk, all_succeed, save, load, snapshot_items, write_temp, replace_file,
}
use rtmetrics.Storage.File.Outcome.{Outcome, save-Outcome}
use rtmetrics.Storage.File.RoundTrip.{load-save}
use rtmetrics.Server.{Server, snapshot_save, save_snapshot, restore_if_needed, sync_repository}
use rtmetrics.Server.Recovery.{restarted, restore_if_needed-save_snapshot}
use rtmetrics.Server.Sync.{sync_repository-Implements}
use rtmetrics.Server.Periodic.{write, run_periodic_save, writes}
use rtmetrics.Server.Shutdown.{stopped, serve, restore_if_needed-serve}
use rtmetrics.Server.Periodic.{save_loop, writes_only}
use rtmetrics.Examples.Toolkit.{
  toy_codec, toy_codec-IsFaithful, ranges, toy_platform, sync_config, periodic_config,
  snapshot_path, temp_path, path_named, path_apart, two_metrics,
}

mem_repository-Implements_example : Implements (mem_repository ranges ranges) view
mem_repository-Implements_example = mem_repository-Implements ranges ranges

abbrev some_ops : List Op
some_ops = counter_op "hits" 3 ∷ gauge_op "temp" (record { bits = 1 }) ∷ batch_op two_metrics ∷ []

-- The counter has 3 + 2, the gauge its last value.
run-new_example :
    (get (run some_ops new).counters "hits" ≡ wrapped (total "hits" some_ops))
    × (get (run some_ops new).gauges "hits" ≡ last "hits" some_ops)
run-new_example = run-new "hits" some_ops

total_test : (total "hits" some_ops ≡ some 5) × (last "temp" some_ops ≡ some (record { bits = 7 }))
unfolding total last new_counter new_gauge
total_test = (refl, refl)

abbrev other_ops : List Op
other_ops = gauge_op "temp" (record { bits = 1 }) ∷ counter_op "hits" 3 ∷ batch_op two_metrics ∷ []

ops_perm : Perm some_ops other_ops
ops_perm =
    Perm.swap (gauge_op "temp" (record { bits = 1 })) (counter_op "hits" 3)
      (batch_op two_metrics ∷ [])

run-perm_example : get (run some_ops new).counters "hits" ≡ get (run other_ops new).counters "hits"
run-perm_example = run-perm "hits" new ops_perm

abbrev some_counters : GoMap ℕ
some_counters = put empty "hits" 5

abbrev some_gauges : GoMap Float64
some_gauges = put empty "temp" (record { bits = 7 })

-- The rename fails twice, and the remove between does not.
abbrev no_rename : Calls
no_rename = record all_succeed { rename = false; rename_again = false }

abbrev old_disk : Disk
old_disk = put empty snapshot_path (1 ∷ [])

save-Outcome_example :
    Outcome no_rename snapshot_path
      (toy_codec.encode (snapshot_items (range some_counters) (range some_gauges)))
      old_disk
      (save toy_codec
        (λ path. temp_path)
        no_rename
        snapshot_path
        (range some_counters)
        (range some_gauges)
        old_disk)
save-Outcome_example =
    save-Outcome toy_codec (λ path. temp_path) no_rename snapshot_path (range some_counters)
      (range some_gauges) old_disk path_named path_apart

saved :
    is_ok
      (save toy_codec
        (λ path. temp_path)
        all_succeed
        snapshot_path
        (range some_counters)
        (range some_gauges)
        old_disk).0
    ≡ true
unfolding save write_temp replace_file snapshot_items range put empty new_counter new_gauge
saved = refl

load-save_example :
    (c : GoMap ℕ) × (g : GoMap Float64) × (load toy_codec true snapshot_path
        (save toy_codec
          (λ path. temp_path)
          all_succeed
          snapshot_path
          (range some_counters)
          (range some_gauges)
          old_disk).1
      ≡ ok (c, g))
    × ((k : String) → get c k ≡ get some_counters k)
    × ((k : String) → get g k ≡ get some_gauges k)
load-save_example =
    load-save toy_codec (λ path. temp_path) snapshot_path toy_codec-IsFaithful path_named path_apart
      (range some_counters) (range some_gauges) old_disk all_succeed some_counters some_gauges
      (range-IsRange some_counters) (range-IsRange some_gauges) saved

abbrev some_server : Server
some_server = record {
  mem = record { counters = some_counters; gauges = some_gauges };
  disk = old_disk;
  calls = [];
}

snapshot_saved : is_ok (snapshot_save toy_platform sync_config some_server).0 ≡ true
unfolding snapshot_save save write_temp replace_file snapshot_items range put empty fill new_counter
    new_gauge
snapshot_saved = refl

restore_if_needed-save_snapshot_example :
    SameView
      (view
        (restore_if_needed toy_platform true sync_config
          (restarted (save_snapshot toy_platform sync_config some_server))).mem)
      (view some_server.mem)
restore_if_needed-save_snapshot_example =
    restore_if_needed-save_snapshot toy_platform sync_config some_server toy_codec-IsFaithful
      path_named path_apart refl snapshot_saved

sync_repository-Implements_example :
    Implements (sync_repository toy_platform sync_config) (λ s. view s.mem)
sync_repository-Implements_example = sync_repository-Implements toy_platform sync_config

stopped_saved :
    is_ok
      (snapshot_save toy_platform periodic_config
        (stopped toy_platform periodic_config (write (counter_op "hits" 3) ∷ []) some_server)).0
    ≡ true
unfolding snapshot_save save write_temp replace_file snapshot_items range put empty get fill step
    save_counter run_periodic_save save_loop writes_only new_counter new_gauge
stopped_saved = refl

restore_if_needed-serve_example :
    SameView
      (view
        (restore_if_needed toy_platform true periodic_config (
          restarted (
            serve toy_platform periodic_config
              (write (counter_op "hits" 3) ∷ [])
              some_server))).mem)
      (view (run (writes (write (counter_op "hits" 3) ∷ [])) some_server.mem))
restore_if_needed-serve_example =
    restore_if_needed-serve toy_platform periodic_config (write (counter_op "hits" 3) ∷ [])
      some_server toy_codec-IsFaithful path_named path_apart refl stopped_saved
