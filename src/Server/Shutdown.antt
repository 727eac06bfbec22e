-- ===== src/Server/Shutdown.antt =====
-- The end of run (cmd/server/main.go) with the file store: the context of the periodic save is
-- cancelled, the loop is waited for, and a last snapshot is written.
use rtmetrics.Base.{◌≡◌, ◌≢◌, refl, ap, ◌∙◌, true, List, [], ◌∷◌, ◌++◌}
use rtmetrics.Repository.{is_ok}
use rtmetrics.Repository.Contract.{SameView}
use rtmetrics.Storage.Refinement.{view}
use rtmetrics.Storage.History.{run}
use rtmetrics.Storage.File.{IsFaithful}
use rtmetrics.Config.Server.{ServerConfig}
use rtmetrics.Server.{Server, Platform, save_snapshot, snapshot_save, restore_if_needed}
use rtmetrics.Server.Recovery.{restarted, restore_if_needed-save_snapshot}
use rtmetrics.Server.Periodic.{
  Event, tick, done, write, run_periodic_save, writes, mem-run_periodic_save,
}

-- stopSave(); saveWG.Wait(): the schedule `es` goes on until the loop takes ctx.Done.
abbrev pub stopped : Platform → ServerConfig → List Event → Server → Server
stopped p cfg es s = run_periodic_save p cfg (es ++ done ∷ []) s

-- The server from the start of the periodic save to its end.
unfoldable pub serve : Platform → ServerConfig → List Event → Server → Server
serve p cfg es s = save_snapshot p cfg (stopped p cfg es s)

writes-done : (es : List Event) → writes (es ++ done ∷ []) ≡ writes es
writes-done [] = refl
writes-done (tick ∷ es) = writes-done es
writes-done (write op ∷ es) = ap (λ ops. op ∷ ops) (writes-done es)
writes-done (done ∷ es) = writes-done es

-- A graceful shutdown loses no write: if the last snapshot is written without an error, the next
-- process restores what the writes of the whole run made of the store, in whatever way ticks and
-- writes followed each other. (The path is not empty, restoring is on, the temporary file is another
-- one, the codec decodes what it encodes, and the file can be read.)
pub restore_if_needed-serve :
    (p : Platform) (cfg : ServerConfig) (es : List Event) (s : Server)
    → IsFaithful p.codec
    → cfg.file_storage_path ≢ ""
    → p.temp_name cfg.file_storage_path ≢ cfg.file_storage_path
    → cfg.restore ≡ true
    → is_ok (snapshot_save p cfg (stopped p cfg es s)).0 ≡ true
    → SameView
        (view (restore_if_needed p true cfg (restarted (serve p cfg es s))).mem)
        (view (run (writes es) s.mem))
unfolding serve
restore_if_needed-serve p cfg es s faithful named apart on saved =
    let mem = mem-run_periodic_save p cfg (es ++ done ∷ []) s in
    let kept = mem ∙ ap (λ ops. run ops s.mem) (writes-done es) in
    rw (← kept)
      (restore_if_needed-save_snapshot p cfg (stopped p cfg es s) faithful named apart on saved)
