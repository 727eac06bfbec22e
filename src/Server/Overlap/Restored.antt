-- ===== src/Server/Overlap/Restored.antt =====
-- What is restored after overlapping calls of SyncSaveRepo (internal/server/sync_repo.go).
use rtmetrics.Base.{ℕ, ◌≡◌, ◌≢◌, ap, ◌∙◌, true, List, ◌∷◌, ◌++◌}
use rtmetrics.Repository.{is_ok}
use rtmetrics.Repository.Contract.{SameView}
use rtmetrics.Storage.Refinement.{view}
use rtmetrics.Storage.File.{IsFaithful}
use rtmetrics.Config.Server.{ServerConfig}
use rtmetrics.Server.{Server, Platform, save_snapshot, snapshot_save, restore_if_needed}
use rtmetrics.Server.Recovery.{restarted, restore_if_needed-save_snapshot}
use rtmetrics.Server.Overlap.{Step, saves, started, one_step, run_steps}
use rtmetrics.Server.Overlap.Copies.{
  NoWrites, NoSaves, CopiesCounters, CopiesGauges, NoCopies, run_steps-append, made_copy, kept_copy,
  disk_unsaved,
}

module _ (p : Platform) (cfg : ServerConfig) where
  -- Whatever calls of SyncSaveRepo overlap, the file has what the call saw whose Save is the last one.
  -- Let the steps of the calls be `before`; then `copying`, in which call `i` copies the counters and the
  -- gauges and nothing is written; then `meanwhile`, in which call `i` copies nothing; then its Save,
  -- which succeeds; and then `rest` without a Save. A process started on the file restores exactly the
  -- metrics that the store held after `before`: every write up to there, of any call, and none of those
  -- after it. (Restoring is on, the path is not empty, the temporary file is another one, the codec
  -- decodes what it encodes, and the file can be read.)
  pub restore_if_needed-run_steps :
      (before copying meanwhile rest : List Step) (i : ℕ) (s : Server)
      → IsFaithful p.codec
      → cfg.file_storage_path ≢ ""
      → p.temp_name cfg.file_storage_path ≢ cfg.file_storage_path
      → cfg.restore ≡ true
      → NoWrites copying
      → CopiesCounters i copying
      → CopiesGauges i copying
      → NoCopies i meanwhile
      → NoSaves rest
      → is_ok
          (snapshot_save p cfg
            (record (run_steps p cfg (before ++ (copying ++ meanwhile)) (started s)).server {
              mem = (run_steps p cfg before (started s)).server.mem;
            })).0
        ≡ true
      → SameView
          (view
            (restore_if_needed p true cfg (
              restarted
                (run_steps p cfg
                  ((before ++ (copying ++ meanwhile)) ++ saves i ∷ rest)
                  (started s)).server)).mem)
          (view (run_steps p cfg before (started s)).server.mem)
  unfolding run_steps
  restore_if_needed-run_steps before copying meanwhile rest i s faithful named apart on quiet
        counters gauges kept unsaved done =
      let seen = run_steps p cfg before (started s) in
      let ready = run_steps p cfg copying seen in
      let last = run_steps p cfg (before ++ (copying ++ meanwhile)) (started s) in
      let copy : last.copies i ≡ seen.server.mem =
        ap (λ c. c.copies i)
          (run_steps-append p cfg before (copying ++ meanwhile) (started s)
            ∙ run_steps-append p cfg copying meanwhile seen)
        ∙ kept_copy p cfg i meanwhile ready kept
        ∙ made_copy p cfg i copying seen quiet counters gauges in
      let saved = record last.server { mem = seen.server.mem } in
      let disk : restarted
            (run_steps p cfg ((before ++ (copying ++ meanwhile)) ++ saves i ∷ rest)
              (started s)).server
          ≡ restarted (save_snapshot p cfg saved) =
        ap (λ c. restarted c.server)
          (run_steps-append p cfg (before ++ (copying ++ meanwhile)) (saves i ∷ rest) (started s))
        ∙ disk_unsaved p cfg rest (one_step p cfg (saves i) last) unsaved
        ∙ ap (λ m. restarted (save_snapshot p cfg (record last.server { mem = m }))) copy in
      rw disk (restore_if_needed-save_snapshot p cfg saved faithful named apart on done)
