-- ===== src/Grpc/Reports.antt =====
-- The chunks of a report (internal/agent/runner.go) that SendBatch of the gRPC client sends.
use rtmetrics.Base.{ℕ, String, ◌≡◌, ◌≢◌, refl, true, Option, List, [], ◌∷◌, ◌++◌, All, concat}
use mathlib.Core.Path.{subst}
use rtmetrics.Model.{Metrics}
use rtmetrics.Repository.{MetricsRepository}
use rtmetrics.Repository.Contract.{
  View, SameView, SameView-refl, SameView-trans, SameView-apply_batch, Implements, apply_batch,
  apply_metric,
}
use rtmetrics.Api.{World, Formats}
use rtmetrics.Proto.RoundTrip.{IsNamed}
use rtmetrics.Middleware.Subnet.{Net, allowed, real_ip_header}
use rtmetrics.Agent.Chunk.{chunk_batch}
use rtmetrics.Agent.Chunk.Partition.{chunk_batch-Partition}
use rtmetrics.Agent.Runner.{Runner, current_batch}
use rtmetrics.Agent.Batch.{current_batch-IsNamed}
use rtmetrics.Grpc.{Metadata, metadata_value, send_batch}
use rtmetrics.Grpc.Delivery.{over_network, send_batch-Applied}

apply_batch-append :
    (ms ns : List Metrics) (v : View) → apply_batch (ms ++ ns) v ≡ apply_batch ns (apply_batch ms v)
apply_batch-append [] ns v = refl
apply_batch-append (m ∷ ms) ns v = apply_batch-append ms ns (apply_metric m v)

All-first : (ms ns : List Metrics) → All IsNamed (ms ++ ns) → All IsNamed ms × All IsNamed ns
All-first [] ns h = (tt, h)
All-first (m ∷ ms) ns (first, h) = let (a, b) = All-first ms ns h in ((first, a), b)

module _ {S : Type 0} {repo : MetricsRepository S} {view : S → View} (imp : Implements repo view)
    (f : Formats) (md : Metadata) (net : Net) (t : Option net.Network) where
  -- One batch after another.
  unfoldable pub sends : List (List Metrics) → World S → World S
  sends [] w = w
  sends (batch ∷ batches) w = sends batches (send_batch (over_network imp f md net t) batch w).1

  sends-Applied :
      (batches : List (List Metrics)) (w : World S)
      → All IsNamed (concat batches)
      → allowed net t (metadata_value md real_ip_header) ≡ true
      → SameView (view (sends batches w).store) (apply_batch (concat batches) (view w.store))
  unfolding sends
  sends-Applied [] w named trust = SameView-refl (view w.store)
  sends-Applied (batch ∷ batches) w named trust =
      let (first, others) = All-first batch (concat batches) named in
      let (none_, effect) = send_batch-Applied imp f md net t batch w first trust in
      rw (apply_batch-append batch (concat batches) (view w.store)) (
        SameView-trans
          (sends-Applied batches (send_batch (over_network imp f md net t) batch w).1 others trust)
          (SameView-apply_batch (concat batches) effect))

  -- What the runner has at a report is what the server stores, over gRPC: when the chunks of its batch
  -- are sent one after another, in their order, the store has the effect of all the metrics of the
  -- batch, one after another, however many chunks there are. (The address in the
  -- metadata is in the trusted subnet, the network loses nothing, and no core has an empty name.)
  pub sends-chunk_batch :
      (core_name : ℕ → String) (r : Runner) (w : World S)
      → ((i : ℕ) → core_name i ≢ "")
      → allowed net t (metadata_value md real_ip_header) ≡ true
      → SameView
          (view (sends (chunk_batch (current_batch core_name r) r.pool.workers) w).store)
          (apply_batch (current_batch core_name r) (view w.store))
  sends-chunk_batch core_name r w names trust =
      let batch = current_batch core_name r in
      let whole = (chunk_batch-Partition batch r.pool.workers).0 in
      let named : All IsNamed (concat (chunk_batch batch r.pool.workers)) =
        rw whole (current_batch-IsNamed core_name names r) in
      let sent = sends-Applied (chunk_batch batch r.pool.workers) w named trust in
      subst
        (λ ms.
          SameView (view (sends (chunk_batch batch r.pool.workers) w).store)
            (apply_batch ms (view w.store)))
        whole sent
