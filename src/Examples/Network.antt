-- ===== src/Examples/Network.antt =====
-- The theorems on the way of a batch from the agent to the store, over HTTP and gRPC, at concrete
-- inputs.
use mathlib.Core.Option.{Option, none, some}
use rtmetrics.Base.{
  ℕ, zero, suc, String, true, false, ◌≡◌, ◌≢◌, refl, List, [], ◌∷◌, map, ◌++◌, Bytes, All, arith,
  eq_iff, inl, inr, length, nat_eq, if◌then◌else◌, ◌==◌,
}
use rtmetrics.Model.{Metrics, new_counter, new_gauge}
use rtmetrics.Repository.{MetricsRepository}
use rtmetrics.Repository.Contract.{SameView, apply_batch}
use rtmetrics.Service
use rtmetrics.Storage.{MemStorage, mem_repository}
use rtmetrics.Storage.Refinement.{view, mem_repository-Implements}
use rtmetrics.Crypto.{Mac, Rsa, Gcm, Draw, encrypt, decrypt, seal_aes_gcm}
use rtmetrics.Crypto.RoundTrip.{ReadsHex, IsKeyPair, IsGcm, Fills, decrypt-encrypt}
use rtmetrics.Middleware.Subnet.{Net, allowed, real_ip_header}
use rtmetrics.Handler.Batches.{IsComplete}
use rtmetrics.Handler.Html.{whole}
use rtmetrics.Router.{Library, to_updates, create_router}
use rtmetrics.Router.Sending.{connection, encoders, send_batch-Delivery}
use rtmetrics.Router.Guards.{create_router-Guarded}
use rtmetrics.Proto.{to_model, from_model}
use rtmetrics.Proto.RoundTrip.{IsNamed, to_model-from_model}
use rtmetrics.Agent.Client as Client
use rtmetrics.Agent.Client.{Client, request_for, batch_headers}
use rtmetrics.Grpc as Grpc
use rtmetrics.Grpc.{Metadata, metadata_value, unary_interceptor, update_metrics}
use rtmetrics.Grpc.Delivery.{over_network, send_batch-Applied}
use rtmetrics.Grpc.Reports.{sends, sends-chunk_batch}
use rtmetrics.Agent.Chunk.{chunk_batch}
use rtmetrics.Agent.Runner.{current_batch}
use rtmetrics.Examples.Agent.{some_runner, core, core_named}
use rtmetrics.Examples.Toolkit.{ranges, toy_formats, request_of, audited_world, two_metrics}

abbrev zeros : ℕ → Bytes
zeros zero = []
zeros (suc n) = 0 ∷ zeros n

-- A sum that does not look at the text, RSA and GCM that hide nothing: enough for the laws.
abbrev toy_mac : Mac
toy_mac = record { sum = λ key text. 7 ∷ []; hex = λ b. "07"; unhex = λ s. some (7 ∷ []) }

abbrev toy_rsa : Rsa
toy_rsa = record {
  size = 32;
  encrypt_oaep = λ random m. if nat_eq (length m) 32 then some m else none;
  decrypt_oaep = λ c. some c;
}

abbrev toy_gcm : Gcm
toy_gcm = record { nonce_size = 12; seal = λ key nonce text. text; unseal = λ key nonce c. some c }

abbrev toy_draw : Draw
toy_draw = record { aes_key = some (zeros 32); nonce = some (zeros 12); oaep = 0 }

toy_pair : IsKeyPair toy_rsa
toy_pair random m c e = ground arith

toy_pairs : (k : Rsa) → some toy_rsa ≡ some k → IsKeyPair k
toy_pairs k e = let same : toy_rsa ≡ k = cc in rw (← same) toy_pair

toy_draw-Fills : Fills toy_gcm toy_draw
toy_draw-Fills = (zeros 32, zeros 12, refl, refl, refl, refl)

toy_sound : IsGcm toy_gcm
toy_sound key nonce text = refl

toy_reads : ReadsHex toy_mac
toy_reads key text = refl

abbrev json : Bytes
json = 1 ∷ 2 ∷ 3 ∷ []

abbrev wire : Bytes
wire = zeros 32 ++ (zeros 12 ++ json)

encrypted : encrypt toy_gcm (some toy_rsa) toy_draw json ≡ some wire
unfolding encrypt seal_aes_gcm
encrypted = refl

decrypt-encrypt_example : decrypt toy_gcm (some toy_rsa) wire ≡ some json
decrypt-encrypt_example =
    decrypt-encrypt toy_gcm toy_sound (some toy_rsa) toy_draw json wire toy_pairs toy_draw-Fills
      encrypted

abbrev toy_net : Net
toy_net = record {
  Network = Unit {0};
  Address = String;
  parse_ip = λ s. some s;
  contains = λ n a. a == "10.0.0.1";
}

abbrev toy_library : Library
toy_library = record {
  formats = toy_formats;
  mac = toy_mac;
  gcm = toy_gcm;
  gzip = record { opens = λ b. true; inflate = λ b. (b, true); deflate = λ b. b };
  net = toy_net;
  execute = λ d. whole [];
  profiler = λ r. [];
  route = λ method path. to_updates;
}

abbrev repo : MetricsRepository MemStorage
repo = mem_repository ranges ranges

abbrev toy_client : Client
toy_client = record { key = "secret"; public_key = some toy_rsa; real_ip = "10.0.0.1" }

abbrev toy_via : Client.Route
toy_via = record { added = ("Accept-Encoding", "gzip") ∷ []; remote_addr = "10.0.0.1:5000" }

inside : allowed toy_net (some tt) "10.0.0.1" ≡ true
unfolding allowed
inside = refl

complete : All IsComplete two_metrics
unfolding new_counter new_gauge
complete = (inl (refl, λ e. cc), (inr (refl, λ e. cc), tt))

abbrev encode_two : List Metrics → Option Bytes
encode_two ms = some json

send_batch-Delivery_example :
    SameView
      (view
        (Client.send_batch
          (connection
            (mem_repository-Implements ranges ranges)
            toy_library
            none
            (some tt)
            toy_client
            toy_via
            (λ m. none)
            encode_two
            toy_draw)
          (encoders
            (mem_repository-Implements ranges ranges)
            toy_library
            none
            (some tt)
            toy_client
            toy_via
            (λ m. none)
            encode_two)
          toy_client
          toy_via
          none
          (λ d. false)
          two_metrics
          audited_world).1.store)
      (apply_batch two_metrics (view audited_world.store))
send_batch-Delivery_example =
    send_batch-Delivery (mem_repository-Implements ranges ranges) toy_library none (some tt)
      toy_client toy_via (λ m. none) encode_two toy_draw (λ d. false) wire json audited_world
      (new_counter "hits" 2) (new_gauge "temp" (record { bits = 7 }) ∷ []) toy_sound toy_pairs
      toy_draw-Fills toy_reads refl refl refl inside refl refl complete encrypted

-- A request without an address.
outside : allowed toy_net (some tt) "" ≡ false
unfolding allowed
outside = refl

create_router-Guarded_example :
    (create_router toy_library
      (Service.new repo)
      none
      (some tt)
      "secret"
      (some toy_rsa)
      (request_of "counter" "hits" "5")
      audited_world).1
    ≡ audited_world
create_router-Guarded_example =
    create_router-Guarded toy_library (Service.new repo) none tt "secret" (some toy_rsa)
      (request_of "counter" "hits" "5") audited_world (inr (inl refl)) outside

two_metrics-IsNamed : All IsNamed two_metrics
two_metrics-IsNamed = (
  ("hits", named "hits" refl, inl (2, refl)),
  (("temp", named "temp" refl, inr (record { bits = 7 }, refl)), tt),
)
  where
    named : (s : String) → (s == "") ≡ false → s ≢ ""
    named s e = ground (arith, eq_iff s "")

to_model-from_model_example : to_model (map some (from_model two_metrics)) ≡ two_metrics
to_model-from_model_example = to_model-from_model two_metrics two_metrics-IsNamed

abbrev toy_metadata : Metadata
toy_metadata = some (λ k. "10.0.0.1" ∷ [])

inside_metadata : allowed toy_net (some tt) (metadata_value toy_metadata real_ip_header) ≡ true
unfolding allowed metadata_value
inside_metadata = refl

send_batch-Applied_example :
    ((Grpc.send_batch
        (over_network
          (mem_repository-Implements ranges ranges)
          toy_formats
          toy_metadata
          toy_net
          (some tt))
        two_metrics
        audited_world).0
      ≡ none)
    × SameView
        (view
          (Grpc.send_batch
            (over_network
              (mem_repository-Implements ranges ranges)
              toy_formats
              toy_metadata
              toy_net
              (some tt))
            two_metrics
            audited_world).1.store)
        (apply_batch two_metrics (view audited_world.store))
send_batch-Applied_example =
    send_batch-Applied (mem_repository-Implements ranges ranges) toy_formats toy_metadata toy_net
      (some tt) two_metrics audited_world two_metrics-IsNamed inside_metadata

sends-chunk_batch_example :
    SameView
      (view
        (sends
          (mem_repository-Implements ranges ranges)
          toy_formats
          toy_metadata
          toy_net
          (some tt)
          (chunk_batch (current_batch core some_runner) some_runner.pool.workers)
          audited_world).store)
      (apply_batch (current_batch core some_runner) (view audited_world.store))
sends-chunk_batch_example =
    sends-chunk_batch (mem_repository-Implements ranges ranges) toy_formats toy_metadata toy_net
      (some tt) core some_runner audited_world core_named inside_metadata
