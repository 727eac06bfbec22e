-- ===== src/Service.antt =====
-- internal/service/service.go: the operations that the handlers call, over a repository.
use rtmetrics.Base.{ℕ, String, List}
use rtmetrics.Base.GoMap.{GoMap}
use rtmetrics.Model.{Float64, Metrics}
use rtmetrics.Repository.{Result, MetricsRepository}

pub record MetricsService (S : Type 0) : Type 0 where
  pub update_counter : String → ℕ → S → Result ℕ × S
  pub update_gauge : String → Float64 → S → Result Float64 × S
  pub update_batch : List Metrics → S → Result (Unit {0}) × S
  pub get_counter : String → S → Result ℕ × S
  pub get_gauge : String → S → Result Float64 × S
  pub get_all_counters : S → Result (GoMap ℕ) × S
  pub get_all_gauges : S → Result (GoMap Float64) × S

-- New, with the methods of *Service.
abbrev pub new : {S : Type 0} → MetricsRepository S → MetricsService S
new repo = record {
  update_counter = λ name value s. repo.save_counter name value s;
  update_gauge = λ name value s. repo.save_gauge name value s;
  update_batch = λ metrics s. repo.save_batch metrics s;
  get_counter = λ name s. repo.get_counter name s;
  get_gauge = λ name s. repo.get_gauge name s;
  get_all_counters = λ s. repo.get_all_counters s;
  get_all_gauges = λ s. repo.get_all_gauges s;
}
