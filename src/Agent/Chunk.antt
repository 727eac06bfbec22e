-- ===== src/Agent/Chunk.antt =====
-- chunkBatch (internal/agent/runner.go): a batch cut into at most as many chunks as there are workers.
pub mod Partition
use rtmetrics.Base.{
  ℕ, zero, suc, ◌+◌, ◌-◌, ◌*◌, ◌/◌, ◌≤◌, ◌<◌, ◌≡◌, ◌≢◌, ◌↔◌, refl, ap, sym, ◌∙◌, true, false, List,
  [], ◌∷◌, ◌++◌, arith, min, length, take, drop, concat, All, take-append-drop, length-take,
  length-drop, length-append, ltb, if◌then◌else◌, Bool-cases, inl, inr,
}
use rtmetrics.Base.Int64.{ℤ, pos, negsuc}

-- `if parts < 1 { parts = 1 }`
abbrev pub at_least_one : ℤ → ℕ
at_least_one (pos (suc n)) = suc n
at_least_one (pos zero) = 1
at_least_one (negsuc n) = 1

module _ {ℓ} {A : Type ℓ} where
  -- batch[from:to]
  abbrev pub slice : List A → ℕ → ℕ → List A
  slice batch from to = take (to - from) (drop from batch)

  -- The loop, from `start`. A round moves at least one metric on, so the length of the batch is
  -- fuel enough.
  unfoldable pub chunk_from : ℕ → List A → ℕ → ℕ → List (List A)
  chunk_from zero batch size start = []
  chunk_from (suc fuel) batch size start =
      let rest = chunk_from fuel batch size (start + size) in
      if ltb start (length batch)
      then slice batch start (min (start + size) (length batch)) ∷ rest
      else []

  unfoldable pub chunk_batch : List A → ℤ → List (List A)
  unfolding chunk_from
  chunk_batch [] parts = []
  chunk_batch (m ∷ ms) parts =
      let n = at_least_one parts in
      chunk_from (length (m ∷ ms)) (m ∷ ms) ((length (m ∷ ms) + n - 1) / n) 0
