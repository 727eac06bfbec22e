-- ===== src/Agent/Chunk/Partition.antt =====
-- What chunkBatch (internal/agent/runner.go) makes of a batch.
use native.Mathlib.Nat.{mod-lt, div-add-mod, le-div_iff_mul-le}
use rtmetrics.Base.{
  ℕ, zero, suc, ◌+◌, ◌-◌, ◌*◌, ◌/◌, ◌≤◌, ◌<◌, ◌≡◌, refl, sym, false, List, [], ◌∷◌, ◌++◌, arith,
  min, length, drop, concat, All, take-append-drop, length-take, length-drop, ltb, Bool-cases, inl,
  inr,
}
use rtmetrics.Base.Int64.{ℤ, pos, negsuc}
use rtmetrics.Agent.Chunk.{at_least_one, slice, chunk_from, chunk_batch}

-- size = ⌈len / n⌉
size_large : (len n : ℕ) → 1 ≤ n → len ≤ n * ((len + n - 1) / n)
size_large len n h =
    let cut = div-add-mod (len + n - 1) n in
    let small = mod-lt (len + n - 1) {m = n} h in omega arith

size_positive : (len n : ℕ) → 1 ≤ n → 1 ≤ len → 1 ≤ (len + n - 1) / n
size_positive len n h1 h = (le-div_iff_mul-le {k = n} {x = 1} {y = len + n - 1} h1).1 (omega arith)

at_least_one-positive : (parts : ℤ) → 1 ≤ at_least_one parts
at_least_one-positive (pos (suc n)) = omega arith
at_least_one-positive (pos zero) = omega arith
at_least_one-positive (negsuc n) = omega arith

module _ {ℓ} {A : Type ℓ} where
  drop_of_length-le : (n : ℕ) (xs : List A) → length xs ≤ n → drop n xs ≡ []
  drop_of_length-le zero [] h = refl
  drop_of_length-le zero (x ∷ xs) h = absurd (omega arith)
  drop_of_length-le (suc n) [] h = refl
  drop_of_length-le (suc n) (x ∷ xs) h = drop_of_length-le n xs (omega arith)

  drop-drop : (n m : ℕ) (xs : List A) → drop m (drop n xs) ≡ drop (n + m) xs
  drop-drop zero m xs = let e : 0 + m ≡ m = omega arith in rw e
  drop-drop (suc n) m [] =
      let e : suc n + m ≡ suc (n + m) = omega arith in rw (e, drop_of_length-le m [] (omega arith))
  drop-drop (suc n) m (x ∷ xs) =
      let e : suc n + m ≡ suc (n + m) = omega arith in rw (e, drop-drop n m xs)

  drop-min : (n : ℕ) (xs : List A) → drop (min n (length xs)) xs ≡ drop n xs
  drop-min n xs = elim (Bool-cases (ltb n (length xs))) [
    | inl h ↦ let e : min n (length xs) ≡ n = ground arith in rw e
    | inr h ↦
        let e : min n (length xs) ≡ length xs = ground arith in
        rw
          (e, drop_of_length-le (length xs) xs (omega arith), drop_of_length-le n xs (ground arith))
  ]

  slice-drop :
      (batch : List A) (start size : ℕ)
      → start < length batch
      → slice batch start (min (start + size) (length batch)) ++ drop (start + size) batch
        ≡ drop start batch
  slice-drop batch start size h =
      let k = min (start + size) (length batch) - start in
      let e : start + k ≡ min (start + size) (length batch) = omega arith in
      let same : drop k (drop start batch) ≡ drop (start + size) batch =
        rw (drop-drop start k batch, e, drop-min (start + size) batch) in
      rw (sym same, take-append-drop k (drop start batch))

  concat-chunk_from :
      (fuel : ℕ) (batch : List A) (size start : ℕ)
      → 1 ≤ size
      → length batch ≤ start + fuel
      → concat (chunk_from fuel batch size start) ≡ drop start batch
  unfolding chunk_from
  concat-chunk_from zero batch size start h1 h = rw (drop_of_length-le start batch (omega arith))
  concat-chunk_from (suc fuel) batch size start h1 h =
      elim (Bool-cases (ltb start (length batch))) [
        | inl e ↦ rw (
          e,
          concat-chunk_from fuel batch size (start + size) h1 (omega arith),
          slice-drop batch start size (ground arith),
        )
        | inr e ↦ rw (e, drop_of_length-le start batch (ground arith))
      ]

  -- Each chunk has a metric at least.
  chunk_from_not_empty :
      (fuel : ℕ) (batch : List A) (size start : ℕ)
      → 1 ≤ size
      → All (λ chunk. 1 ≤ length chunk) (chunk_from fuel batch size start)
  unfolding chunk_from
  chunk_from_not_empty zero batch size start h1 = tt
  chunk_from_not_empty (suc fuel) batch size start h1 =
      elim (Bool-cases (ltb start (length batch))) [
        | inl e ↦
            let rest = chunk_from_not_empty fuel batch size (start + size) h1 in
            let k = min (start + size) (length batch) - start in
            let long : length (drop start batch) ≡ length batch - start = length-drop start batch in
            let taken : length (slice batch start (min (start + size) (length batch)))
                ≡ min k (length (drop start batch)) =
              length-take k (drop start batch) in
            rw e (ground arith, rest)
        | inr e ↦ rw e tt
      ]

  -- k rounds are enough for k * size metrics.
  length-chunk_from :
      (fuel k : ℕ) (batch : List A) (size start : ℕ)
      → 1 ≤ size
      → length batch ≤ start + k * size
      → length (chunk_from fuel batch size start) ≤ k
  unfolding chunk_from
  length-chunk_from zero k batch size start h1 h = omega arith
  length-chunk_from (suc fuel) zero batch size start h1 h =
      let e : ltb start (length batch) ≡ false = ground arith in rw e (omega arith)
  length-chunk_from (suc fuel) (suc k) batch size start h1 h =
      elim (Bool-cases (ltb start (length batch))) [
        | inl e ↦
            let rest = length-chunk_from fuel k batch size (start + size) h1 (omega arith) in
            rw e (omega arith)
        | inr e ↦ rw e (omega arith)
      ]

  -- Put together again, the chunks of a batch are the batch; none is empty, and they are at most
  -- `parts`, or one where `parts` is below 1.
  pub chunk_batch-Partition :
      (batch : List A) (parts : ℤ)
      → (concat (chunk_batch batch parts) ≡ batch)
        × (All (λ chunk. 1 ≤ length chunk) (chunk_batch batch parts))
        × (length (chunk_batch batch parts) ≤ at_least_one parts)
  unfolding chunk_batch
  chunk_batch-Partition [] parts = (refl, tt, omega arith)
  chunk_batch-Partition (m ∷ ms) parts =
      let n = at_least_one parts in
      let n1 = at_least_one-positive parts in
      let size = (length (m ∷ ms) + n - 1) / n in
      let s1 = size_positive (length (m ∷ ms)) n n1 (omega arith) in
      (
        concat-chunk_from (length (m ∷ ms)) (m ∷ ms) size 0 s1 (omega arith),
        chunk_from_not_empty (length (m ∷ ms)) (m ∷ ms) size 0 s1,
        length-chunk_from (length (m ∷ ms)) n (m ∷ ms) size 0 s1
            (let large = size_large (length (m ∷ ms)) n n1 in omega arith),
      )
