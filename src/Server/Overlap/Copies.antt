-- ===== src/Server/Overlap/Copies.antt =====
-- What overlapping calls of SyncSaveRepo (internal/server/sync_repo.go) have copied of the store.
use rtmetrics.Base.{
  ℕ, ◌≡◌, refl, ap, ◌∙◌, false, ◌⊎◌, inl, inr, List, [], ◌∷◌, ◌++◌, nat_eq, arith, Bool-cases,
}
use rtmetrics.Storage.{MemStorage}
use rtmetrics.Config.Server.{ServerConfig}
use rtmetrics.Server.{Platform}
use rtmetrics.Server.Recovery.{restarted}
use rtmetrics.Server.Overlap.{
  Step, writes, copies_counters, copies_gauges, saves, Calling, updated, with_counters, with_gauges,
  one_step, run_steps,
}

module _ {A : Type 0} (field : MemStorage → A) (x : A) (f : MemStorage → MemStorage)
    (copies : ℕ → MemStorage) where
  -- A copy that is right before and after a change, or only after its own.
  updated_both :
      (j i : ℕ) → field (f (copies i)) ≡ x → field (copies i) ≡ x → field (updated j f copies i) ≡ x
  updated_both j i after before = elim (Bool-cases (nat_eq j i)) [
    | inl e ↦ rw e after
    | inr e ↦ rw e before
  ]

  updated_self : (j i : ℕ) → j ≡ i → field (f (copies i)) ≡ x → field (updated j f copies i) ≡ x
  updated_self j i same after = elim (Bool-cases (nat_eq j i)) [
    | inl e ↦ rw e after
    | inr e ↦ absurd (ground (arith, same, e))
  ]

-- No write among the steps.
abbrev pub NoWrites : List Step → Type 0
NoWrites [] = Unit
NoWrites (writes op ∷ es) = ⊥
NoWrites (copies_counters i ∷ es) = NoWrites es
NoWrites (copies_gauges i ∷ es) = NoWrites es
NoWrites (saves i ∷ es) = NoWrites es

abbrev pub NoSaves : List Step → Type 0
NoSaves [] = Unit
NoSaves (writes op ∷ es) = NoSaves es
NoSaves (copies_counters i ∷ es) = NoSaves es
NoSaves (copies_gauges i ∷ es) = NoSaves es
NoSaves (saves i ∷ es) = ⊥

-- Call `i` copies the counters, and the gauges, among the steps.
abbrev pub CopiesCounters : ℕ → List Step → Type 0
CopiesCounters i [] = ⊥
CopiesCounters i (writes op ∷ es) = CopiesCounters i es
CopiesCounters i (copies_counters j ∷ es) = (j ≡ i) ⊎ CopiesCounters i es
CopiesCounters i (copies_gauges j ∷ es) = CopiesCounters i es
CopiesCounters i (saves j ∷ es) = CopiesCounters i es

abbrev pub CopiesGauges : ℕ → List Step → Type 0
CopiesGauges i [] = ⊥
CopiesGauges i (writes op ∷ es) = CopiesGauges i es
CopiesGauges i (copies_counters j ∷ es) = CopiesGauges i es
CopiesGauges i (copies_gauges j ∷ es) = (j ≡ i) ⊎ CopiesGauges i es
CopiesGauges i (saves j ∷ es) = CopiesGauges i es

-- Call `i` copies nothing.
abbrev pub NoCopies : ℕ → List Step → Type 0
NoCopies i [] = Unit
NoCopies i (writes op ∷ es) = NoCopies i es
NoCopies i (copies_counters j ∷ es) = (nat_eq j i ≡ false) × NoCopies i es
NoCopies i (copies_gauges j ∷ es) = (nat_eq j i ≡ false) × NoCopies i es
NoCopies i (saves j ∷ es) = NoCopies i es

module _ (p : Platform) (cfg : ServerConfig) where
  pub run_steps-append :
      (es fs : List Step) (c : Calling)
      → run_steps p cfg (es ++ fs) c ≡ run_steps p cfg fs (run_steps p cfg es c)
  unfolding run_steps
  run_steps-append [] fs c = refl
  run_steps-append (e ∷ es) fs c = run_steps-append es fs (one_step p cfg e c)

  -- Without writes, a copy that has the counters or gauges of the store keeps them, and one that is
  -- made has them.
  copied_counters :
      (i : ℕ) (es : List Step) (c : Calling)
      → NoWrites es
      → (c.copies i).counters ≡ c.server.mem.counters
      → ((run_steps p cfg es c).copies i).counters ≡ c.server.mem.counters
  unfolding run_steps
  copied_counters i [] c quiet h = h
  copied_counters i (writes op ∷ es) c quiet h = absurd quiet
  copied_counters i (copies_counters j ∷ es) c quiet h =
      copied_counters i es (one_step p cfg (copies_counters j) c) quiet (
        updated_both (λ m. m.counters) c.server.mem.counters (with_counters c.server.mem) c.copies j
          i refl h)
  copied_counters i (copies_gauges j ∷ es) c quiet h =
      copied_counters i es (one_step p cfg (copies_gauges j) c) quiet (
        updated_both (λ m. m.counters) c.server.mem.counters (with_gauges c.server.mem) c.copies j i
          h h)
  copied_counters i (saves j ∷ es) c quiet h =
      copied_counters i es (one_step p cfg (saves j) c) quiet h

  made_counters :
      (i : ℕ) (es : List Step) (c : Calling)
      → NoWrites es
      → CopiesCounters i es
      → ((run_steps p cfg es c).copies i).counters ≡ c.server.mem.counters
  unfolding run_steps
  made_counters i [] c quiet copied = absurd copied
  made_counters i (writes op ∷ es) c quiet copied = absurd quiet
  made_counters i (copies_counters j ∷ es) c quiet (inl same) =
      copied_counters i es (one_step p cfg (copies_counters j) c) quiet (
        updated_self (λ m. m.counters) c.server.mem.counters (with_counters c.server.mem) c.copies j
          i same refl)
  made_counters i (copies_counters j ∷ es) c quiet (inr later) =
      made_counters i es (one_step p cfg (copies_counters j) c) quiet later
  made_counters i (copies_gauges j ∷ es) c quiet copied =
      made_counters i es (one_step p cfg (copies_gauges j) c) quiet copied
  made_counters i (saves j ∷ es) c quiet copied =
      made_counters i es (one_step p cfg (saves j) c) quiet copied

  copied_gauges :
      (i : ℕ) (es : List Step) (c : Calling)
      → NoWrites es
      → (c.copies i).gauges ≡ c.server.mem.gauges
      → ((run_steps p cfg es c).copies i).gauges ≡ c.server.mem.gauges
  unfolding run_steps
  copied_gauges i [] c quiet h = h
  copied_gauges i (writes op ∷ es) c quiet h = absurd quiet
  copied_gauges i (copies_gauges j ∷ es) c quiet h =
      copied_gauges i es (one_step p cfg (copies_gauges j) c) quiet (
        updated_both (λ m. m.gauges) c.server.mem.gauges (with_gauges c.server.mem) c.copies j i
          refl h)
  copied_gauges i (copies_counters j ∷ es) c quiet h =
      copied_gauges i es (one_step p cfg (copies_counters j) c) quiet (
        updated_both (λ m. m.gauges) c.server.mem.gauges (with_counters c.server.mem) c.copies j i h
          h)
  copied_gauges i (saves j ∷ es) c quiet h = copied_gauges i es (one_step p cfg (saves j) c) quiet h

  made_gauges :
      (i : ℕ) (es : List Step) (c : Calling)
      → NoWrites es
      → CopiesGauges i es
      → ((run_steps p cfg es c).copies i).gauges ≡ c.server.mem.gauges
  unfolding run_steps
  made_gauges i [] c quiet copied = absurd copied
  made_gauges i (writes op ∷ es) c quiet copied = absurd quiet
  made_gauges i (copies_gauges j ∷ es) c quiet (inl same) =
      copied_gauges i es (one_step p cfg (copies_gauges j) c) quiet (
        updated_self (λ m. m.gauges) c.server.mem.gauges (with_gauges c.server.mem) c.copies j i
          same refl)
  made_gauges i (copies_gauges j ∷ es) c quiet (inr later) =
      made_gauges i es (one_step p cfg (copies_gauges j) c) quiet later
  made_gauges i (copies_counters j ∷ es) c quiet copied =
      made_gauges i es (one_step p cfg (copies_counters j) c) quiet copied
  made_gauges i (saves j ∷ es) c quiet copied =
      made_gauges i es (one_step p cfg (saves j) c) quiet copied

  pub made_copy :
      (i : ℕ) (es : List Step) (c : Calling)
      → NoWrites es
      → CopiesCounters i es
      → CopiesGauges i es
      → (run_steps p cfg es c).copies i ≡ c.server.mem
  made_copy i es c quiet counters gauges =
      let m = (run_steps p cfg es c).copies i in
      let first : m ≡ record m { counters = c.server.mem.counters } =
        ap (λ x. record m { counters = x }) (made_counters i es c quiet counters) in
      first
      ∙ ap (λ x. record { counters = c.server.mem.counters; gauges = x })
          (made_gauges i es c quiet gauges)

  pub kept_copy :
      (i : ℕ) (es : List Step) (c : Calling)
      → NoCopies i es
      → (run_steps p cfg es c).copies i ≡ c.copies i
  unfolding run_steps
  kept_copy i [] c h = refl
  kept_copy i (writes op ∷ es) c h = kept_copy i es (one_step p cfg (writes op) c) h
  kept_copy i (copies_counters j ∷ es) c (other, h) =
      kept_copy i es (one_step p cfg (copies_counters j) c) h ∙ rw other refl
  kept_copy i (copies_gauges j ∷ es) c (other, h) =
      kept_copy i es (one_step p cfg (copies_gauges j) c) h ∙ rw other refl
  kept_copy i (saves j ∷ es) c h = kept_copy i es (one_step p cfg (saves j) c) h

  -- Without a Save the file stays.
  pub disk_unsaved :
      (es : List Step) (c : Calling)
      → NoSaves es
      → restarted (run_steps p cfg es c).server ≡ restarted c.server
  unfolding run_steps
  disk_unsaved [] c h = refl
  disk_unsaved (writes op ∷ es) c h = disk_unsaved es (one_step p cfg (writes op) c) h
  disk_unsaved (copies_counters j ∷ es) c h =
      disk_unsaved es (one_step p cfg (copies_counters j) c) h
  disk_unsaved (copies_gauges j ∷ es) c h = disk_unsaved es (one_step p cfg (copies_gauges j) c) h
  disk_unsaved (saves j ∷ es) c h = absurd h
