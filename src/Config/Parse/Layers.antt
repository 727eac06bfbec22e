-- ===== src/Config/Parse/Layers.antt =====
-- What the bindings of the flags (internal/config/common/bindings.go) leave in one field.
use rtmetrics.Base.{
  String, ◌≡◌, refl, Bool, true, false, ◌||◌, Option, none, some, List, [], ◌∷◌, if◌then◌else◌,
  ◌==◌, eq_iff, arith, Bool-cases, inl, inr, is_some, ◌⊎◌,
}
use rtmetrics.Base.GoMap.{lookup}
use rtmetrics.Config.Common.{apply_visited}

-- Is the flag among those given?
abbrev pub given : String → List String → Bool
given name [] = false
given name (n ∷ ns) = (n == name) || given name ns

module _ {C A : Type 0} (field : C → A) (name : String) (v : A) where
  -- The binding of `name` sets the field to `v`, the others leave it.
  abbrev pub Sets : List (String × (C → C)) → Type 0
  Sets [] = Unit
  Sets ((k, set) ∷ bindings) =
      ((c : C) → field (set c) ≡ (if k == name then v else field c)) × Sets bindings

  which :
      (b : Bool) (first set : C → C) (rest : Option (C → C))
      → (if b then some first else rest) ≡ some set
      → ((b ≡ true) × (first ≡ set)) ⊎ ((b ≡ false) × (rest ≡ some set))
  which true first set rest eq = inl (refl, cc (eq))
  which false first set rest eq = inr (refl, eq)

  lookup-Sets :
      (bindings : List (String × (C → C))) (n : String) (set : C → C)
      → Sets bindings
      → lookup n bindings ≡ some set
      → (c : C) → field (set c) ≡ (if n == name then v else field c)
  unfolding lookup
  lookup-Sets [] n set h eq c = absurd (cc (eq))
  lookup-Sets ((k, first) ∷ bindings) n set h eq c =
      elim (which (k == n) first set (lookup n bindings) eq) [
        | inl (is, same) ↦ let named : k ≡ n = (eq_iff k n).0 is in rw (← same, ← named) (h.0 c)
        | inr (other, later) ↦ lookup-Sets bindings n set h.1 later c
      ]

  -- After one flag.
  one_flag :
      (bindings : List (String × (C → C))) (n : String) (visited : List String) (c : C)
      → Sets bindings
      → is_some (lookup name bindings) ≡ true
      → (found : Option (C → C)) → lookup n bindings ≡ found
      → ((c' : C)
          → field (apply_visited bindings visited c')
            ≡ (if given name visited then v else field c'))
      → field (apply_visited bindings (n ∷ visited) c)
        ≡ (if given name (n ∷ visited) then v else field c)
  unfolding apply_visited
  one_flag bindings n visited c h bound none eq rest =
      rw (eq, apply_visited)
        (elim (Bool-cases (n == name)) [
          | inl is ↦
              let named : n ≡ name = (eq_iff n name).0 is in
              let missing : lookup name bindings ≡ none = rw (← named) eq in
              absurd (ground (arith, missing, bound))
          | inr another ↦ rw another (rest c)
        ])
  one_flag bindings n visited c h bound (some set) eq rest =
      let after = rest (set c) in
      let one = lookup-Sets bindings n set h eq c in
      rw (eq, apply_visited) (ground (arith, after, one))

  -- The field has the value of the flag if the flag is given, and else what it had.
  pub field-apply_visited :
      (bindings : List (String × (C → C))) (visited : List String) (c : C)
      → Sets bindings
      → is_some (lookup name bindings) ≡ true
      → field (apply_visited bindings visited c) ≡ (if given name visited then v else field c)
  unfolding apply_visited
  field-apply_visited bindings [] c h bound = refl
  field-apply_visited bindings (n ∷ visited) c h bound =
      one_flag bindings n visited c h bound (lookup n bindings) refl
        (λ c'. field-apply_visited bindings visited c' h bound)
