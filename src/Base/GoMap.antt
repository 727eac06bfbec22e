-- ===== src/Base/GoMap.antt =====
-- Go's maps with string keys. Clients have the laws; the entries stay in this file. Go iterates
-- over a map in no fixed order: a loop takes the list of entries in the order met, and `IsRange`
-- says that a list is such an order.
use Prim.Native.Nat.{ℕ}
use Prim.Native.String.{String}
use mathlib.Core.Path.{◌≡◌, refl, sym, ◌∙◌}
use mathlib.Core.List.{List, [], ◌∷◌}
use mathlib.Core.Option.{Option, none, some}
use native.Mathlib.Omega.{arith}
use text.Mathlib.Text.{◌==◌}
use text.Mathlib.TextEquality.{eq_iff}
use rtmetrics.Base.Tests.{if◌then◌else◌}
use rtmetrics.Base.Lists.{length}

pub record GoMap {ℓ} (V : Type ℓ) : Type ℓ where
  entries : List (String × V)

module _ {ℓ} {V : Type ℓ} where
  unfoldable pub lookup : String → List (String × V) → Option V
  lookup name [] = none
  lookup name ((key, value) ∷ entries) = if key == name then some value else lookup name entries

  erase : String → List (String × V) → List (String × V)
  erase name [] = []
  erase name (entry ∷ entries) =
      let others = erase name entries in if entry.0 == name then others else entry ∷ others

  distinct : List (String × V) → List (String × V)
  distinct [] = []
  distinct ((k, v) ∷ l) = (k, v) ∷ erase k (distinct l)

  -- make(map[string]V)
  unfoldable pub empty : GoMap V
  empty = record { entries = [] }

  -- v, ok := m[k]
  unfoldable pub get : GoMap V → String → Option V
  unfolding lookup
  get m k = lookup k m.entries

  -- m[k] = v
  unfoldable pub put : GoMap V → String → V → GoMap V
  put m k v = record { entries = (k, v) ∷ m.entries }

  -- delete(m, k)
  pub delete : GoMap V → String → GoMap V
  delete m k = record { entries = erase k m.entries }

  -- One order of iteration.
  unfoldable pub range : GoMap V → List (String × V)
  unfolding distinct erase
  range m = distinct m.entries

  abbrev pub Distinct : List (String × V) → Type ℓ
  Distinct [] = Unit
  Distinct ((k, v) ∷ l) = (lookup k l ≡ none) × Distinct l

  -- `for k, v := range m` may meet the entries in the order `l`: each key once, with its value.
  pub record IsRange (l : List (String × V)) (m : GoMap V) : Type ℓ where
    pub once : Distinct l
    pub same : (k : String) → lookup k l ≡ get m k

  lookup-erase :
      (name other : String) (entries : List (String × V))
      → lookup other (erase name entries) ≡ (if name == other then none else lookup other entries)
  unfolding lookup erase
  lookup-erase name other [] = ground arith
  lookup-erase name other ((key, value) ∷ entries) =
      ground (
        lookup-erase name other entries,
        eq_iff key other,
        eq_iff name other,
        eq_iff key name,
        arith,
      )

  erase-Distinct : (k : String) (l : List (String × V)) → Distinct l → Distinct (erase k l)
  unfolding erase
  erase-Distinct k [] h = tt
  erase-Distinct k ((j, v) ∷ l) h =
      ground (arith, erase-Distinct k l h.1, lookup-erase k j l, eq_iff j k)

  lookup-distinct : (k : String) (l : List (String × V)) → lookup k (distinct l) ≡ lookup k l
  unfolding lookup distinct
  lookup-distinct k [] = refl
  lookup-distinct k ((j, v) ∷ l) =
      ground (arith, lookup-erase j k (distinct l), lookup-distinct k l, eq_iff j k)

  distinct-Distinct : (l : List (String × V)) → Distinct (distinct l)
  unfolding distinct
  distinct-Distinct [] = tt
  distinct-Distinct ((k, v) ∷ l) = (
    ground (arith, lookup-erase k k (distinct l), eq_iff k k),
    erase-Distinct k (distinct l) (distinct-Distinct l),
  )

  pub range-IsRange : (m : GoMap V) → IsRange (range m) m
  unfolding range get
  range-IsRange m = record {
    once = distinct-Distinct m.entries;
    same = λ k. lookup-distinct k m.entries;
  }

  pub get-put :
      (m : GoMap V) (k j : String) (v : V)
      → get (put m k v) j ≡ (if k == j then some v else get m j)
  unfolding get put lookup
  get-put m k j v = refl

  pub get-delete :
      (m : GoMap V) (k j : String) → get (delete m k) j ≡ (if k == j then none else get m j)
  unfolding get delete
  get-delete m k j = lookup-erase k j m.entries

  -- `for k, v := range l { m[k] = v }`
  unfoldable pub fill : List (String × V) → GoMap V → GoMap V
  fill [] m = m
  fill ((k, v) ∷ l) m = fill l (put m k v)

  abbrev pub first_some : Option V → Option V → Option V
  first_some none b = b
  first_some (some a) b = some a

  -- A loop that meets each key once writes the value that it meets.
  pub get-fill :
      (l : List (String × V)) (m : GoMap V) (k : String)
      → Distinct l
      → get (fill l m) k ≡ first_some (lookup k l) (get m k)
  unfolding fill lookup
  get-fill [] m k h = refl
  get-fill ((j, v) ∷ l) m k h =
      ground (arith, get-fill l (put m j v) k h.1, get-put m j k v, eq_iff j k)

  -- Copying a map entry by entry keeps every entry, in whatever order the loop runs.
  pub get-fill_range :
      (l : List (String × V)) (m : GoMap V) (k : String)
      → IsRange l m
      → get (fill l empty) k ≡ get m k
  unfolding empty get lookup
  get-fill_range l m k r = ground (arith, get-fill l empty k r.once, r.same k)

  -- len(m)
  pub size : GoMap V → ℕ
  size m = length (range m)

  lookup_of_length_zero : (l : List (String × V)) (k : String) → length l ≡ 0 → lookup k l ≡ none
  unfolding lookup
  lookup_of_length_zero [] k h = refl
  lookup_of_length_zero (e ∷ l) k h = absurd (omega arith)

  pub get_of_size_zero : (m : GoMap V) (k : String) → size m ≡ 0 → get m k ≡ none
  unfolding size range get
  get_of_size_zero m k h =
      sym (lookup-distinct k m.entries) ∙ lookup_of_length_zero (distinct m.entries) k h

-- The orders that the runtime picks, one for each map.
pub record Iteration {ℓ} (V : Type ℓ) : Type ℓ where
  pub order : GoMap V → List (String × V)
  pub is_range : (m : GoMap V) → IsRange (order m) m

pub get-empty {ℓ} : {V : Type ℓ} (k : String) → get (empty {V = V}) k ≡ none
unfolding get empty lookup
get-empty k = refl

pub ruleset map_laws = (get-empty, get-put, get-delete)
