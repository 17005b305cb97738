-- ===== src/Prelude/Dict.antt =====
-- Python's dict in insertion order: an association list with distinct keys. An assignment to a
-- key that is present keeps its place, and a new key goes to the end.
use tz_oss_interop.Prelude.Tests.{Eq, ◌==◌, if◌then◌else◌, Bool-cases}
use tz_oss_interop.Prelude.Lists.{contains, All}
use mathlib.Core.Path.{◌≡◌, refl, subst}
use mathlib.Core.Bool.{false}
use mathlib.Core.Logic.{inl, inr}
use mathlib.Core.Option.{Option, none, some}
use mathlib.Core.List.{List, [], ◌∷◌}
use native.Mathlib.Omega.{arith}

abbrev pub Dict {ℓ κ} : Type ℓ → Type κ → Type (ℓ ⊔ κ)
Dict K V = List (K × V)

abbrev pub or_else {ℓ} : {A : Type ℓ} → Option A → Option A → Option A
or_else none b = b
or_else (some a) b = some a

module _ {ℓ κ} {K : Type ℓ} {V : Type κ} where
  abbrev pub keys : Dict K V → List K
  keys [] = []
  keys ((k, v) ∷ d) = k ∷ keys d

module _ {ℓ κ} {K : Type ℓ} {V : Type κ} ⦃e : Eq K⦄ where
  -- `d.get(k)`
  unfoldable pub lookup : K → Dict K V → Option V
  lookup k [] = none
  lookup k ((j, v) ∷ d) = if j == k then some v else lookup k d

  -- `d[k] = v`
  unfoldable pub insert : K → V → Dict K V → Dict K V
  insert k v [] = (k, v) ∷ []
  insert k v ((j, w) ∷ d) = if j == k then (j, v) ∷ d else (j, w) ∷ insert k v d

  -- `{**a, **b}`
  unfoldable pub update : Dict K V → Dict K V → Dict K V
  update a [] = a
  update a ((k, v) ∷ b) = update (insert k v a) b

  -- What every Python dict has: no key stands twice.
  abbrev pub IsDict : Dict K V → Type 0
  IsDict [] = Unit
  IsDict ((k, v) ∷ d) = (contains (keys d) k ≡ false) × IsDict d

  pub lookup-insert :
      (k j : K) (v : V) (d : Dict K V)
      → lookup j (insert k v d) ≡ (if k == j then some v else lookup j d)
  unfolding lookup insert
  lookup-insert k j v [] = refl
  lookup-insert k j v ((i, w) ∷ d) =
      ground (arith, e.agrees k j, e.agrees i k, e.agrees i j, lookup-insert k j v d)

  pub lookup_absent : (k : K) (d : Dict K V) → contains (keys d) k ≡ false → lookup k d ≡ none
  unfolding lookup
  lookup_absent k [] h = refl
  lookup_absent k ((j, v) ∷ d) h = ground (arith, lookup_absent k d)

  pub lookup-update :
      (k : K) (a b : Dict K V)
      → IsDict b
      → lookup k (update a b) ≡ or_else (lookup k b) (lookup k a)
  unfolding update lookup
  lookup-update k a [] h = refl
  lookup-update k a ((j, v) ∷ b) h = ground (
    arith,
    lookup-update k (insert j v a) b,
    lookup-insert j k v a,
    lookup_absent j b,
    e.agrees j k,
  )

  pub contains-insert :
      (k j : K) (v : V) (d : Dict K V)
      → (j == k) ≡ false
      → contains (keys d) k ≡ false
      → contains (keys (insert j v d)) k ≡ false
  unfolding insert
  contains-insert k j v [] n h = ground arith
  contains-insert k j v ((i, w) ∷ d) n h = ground (arith, contains-insert k j v d)

  pub insert-IsDict : (k : K) (v : V) (d : Dict K V) → IsDict d → IsDict (insert k v d)
  unfolding insert
  insert-IsDict k v [] h = ground arith
  insert-IsDict k v ((j, w) ∷ d) h =
      ground (arith, insert-IsDict k v d, contains-insert j k v d, e.agrees j k, e.agrees k j)

  pub update-IsDict : (a b : Dict K V) → IsDict a → IsDict (update a b)
  unfolding update
  update-IsDict a [] h = h
  update-IsDict a ((k, v) ∷ b) h = update-IsDict (insert k v a) b (insert-IsDict k v a h)

  pub lookup-All {μ} :
      (Q : V → Type μ) (k : K) (d : Dict K V) {v : V}
      → All (λ c. Q c.1) d
      → lookup k d ≡ some v
      → Q v
  unfolding lookup
  lookup-All Q k [] h found = absurd (cc found)
  lookup-All Q k ((j, w) ∷ d) h found = elim (Bool-cases (j == k)) [
    | inl same ↦ subst Q (ground arith) h.0
    | inr other ↦ lookup-All Q k d h.1 (ground arith)
  ]
