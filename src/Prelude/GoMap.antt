-- ===== src/Prelude/GoMap.antt =====
-- A Go `map` as an association list: its order is the order in which a `range` visits it. A nil map
-- reads as the empty one. `Distinct` says that no key stands twice.
use Prim.Native.Nat.{ℕ, suc, ◌+◌, ◌≤◌}
use mathlib.Core.Path.{◌≡◌, refl, ap, sym, ◌∙◌}
use mathlib.Core.Logic.{◌⊎◌, inl, inr}
use mathlib.Core.Bool.{Bool, true, false, ◌&&◌}
use mathlib.Core.Option.{Option, none, some}
use mathlib.Core.List.{List, [], ◌∷◌, map}
use native.Mathlib.Omega.{arith}
use go_stream.Prelude.Tests.{if◌then◌else◌, Bool-cases}
use go_stream.Prelude.Lists.{length, is_empty}
use go_stream.Prelude.Equality.{Eq, ◌==◌, eq_refl}
pub mod Nested

abbrev pub Map {ℓ κ} : Type ℓ → Type κ → Type (ℓ ⊔ κ)
Map K V = List (K × V)

module _ {ℓ κ} {K : Type ℓ} {V : Type κ} where
  abbrev pub keys : Map K V → List K
  keys [] = []
  keys ((k, v) ∷ m) = k ∷ keys m

  abbrev pub values : Map K V → List V
  values [] = []
  values ((k, v) ∷ m) = v ∷ values m

  length-values : (m : Map K V) → length (values m) ≡ length m
  length-values [] = refl
  length-values ((k, v) ∷ m) = ap suc (length-values m)

module _ {ℓ κ} {K : Type ℓ} {V : Type κ} ⦃e : Eq K⦄ where
  unfoldable pub lookup : K → Map K V → Option V
  lookup k [] = none
  lookup k ((own, here) ∷ rest) = if own == k then some here else lookup k rest

  unfoldable pub insert : K → V → Map K V → Map K V
  insert k v [] = (k, v) ∷ []
  insert k v ((own, old) ∷ rest) = if own == k then (k, v) ∷ rest else (own, old) ∷ insert k v rest

  pub erase : K → Map K V → Map K V
  erase k [] = []
  erase k ((j, w) ∷ m) = if j == k then erase k m else (j, w) ∷ erase k m

  abbrev pub Distinct : Map K V → Type κ
  Distinct [] = Unit
  Distinct ((k, v) ∷ m) = (lookup k m ≡ none) × Distinct m

  pub lookup-insert :
      (at asked : K) (v : V) (entries : Map K V)
      → lookup asked (insert at v entries) ≡ (if at == asked then some v else lookup asked entries)
  unfolding lookup insert
  lookup-insert at asked v [] = refl
  lookup-insert at asked v ((own, old) ∷ rest) = ground (
    arith,
    e.beq_iff at asked,
    e.beq_iff own at,
    e.beq_iff own asked,
    lookup-insert at asked v rest,
  )

  pub lookup-erase :
      (k j : K) (m : Map K V) → lookup j (erase k m) ≡ (if k == j then none else lookup j m)
  unfolding lookup erase
  lookup-erase k j [] = ground arith
  lookup-erase k j ((i, w) ∷ m) =
      ground (arith, e.beq_iff k j, e.beq_iff i k, e.beq_iff i j, lookup-erase k j m)

  pub insert-Distinct : (k : K) (v : V) (m : Map K V) → Distinct m → Distinct (insert k v m)
  unfolding insert lookup
  insert-Distinct k v [] d = (refl, tt)
  insert-Distinct k v ((i, w) ∷ m) d =
      ground (arith, e.beq_iff i k, e.beq_iff k i, lookup-insert k i v m, insert-Distinct k v m d.1)

  pub erase-Distinct : (k : K) (m : Map K V) → Distinct m → Distinct (erase k m)
  unfolding erase lookup
  erase-Distinct k [] d = tt
  erase-Distinct k ((i, w) ∷ m) d =
      ground (arith, e.beq_iff k i, lookup-erase k i m, erase-Distinct k m d.1)

  -- Erasing an absent key changes nothing.
  erase_absent : (k : K) (m : Map K V) → lookup k m ≡ none → erase k m ≡ m
  unfolding erase lookup
  erase_absent k [] h = refl
  erase_absent k ((i, w) ∷ m) h = ground (arith, erase_absent k m)

  -- A fresh key goes to the end.
  pub length-insert_new :
      (k : K) (v : V) (m : Map K V) → lookup k m ≡ none → length (insert k v m) ≡ length m + 1
  unfolding insert lookup
  length-insert_new k v [] h = omega arith
  length-insert_new k v ((i, w) ∷ m) h = ground (arith, length-insert_new k v m)

  erase-insert_new : (k : K) (v : V) (m : Map K V) → lookup k m ≡ none → erase k (insert k v m) ≡ m
  unfolding insert lookup erase
  erase-insert_new k v [] h = rw (eq_refl k)
  erase-insert_new k v ((i, w) ∷ m) h = ground (arith, erase-insert_new k v m)
