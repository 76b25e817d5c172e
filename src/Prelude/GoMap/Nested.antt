-- ===== src/Prelude/GoMap/Nested.antt =====
-- A Go map of maps, `map[K]map[I]V`, as the hub keeps its channels: an inner map is made at the
-- first write, and deleted with its key when it runs empty.
use mathlib.Core.Path.{◌≡◌, refl}
use mathlib.Core.Logic.{inl, inr}
use mathlib.Core.Bool.{true, false, ◌&&◌}
use mathlib.Core.Option.{Option, none, some}
use mathlib.Core.List.{[], ◌∷◌}
use native.Mathlib.Omega.{arith}
use go_stream.Prelude.Tests.{if◌then◌else◌, Bool-cases, Option-cases}
use go_stream.Prelude.Lists.{is_empty}
use go_stream.Prelude.Equality.{Eq, ◌==◌}
use go_stream.Prelude.GoMap.{
  Map, lookup, insert, erase, Distinct, lookup-insert, lookup-erase, insert-Distinct,
  erase-Distinct,
}

-- `m[k]`, the nil map where `k` is absent.
abbrev pub or_nil {ℓ κ} : {I : Type ℓ} {V : Type κ} → Option (Map I V) → Map I V
or_nil none = []
or_nil (some x) = x

module _ {ℓ κ ι} {K : Type ℓ} {I : Type ι} {V : Type κ} ⦃e : Eq K⦄ where
  unfoldable pub inner : K → Map K (Map I V) → Map I V
  inner k m = or_nil (lookup k m)

  abbrev settle : K → Map I V → Map K (Map I V) → Map K (Map I V)
  settle k x m = if is_empty x then erase k m else insert k x m

module _ {ℓ κ ι} {K : Type ℓ} {I : Type ι} {V : Type κ} ⦃e : Eq K⦄ ⦃d : Eq I⦄ where
  -- `m[k][i]`.
  abbrev pub at : K → I → Map K (Map I V) → Option V
  at k i m = lookup i (inner k m)

  -- `if m[k] == nil { m[k] = {} }; m[k][i] = v`.
  pub put : K → I → V → Map K (Map I V) → Map K (Map I V)
  put k i v m = insert k (insert i v (inner k m)) m

  -- `if x := m[k]; x != nil { delete(x, i); if len(x) == 0 { delete(m, k) } }`.
  pub delete : K → I → Map K (Map I V) → Map K (Map I V)
  delete k i m = elim (lookup k m) [ none ↦ m | some x ↦ settle k (erase i x) m ]

module _ {ℓ κ ι} {K : Type ℓ} {I : Type ι} {V : Type κ} ⦃d : Eq I⦄ where
  -- `for k, x := range m { delete(x, i); if len(x) == 0 { delete(m, k) } }`.
  pub drop_inner : I → Map K (Map I V) → Map K (Map I V)
  drop_inner i [] = []
  drop_inner i ((k, x) ∷ m) =
      if is_empty (erase i x) then drop_inner i m else (k, erase i x) ∷ drop_inner i m

  -- The inner maps are not empty, and have distinct keys.
  abbrev pub Filled : Map K (Map I V) → Type κ
  Filled [] = Unit
  Filled ((k, x) ∷ m) = (is_empty x ≡ false) × Distinct x × Filled m

lookup_empty {ℓ κ} :
    {I : Type ℓ} {V : Type κ} ⦃d : Eq I⦄ (l : I) (x : Map I V)
    → is_empty x ≡ true
    → lookup l x ≡ none
unfolding lookup
lookup_empty l [] h = refl
lookup_empty l (p ∷ x) h = cc

is_empty-insert {ℓ κ} :
    {I : Type ℓ} {V : Type κ} ⦃d : Eq I⦄ (i : I) (v : V) (x : Map I V)
    → is_empty (insert i v x) ≡ false
unfolding insert
is_empty-insert i v [] = refl
is_empty-insert i v ((j, w) ∷ x) = ground arith

module _ {ℓ κ ι} {K : Type ℓ} {I : Type ι} {V : Type κ} ⦃e : Eq K⦄ ⦃d : Eq I⦄ where
  pub at-put :
      (k j : K) (i l : I) (v : V) (m : Map K (Map I V))
      → at j l (put k i v m) ≡ (if k == j && i == l then some v else at j l m)
  unfolding put inner
  at-put k j i l v m = ground (
    arith,
    e.beq_iff k j,
    lookup-insert k j (insert i v (inner k m)) m,
    lookup-insert i l v (inner k m),
  )

  at-settle :
      (k j : K) (l : I) (x : Map I V) (m : Map K (Map I V))
      → at j l (settle k x m) ≡ (if k == j then lookup l x else at j l m)
  unfolding inner
  at-settle k j l x m = elim (Bool-cases (is_empty x)) [
    | inl h ↦ rw h (ground (arith, lookup-erase k j m, lookup_empty l x h))
    | inr h ↦ rw h (ground (arith, lookup-insert k j x m))
  ]

  pub at-delete :
      (k j : K) (i l : I) (m : Map K (Map I V))
      → at j l (delete k i m) ≡ (if k == j && i == l then none else at j l m)
  unfolding delete
  at-delete k j i l m = elim (Option-cases (lookup k m)) [
    | inl h ↦ rw (h, delete) (unfold inner lookup in ground (arith, e.beq_iff k j))
    | inr (x, h) ↦
        rw (h, delete, at-settle k j l (erase i x) m, lookup-erase i l x)
          (unfold inner in ground (arith, e.beq_iff k j))
  ]

  lookup-drop_inner-none :
      (i : I) (k : K) (m : Map K (Map I V)) → lookup k m ≡ none → lookup k (drop_inner i m) ≡ none
  unfolding drop_inner lookup
  lookup-drop_inner-none i k [] h = refl
  lookup-drop_inner-none i k ((j, x) ∷ m) h = ground (arith, lookup-drop_inner-none i k m)

  pub at-drop_inner :
      (i l : I) (j : K) (m : Map K (Map I V))
      → Distinct m
      → at j l (drop_inner i m) ≡ (if i == l then none else at j l m)
  unfolding drop_inner lookup inner
  at-drop_inner i l j [] h = ground arith
  at-drop_inner i l j ((k, x) ∷ m) h = ground (
    arith,
    e.beq_iff k j,
    lookup-drop_inner-none i j m,
    lookup-erase i l x,
    lookup_empty l (erase i x),
    at-drop_inner i l j m h.1,
  )

  pub drop_inner-Distinct : (i : I) (m : Map K (Map I V)) → Distinct m → Distinct (drop_inner i m)
  unfolding drop_inner
  drop_inner-Distinct i [] h = tt
  drop_inner-Distinct i ((k, x) ∷ m) h =
      ground (arith, lookup-drop_inner-none i k m, drop_inner-Distinct i m h.1)

  pub put-Distinct :
      (k : K) (i : I) (v : V) (m : Map K (Map I V)) → Distinct m → Distinct (put k i v m)
  unfolding put
  put-Distinct k i v m h = insert-Distinct k _ m h

  pub delete-Distinct : (k : K) (i : I) (m : Map K (Map I V)) → Distinct m → Distinct (delete k i m)
  unfolding delete
  delete-Distinct k i m h = elim (Option-cases (lookup k m)) [
    | inl n ↦ rw (n, delete) h
    | inr (x, s) ↦
        rw (s, delete) (ground (arith, erase-Distinct k m h, insert-Distinct k (erase i x) m h))
  ]

  insert-Filled :
      (k : K) (x : Map I V) (m : Map K (Map I V))
      → is_empty x ≡ false
      → Distinct x
      → Filled m
      → Filled (insert k x m)
  unfolding insert
  insert-Filled k x [] n h f = (n, h, tt)
  insert-Filled k x ((j, y) ∷ m) n h f = ground (arith, insert-Filled k x m n h f.2)

  erase-Filled : (k : K) (m : Map K (Map I V)) → Filled m → Filled (erase k m)
  unfolding erase
  erase-Filled k [] f = tt
  erase-Filled k ((j, y) ∷ m) f = ground (arith, erase-Filled k m f.2)

  inner-Distinct : (k : K) (m : Map K (Map I V)) → Filled m → Distinct (inner k m)
  unfolding inner lookup
  inner-Distinct k [] f = tt
  inner-Distinct k ((j, y) ∷ m) f = ground (arith, inner-Distinct k m f.2)

  pub put-Filled : (k : K) (i : I) (v : V) (m : Map K (Map I V)) → Filled m → Filled (put k i v m)
  unfolding put
  put-Filled k i v m f =
      insert-Filled k _ m (is_empty-insert i v (inner k m))
        (insert-Distinct i v (inner k m) (inner-Distinct k m f)) f

  pub delete-Filled : (k : K) (i : I) (m : Map K (Map I V)) → Filled m → Filled (delete k i m)
  unfolding delete
  delete-Filled k i m f = elim (Option-cases (lookup k m)) [
    | inl n ↦ rw (n, delete) f
    | inr (x, s) ↦
        let x_distinct : Distinct x = unfold inner in (rw s at (inner-Distinct k m f)) in
        let y_distinct = erase-Distinct i x x_distinct in
        rw (s, delete)
          (elim (Bool-cases (is_empty (erase i x))) [
            | inl h ↦ rw h (erase-Filled k m f)
            | inr h ↦ rw h (insert-Filled k (erase i x) m h y_distinct f)
          ])
  ]

  pub drop_inner-Filled : (i : I) (m : Map K (Map I V)) → Filled m → Filled (drop_inner i m)
  unfolding drop_inner
  drop_inner-Filled i [] f = tt
  drop_inner-Filled i ((k, x) ∷ m) f =
      ground (arith, erase-Distinct i x f.1, drop_inner-Filled i m f.2)
