-- ===== src/Prelude/Sort.antt =====
-- `sort.Strings` and `sort.SliceStable`: a stable insertion sort by the bytes of a key.
use mathlib.Core.Path.{◌≡◌, refl}
use mathlib.Core.Bool.{Bool, true, false}
use mathlib.Core.List.{List, [], ◌∷◌}
use native.Mathlib.Omega.{arith}
use go_stream.Prelude.Tests.{ltb, nat_beq, if◌then◌else◌}
use go_stream.Prelude.Equality.{Text}

-- Go's `<` on strings.
pub text_ltb : Text → Text → Bool
text_ltb [] [] = false
text_ltb [] (b ∷ t) = true
text_ltb (a ∷ s) [] = false
text_ltb (a ∷ s) (b ∷ t) = if ltb a b then true else if nat_beq a b then text_ltb s t else false

module _ {ℓ} {A : Type ℓ} (key : A → Text) where
  -- Insert `a` in front of the first element that is not smaller.
  unfoldable pub insert_by : A → List A → List A
  insert_by a [] = a ∷ []
  insert_by a (x ∷ xs) = if text_ltb (key x) (key a) then x ∷ insert_by a xs else a ∷ x ∷ xs

  -- From the right, so that equal keys keep their order.
  unfoldable pub sort_by : List A → List A
  sort_by [] = []
  sort_by (x ∷ xs) = insert_by x (sort_by xs)

abbrev pub sort_texts : List Text → List Text
sort_texts = sort_by (λ t. t)

text_ltb-asymm : (s t : Text) → text_ltb s t ≡ true → text_ltb t s ≡ false
unfolding text_ltb
text_ltb-asymm [] [] h = refl
text_ltb-asymm [] (b ∷ t) h = refl
text_ltb-asymm (a ∷ s) [] h = ground arith
text_ltb-asymm (a ∷ s) (b ∷ t) h = ground (arith, text_ltb-asymm s t)

-- No element's key is below its predecessor's.
abbrev pub IsSortedBy {ℓ} : {A : Type ℓ} → (A → Text) → List A → Type 0
IsSortedBy key [] = Unit
IsSortedBy key (x ∷ []) = Unit
IsSortedBy key (x ∷ y ∷ l) = (text_ltb (key y) (key x) ≡ false) × IsSortedBy key (y ∷ l)

module _ {ℓ} {A : Type ℓ} (key : A → Text) where
  insert_by-IsSortedBy :
      (a : A) (xs : List A) → IsSortedBy key xs → IsSortedBy key (insert_by key a xs)
  unfolding insert_by
  insert_by-IsSortedBy a [] h = tt
  insert_by-IsSortedBy a (x ∷ []) h = ground (arith, text_ltb-asymm (key x) (key a))
  insert_by-IsSortedBy a (x ∷ y ∷ l) h =
      ground (arith, text_ltb-asymm (key x) (key a), insert_by-IsSortedBy a (y ∷ l) h.1)

  pub sort_by-IsSortedBy : (xs : List A) → IsSortedBy key (sort_by key xs)
  unfolding sort_by
  sort_by-IsSortedBy [] = tt
  sort_by-IsSortedBy (x ∷ xs) = insert_by-IsSortedBy x (sort_by key xs) (sort_by-IsSortedBy xs)
