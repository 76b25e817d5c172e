-- ===== src/Wire/Writing.antt =====
-- `writeAll` of go/adapter/tcp/tcp.go. The answers of the connection's `Write` calls are a list: each
-- takes a number of the bytes it is given, or fails.
use go_stream.Prelude.{
  append_assoc, ℕ, zero, suc, ◌≤◌, List, [], ◌∷◌, ◌++◌, Option, none, some, Text, take, drop,
  length, ◌≡◌, ◌≢◌, ◌⊎◌, inl, inr, refl, ap, ◌∙◌, arith, nat_eq, take-append-drop, length-drop,
}
use go_stream.Errors.{Error, Result, ok, err}

-- The bytes that went out, and the result, none while a `Write` has not answered.
pub write_all : Text → List (Result ℕ) → Text × Option (Result (Unit {0}))
write_all [] writes = ([], some (ok tt))
write_all (b ∷ payload) [] = ([], none)
write_all (b ∷ payload) (err e ∷ writes) = ([], some (err e))
write_all (b ∷ payload) (ok zero ∷ writes) = ([], some (err Error.short_write))
write_all (b ∷ payload) (ok (suc n) ∷ writes) =
    let rest = write_all (drop n payload) writes in (b ∷ take n payload ++ rest.0, rest.1)

-- What has gone out is a head of the payload: all of it, when `writeAll` has returned without an error.
pub write_all-head :
    (payload : Text) (writes : List (Result ℕ))
    → (rest : Text) × ((write_all payload writes).0 ++ rest ≡ payload)
      × ((rest ≡ []) ⊎ ((write_all payload writes).1 ≢ some (ok tt)))
unfolding write_all
write_all-head [] writes = ([], refl, inl refl)
write_all-head (b ∷ payload) [] = (b ∷ payload, refl, inr (λ e. absurd (ground arith)))
write_all-head (b ∷ payload) (err e ∷ writes) =
    (b ∷ payload, refl, inr (λ e. absurd (ground arith)))
write_all-head (b ∷ payload) (ok zero ∷ writes) =
    (b ∷ payload, refl, inr (λ e. absurd (ground arith)))
write_all-head (b ∷ payload) (ok (suc n) ∷ writes) =
    let (rest, whole, all) = write_all-head (drop n payload) writes in
    (
      rest,
      ap (◌∷◌ b) (
          append_assoc (take n payload) (write_all (drop n payload) writes).0 rest
          ∙ ap (λ s. take n payload ++ s) whole
          ∙ take-append-drop n payload),
      all,
    )

-- `writeAll` returns after at most one `Write` for each byte.
pub write_all-returns :
    (payload : Text) (writes : List (Result ℕ))
    → length payload ≤ length writes
    → (write_all payload writes).1 ≢ none
unfolding write_all
write_all-returns [] writes h e = absurd (ground arith)
write_all-returns (b ∷ payload) [] h e = absurd (omega arith)
write_all-returns (b ∷ payload) (err f ∷ writes) h e = absurd (ground arith)
write_all-returns (b ∷ payload) (ok zero ∷ writes) h e = absurd (ground arith)
write_all-returns (b ∷ payload) (ok (suc n) ∷ writes) h e =
    write_all-returns (drop n payload) writes (omega (arith, length-drop n payload)) e
