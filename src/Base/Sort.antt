-- ===== src/Base/Sort.antt =====
-- Sorting by a strict order, as insertion sort: the orders of the source are total on the values
-- that it sorts, so every sort gives this list.
use Prim.Native.Nat.{suc}
use mathlib.Core.Path.{◌≡◌, refl, ap, ◌∙◌}
use mathlib.Core.Logic.{inl, inr}
use mathlib.Core.Bool.{Bool}
use mathlib.Core.List.{List, [], ◌∷◌}
use native.Mathlib.Omega.{arith}
use crawlledger.Base.Tests.{if◌then◌else◌, Bool-cases}
use crawlledger.Base.Lists.{length, All}

module _ {A : Type 0} (less : A → A → Bool) where
  unfoldable pub insert_by : A → List A → List A
  insert_by x [] = x ∷ []
  insert_by x (y ∷ ys) = if less y x then y ∷ insert_by x ys else x ∷ y ∷ ys

  unfoldable pub sort_by : List A → List A
  unfolding insert_by
  sort_by [] = []
  sort_by (x ∷ xs) = insert_by x (sort_by xs)

  pub length-insert_by : (x : A) (xs : List A) → length (insert_by x xs) ≡ suc (length xs)
  unfolding insert_by
  length-insert_by x [] = refl
  length-insert_by x (y ∷ ys) = ground (arith, length-insert_by x ys)

  pub length-sort_by : (xs : List A) → length (sort_by xs) ≡ length xs
  unfolding sort_by
  length-sort_by [] = refl
  length-sort_by (x ∷ xs) = length-insert_by x (sort_by xs) ∙ ap suc (length-sort_by xs)

  pub All-insert_by :
      (P : A → Type 0) (x : A) (xs : List A) → P x → All P xs → All P (insert_by x xs)
  unfolding insert_by
  All-insert_by P x [] p a = (p, tt)
  All-insert_by P x (y ∷ ys) p a = elim (Bool-cases (less y x)) [
    | inl above ↦ rw above (a.0, All-insert_by P x ys p a.1)
    | inr below ↦ rw below (p, a)
  ]

  pub All-sort_by : (P : A → Type 0) (xs : List A) → All P xs → All P (sort_by xs)
  unfolding sort_by
  All-sort_by P [] a = tt
  All-sort_by P (x ∷ xs) a = All-insert_by P x (sort_by xs) a.0 (All-sort_by P xs a.1)
