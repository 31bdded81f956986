-- ===== src/Prelude/GoSet.antt =====
-- A Go map into `bool` that only ever stores `true`: a set. Its order of iteration is that of the
-- list.
use mathlib.Core.Path.{◌≡◌, refl, sym, ◌∙◌}
use Prim.Native.Nat.{suc, ◌≤◌}
use mathlib.Core.Logic.{inl, inr}
use mathlib.Core.Bool.{Bool, true, false, ◌||◌}
use mathlib.Core.List.{List, [], ◌∷◌}
use native.Mathlib.Omega.{arith}
use sockchat.Prelude.Tests.{Eq, ◌==◌, if◌then◌else◌, ==_iff, Bool-cases, leb}
use sockchat.Prelude.Lists.{length}

module _ {A : Type 0} ⦃e : Eq A⦄ where
  -- `s[a]`
  unfoldable pub contains : A → List A → Bool
  contains a [] = false
  contains a (x ∷ xs) = x == a || contains a xs

  -- `s[a] = true`
  unfoldable pub insert : A → List A → List A
  insert a [] = a ∷ []
  insert a (x ∷ xs) = if x == a then x ∷ xs else x ∷ insert a xs

  -- `delete(s, a)`
  unfoldable pub delete : A → List A → List A
  delete a [] = []
  delete a (x ∷ xs) = if x == a then delete a xs else x ∷ delete a xs

  pub contains-insert :
      (a b : A) (xs : List A) → contains b (insert a xs) ≡ (if a == b then true else contains b xs)
  unfolding contains insert
  contains-insert a b [] = ground arith
  contains-insert a b (x ∷ xs) =
      ground (arith, ==_iff x a, ==_iff x b, ==_iff a b, contains-insert a b xs)

  pub contains-delete :
      (a b : A) (xs : List A) → contains b (delete a xs) ≡ (if a == b then false else contains b xs)
  unfolding contains delete
  contains-delete a b [] = ground arith
  contains-delete a b (x ∷ xs) =
      ground (arith, ==_iff x a, ==_iff x b, ==_iff a b, contains-delete a b xs)

-- No item stands twice in the list.
abbrev pub IsDistinct : {A : Type 0} ⦃e : Eq A⦄ → List A → Type 0
IsDistinct [] = Unit
IsDistinct (x ∷ xs) = (contains x xs ≡ false) × IsDistinct xs

module _ {A : Type 0} ⦃e : Eq A⦄ where
  pub insert-IsDistinct : (a : A) (xs : List A) → IsDistinct xs → IsDistinct (insert a xs)
  unfolding contains insert
  insert-IsDistinct a [] d = (refl, tt)
  insert-IsDistinct a (x ∷ xs) d = elim (Bool-cases (x == a)) [
    | inl h ↦ rw h d
    | inr h ↦ rw h (
      contains-insert a x xs ∙ ground (arith, ==_iff a x, ==_iff x a, d.0),
      insert-IsDistinct a xs d.1,
    )
  ]

  pub delete-IsDistinct : (a : A) (xs : List A) → IsDistinct xs → IsDistinct (delete a xs)
  unfolding contains delete
  delete-IsDistinct a [] d = tt
  delete-IsDistinct a (x ∷ xs) d = elim (Bool-cases (x == a)) [
    | inl h ↦ rw h (delete-IsDistinct a xs d.1)
    | inr h ↦ rw h (contains-delete a x xs ∙ ground (arith, d.0), delete-IsDistinct a xs d.1)
  ]

  delete_absent : (a : A) (xs : List A) → contains a xs ≡ false → delete a xs ≡ xs
  unfolding contains delete
  delete_absent a [] h = refl
  delete_absent a (x ∷ xs) h = ground (arith, delete_absent a xs)

  -- The length falls by one.
  pub length-delete :
      (a : A) (xs : List A)
      → IsDistinct xs
      → contains a xs ≡ true
      → length xs ≡ suc (length (delete a xs))
  unfolding contains delete
  length-delete a [] d h = cc
  length-delete a (x ∷ xs) d h =
      ground (arith, length-delete a xs d.1, delete_absent a xs, ==_iff x a)

  pub length-insert : (a : A) (xs : List A) → 1 ≤ length (insert a xs)
  unfolding insert
  length-insert a [] = omega arith
  length-insert a (x ∷ xs) = ground arith

  -- The only item.
  pub contains_single :
      (a b : A) (xs : List A) → contains a xs ≡ true → length xs ≤ 1 → contains b xs ≡ (a == b)
  unfolding contains
  contains_single a b [] h l = cc
  contains_single a b (x ∷ []) h l = ground (arith, ==_iff x a, ==_iff x b, ==_iff a b)
  contains_single a b (x ∷ y ∷ xs) h l = absurd (omega arith)

module _ {A : Type 0} ⦃e : Eq A⦄ where
  -- A set that is not empty has an item.
  pub some_item : (xs : List A) → 1 ≤ length xs → (a : A) × (contains a xs ≡ true)
  unfolding contains
  some_item [] l = absurd (omega arith)
  some_item (x ∷ xs) l = (x, ground (arith, ==_iff x x))

  -- Two items are more than one.
  pub two_items :
      (a b : A) (xs : List A)
      → ¬ (a ≡ b)
      → contains a xs ≡ true
      → contains b xs ≡ true
      → 2 ≤ length xs
  two_items a b xs ne h k = elim (Bool-cases (leb (length xs) 1)) [
    | inl l ↦ absurd (ne ((==_iff a b).0 (sym (contains_single a b xs h (ground arith)) ∙ k)))
    | inr l ↦ ground arith
  ]

  -- A set with one item only.
  pub single_item :
      (a : A) (xs : List A) → IsDistinct xs → ((b : A) → contains b xs ≡ (a == b)) → length xs ≤ 1
  unfolding contains
  single_item a [] d h = omega arith
  single_item a (x ∷ []) d h = omega arith
  single_item a (x ∷ y ∷ xs) d h =
      ground (
        arith,
        h x,
        h y,
        ==_iff a x,
        ==_iff a y,
        ==_iff x y,
        ==_iff y x,
        ==_iff x x,
        ==_iff y y,
        d.0,
      )
