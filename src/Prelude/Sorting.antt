-- ===== src/Prelude/Sorting.antt =====
-- What `sort.Slice` promises: given a strict weak order it returns the elements in that order; it
-- need not keep the order of equal elements. And a function that keeps the promise.
use mathlib.Core.List.{
  List, [], ◌∷◌, Perm, reverse, reverse_perm, Mem, mem-cons_self, mem-cons_of_mem,
}
use mathlib.Core.List.Perm
use mathlib.Core.Logic.{◌⊎◌, inl, inr, ∥∥₁_elim}
use mathlib.Core.Path.{◌≡◌, ap₂}
use mathlib.Core.Bool.{Bool, true, false, Bool-set}
use platform_governance_oper.Prelude.Tests.{if◌then◌else◌, Bool-cases}
use platform_governance_oper.Prelude.Lists.{All, All-mem, All_prop, All-perm}

module _ {A : Type 0} where
  pub record IsStrictWeak (less : A → A → Bool) : Type 0 where
    pub asymm : (x y : A) → less x y ≡ true → less y x ≡ false
    pub cotrans : (x y z : A) → less x z ≡ true → (less x y ≡ true) ⊎ (less y z ≡ true)

  -- No later element is less than an earlier one.
  abbrev pub IsOrdered : (A → A → Bool) → List A → Type 0
  IsOrdered less [] = Unit
  IsOrdered less (x ∷ xs) = All (λ y. less y x ≡ false) xs × IsOrdered less xs

  pub record IsSliceSort (sort : (A → A → Bool) → List A → List A) : Type 0 where
    pub permutes : (less : A → A → Bool) (xs : List A) → Perm (sort less xs) xs
    pub orders :
        (less : A → A → Bool) (xs : List A) → IsStrictWeak less → IsOrdered less (sort less xs)

  -- Insertion, before the first element that is not less.
  unfoldable pub insert_in : (A → A → Bool) → A → List A → List A
  insert_in less x [] = x ∷ []
  insert_in less x (y ∷ ys) =
      let rest = insert_in less x ys in if less y x then y ∷ rest else x ∷ y ∷ ys

  unfoldable pub insertion_sort : (A → A → Bool) → List A → List A
  unfolding insert_in
  insertion_sort less [] = []
  insertion_sort less (x ∷ xs) = insert_in less x (insertion_sort less xs)

  insert_in-perm : (less : A → A → Bool) (x : A) (xs : List A) → Perm (insert_in less x xs) (x ∷ xs)
  unfolding insert_in
  insert_in-perm less x [] = Perm.refl (x ∷ [])
  insert_in-perm less x (y ∷ ys) = elim (Bool-cases (less y x)) [
    | inl lt ↦ rw lt (Perm.trans (Perm.cons y (insert_in-perm less x ys)) (Perm.swap x y ys))
    | inr ge ↦ rw ge (Perm.refl (x ∷ y ∷ ys))
  ]

  insertion_sort-perm : (less : A → A → Bool) (xs : List A) → Perm (insertion_sort less xs) xs
  unfolding insertion_sort
  insertion_sort-perm less [] = Perm.refl []
  insertion_sort-perm less (x ∷ xs) =
      Perm.trans (insert_in-perm less x (insertion_sort less xs))
        (Perm.cons x (insertion_sort-perm less xs))

  insert_in-All :
      (P : A → Type 0) (less : A → A → Bool) (x : A) (xs : List A)
      → P x
      → All P xs
      → All P (insert_in less x xs)
  unfolding insert_in
  insert_in-All P less x [] p h = (p, tt)
  insert_in-All P less x (y ∷ ys) p h = elim (Bool-cases (less y x)) [
    | inl lt ↦ rw lt (h.0, insert_in-All P less x ys p h.1)
    | inr ge ↦ rw ge (p, h)
  ]

  -- What is not less than `y` is not less than an `x` that is not more than `y`.
  not_less_of :
      (less : A → A → Bool) (x y : A) (xs : List A)
      → IsStrictWeak less
      → less y x ≡ false
      → All (λ z. less z y ≡ false) xs
      → All (λ z. less z x ≡ false) xs
  not_less_of less x y [] w ge h = tt
  not_less_of less x y (z ∷ xs) w ge (here, h) = (
    elim (Bool-cases (less z x)) [
      | inr not_less ↦ not_less
      | inl lt ↦ elim (w.cotrans z y x lt) [ inl a ↦ cc | inr b ↦ cc ]
    ],
    not_less_of less x y xs w ge h,
  )

  insert_in-IsOrdered :
      (less : A → A → Bool) (x : A) (xs : List A)
      → IsStrictWeak less
      → IsOrdered less xs
      → IsOrdered less (insert_in less x xs)
  unfolding insert_in
  insert_in-IsOrdered less x [] w h = (tt, tt)
  insert_in-IsOrdered less x (y ∷ ys) w (below, h) = elim (Bool-cases (less y x)) [
    | inl lt ↦ rw lt (
      insert_in-All (λ z. less z y ≡ false) less x ys (w.asymm y x lt) below,
      insert_in-IsOrdered less x ys w h,
    )
    | inr ge ↦ rw ge ((ge, not_less_of less x y ys w ge below), (below, h))
  ]

  insertion_sort-IsOrdered :
      (less : A → A → Bool) (xs : List A)
      → IsStrictWeak less
      → IsOrdered less (insertion_sort less xs)
  unfolding insertion_sort
  insertion_sort-IsOrdered less [] w = tt
  insertion_sort-IsOrdered less (x ∷ xs) w =
      insert_in-IsOrdered less x (insertion_sort less xs) w (insertion_sort-IsOrdered less xs w)

  pub insertion_sort-IsSliceSort : IsSliceSort insertion_sort
  insertion_sort-IsSliceSort = record {
    permutes = insertion_sort-perm;
    orders = insertion_sort-IsOrdered;
  }

  -- Another sort that keeps the promise, and leaves equal elements in the opposite order.
  unfoldable pub reversing_sort : (A → A → Bool) → List A → List A
  reversing_sort less xs = insertion_sort less (reverse xs)

  pub reversing_sort-IsSliceSort : IsSliceSort reversing_sort
  unfolding reversing_sort
  reversing_sort-IsSliceSort = record {
    permutes = λ less xs. Perm.trans (insertion_sort-perm less (reverse xs)) (reverse_perm xs);
    orders = λ less xs. insertion_sort-IsOrdered less (reverse xs);
  }

  -- Elements of which neither is less than the other are equal.
  abbrev pub Separates : (A → A → Bool) → List A → Type 0
  Separates less xs = (x y : A) → Mem x xs → Mem y xs → less x y ≡ false → less y x ≡ false → x ≡ y

  head_least :
      (less : A → A → Bool) (x y : A) (xs ys : List A)
      → IsStrictWeak less
      → IsOrdered less (x ∷ xs)
      → Perm (y ∷ ys) (x ∷ xs)
      → less y x ≡ false
  head_least less x y xs ys w (below, _) p =
      All-mem (λ z. less z x ≡ false) (λ z. Bool-set (less z x) false) (x ∷ xs)
        (elim (Bool-cases (less x x)) [ inr no_less ↦ no_less | inl lt ↦ w.asymm x x lt ], below) y
        ((Perm.mem_iff p).0 mem-cons_self)

  -- Where the order separates the elements, they have only one ordering.
  pub IsOrdered-eq_of_perm :
      (less : A → A → Bool) (xs ys : List A)
      → IsStrictWeak less
      → Separates less xs
      → IsOrdered less xs
      → IsOrdered less ys
      → Perm xs ys
      → xs ≡ ys
  IsOrdered-eq_of_perm less [] ys w apart o o' p = Perm.nil-eq p
  IsOrdered-eq_of_perm less (x ∷ xs) [] w apart o o' p = Perm.eq-nil p
  IsOrdered-eq_of_perm less (x ∷ xs) (y ∷ ys) w apart o o' p =
      let heads : x ≡ y =
        apart x y mem-cons_self ((Perm.mem_iff p).1 mem-cons_self)
          (head_least less y x ys xs w o' p) (head_least less x y xs ys w o (Perm.symm p)) in
      let tails = Perm.cons_inv (Perm.trans p (Perm.symm (Perm.cons' heads Perm.rfl))) in
      ap₂ ◌∷◌ heads (
        IsOrdered-eq_of_perm less xs ys w
          (λ a b m n. apart a b (mem-cons_of_mem x m) (mem-cons_of_mem x n)) o.1 o'.1 tails)

  pub Separates-perm :
      (less : A → A → Bool) (xs ys : List A) → Perm xs ys → Separates less ys → Separates less xs
  Separates-perm less xs ys p apart =
      λ x y m n. apart x y ((Perm.mem_iff p).0 m) ((Perm.mem_iff p).0 n)

module _ {A : Type 0} {sort : (A → A → Bool) → List A → List A} (s : IsSliceSort sort)
    (less : A → A → Bool) (P : A → Type 0) (xs : List A) where
  -- What holds of the sorted elements holds of the elements.
  pub All-of_sorted : ((x : A) → IsProp (P x)) → All P (sort less xs) → All P xs
  All-of_sorted prop h = ∥∥₁_elim (s.permutes less xs) (All_prop P prop xs) (λ p. All-perm P p h)

  -- What holds of the elements holds of the sorted ones, for the proof of a proposition.
  pub All-sorted : {R : Type 0} → IsProp R → All P xs → (All P (sort less xs) → R) → R
  All-sorted prop h f = ∥∥₁_elim (Perm.symm (s.permutes less xs)) prop (λ p. f (All-perm P p h))
