-- ===== src/Prelude/Lists.antt =====
-- Predicates and tests on lists, by recursion, so that they compute on concrete lists.
use Prim.Native.Nat.{ℕ, suc}
use Prim.Native.String.{String}
use mathlib.Core.Logic.Or
use mathlib.Core.Path.{subst, sym}
use mathlib.Core.Bool.{Bool, true, false, ◌||◌, ◌&&◌}
use mathlib.Core.List.{List, [], ◌∷◌, ◌++◌, Mem, Memᴰ, Permᴰ, mem-cons, not-mem-nil}
use text.Mathlib.Text.{◌==◌}

module _ {ℓ} {A : Type ℓ} where
  abbrev pub length : List A → ℕ
  length [] = 0
  length (x ∷ xs) = suc (length xs)

  abbrev pub all : (A → Bool) → List A → Bool
  all p [] = true
  all p (x ∷ xs) = p x && all p xs

module _ {ℓ κ} {A : Type ℓ} (P : A → Type κ) where
  abbrev pub All : List A → Type κ
  All [] = Unit
  All (x ∷ xs) = P x × All xs

  pub All-append : (xs ys : List A) → All xs → All ys → All (xs ++ ys)
  All-append [] ys hx hy = hy
  All-append (x ∷ xs) ys hx hy = (hx.0, All-append xs ys hx.1 hy)

  -- What holds of every element holds of a member, where it is a proposition.
  pub All-mem : ((x : A) → IsProp (P x)) → (xs : List A) → All xs → (x : A) → Mem x xs → P x
  All-mem prop [] h x m = absurd (not-mem-nil m)
  All-mem prop (y ∷ xs) h x m =
      Or.elim (prop x) (mem-cons.0 m) (λ e. subst P (sym e) h.0) (All-mem prop xs h.1 x)

module _ {ℓ κ} {A : Type ℓ} (P : A → Type κ) where
  All-memᴰ : {x : A} (xs : List A) → All P xs → Memᴰ x xs → P x
  All-memᴰ [] h m = elim m [ ]
  All-memᴰ (y ∷ xs) h (Memᴰ.head e) = subst P (sym e) h.0
  All-memᴰ (y ∷ xs) h (Memᴰ.tail m) = All-memᴰ xs h.1 m

  -- What holds of all elements of a list holds of elements that are among them.
  pub All-among : (ys : List A) → All P ys → (xs : List A) → All (λ x. Memᴰ x ys) xs → All P xs
  All-among ys h [] m = tt
  All-among ys h (x ∷ xs) (here, m) = (All-memᴰ ys h here, All-among ys h xs m)

  pub All-perm : {xs ys : List A} → Permᴰ xs ys → All P xs → All P ys
  All-perm Permᴰ.nil h = h
  All-perm (Permᴰ.cons e p) h = (subst P e h.0, All-perm p h.1)
  All-perm (Permᴰ.swap e f) h = (subst P f h.1.0, (subst P e h.0, h.1.1))
  All-perm (Permᴰ.trans p q) h = All-perm q (All-perm p h)

pub All_prop {ℓ κ} :
    {A : Type ℓ} (P : A → Type κ) → ((x : A) → IsProp (P x)) → (xs : List A) → IsProp (All P xs)
All_prop P prop [] = hlevel
All_prop P prop (x ∷ xs) = hlevel (prop, All_prop P prop xs)

-- The elements at the same places are related, and the lengths agree.
module _ {ℓ κ} {A : Type ℓ} {B : Type κ} (R : A → B → Type 0) where
  abbrev pub Zip : List A → List B → Type 0
  Zip [] [] = Unit
  Zip [] (_ ∷ _) = ⊥
  Zip (_ ∷ _) [] = ⊥
  Zip (x ∷ xs) (y ∷ ys) = R x y × Zip xs ys

-- What holds of every pair holds in either order of the quantifiers.
module _ {ℓ κ μ} {A : Type ℓ} {B : Type κ} (R : A → B → Type μ) where
  All-unit : (ys : List B) → All (λ y. All (λ x. R x y) []) ys
  All-unit [] = tt
  All-unit (y ∷ ys) = (tt, All-unit ys)

  All-zip :
      (x : A) (xs : List A) (ys : List B)
      → All (R x) ys
      → All (λ y. All (λ a. R a y) xs) ys
      → All (λ y. All (λ a. R a y) (x ∷ xs)) ys
  All-zip x xs [] h hs = tt
  All-zip x xs (y ∷ ys) h hs = ((h.0, hs.0), All-zip x xs ys h.1 hs.1)

  pub All-swap :
      (xs : List A) (ys : List B) → All (λ x. All (R x) ys) xs → All (λ y. All (λ x. R x y) xs) ys
  All-swap [] ys h = All-unit ys
  All-swap (x ∷ xs) ys h = All-zip x xs ys h.0 (All-swap xs ys h.1)

-- `slices.Contains` at texts.
abbrev pub contains : List String → String → Bool
contains [] a = false
contains (x ∷ xs) a = x == a || contains xs a
