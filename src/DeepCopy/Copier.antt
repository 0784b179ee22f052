-- ===== src/DeepCopy/Copier.antt =====
-- What a copy is: a value lies in a range of addresses of a heap, and the function allocates the
-- same value above all of them.
use platform_governance_oper.Prelude.{
  if◌then◌else◌, ℕ, suc, ◌≤◌, ◌<◌, ◌≡◌, refl, ap, ◌∙◌, Option, none, some, arith,
}
use platform_governance_oper.DeepCopy.Heap.{Ptr, Cell, Heap, M, pure, load, alloc, same, ◌>>=◌}
use platform_governance_oper.DeepCopy.Copies.{copy_field, copy_cell}

-- `At lo hi h r v`: in the heap h, r stands for v, and the addresses in it are at least lo and below
-- hi.
abbrev pub Layout : Type 0 → Type 0 → Type 1
Layout R V = ℕ → ℕ → Heap → R → V → Type 0

-- The cells of a range are the same in both heaps.
pub record Keeps (lo hi : ℕ) (h h' : Heap) : Type 0 where
  pub same_cell : (p : Ptr) → lo ≤ p → p < hi → h'.cell p ≡ h.cell p

-- The second heap has the cells of the first, and perhaps more.
pub record Grew (h h' : Heap) : Type 0 where
  pub grows : h.next ≤ h'.next
  pub keeps : Keeps 0 h.next h h'

-- The copy returns, it changes no cell that was there, and what it returns stands for the same value
-- with new addresses only.
pub record Copied {R V : Type 0} (At : Layout R V) (copy : R → M R) (h : Heap) (r : R) (v : V)
    : Type 0 where
  pub out : R
  pub after : Heap
  pub returns : copy r h ≡ some (out, after)
  pub grew : Grew h after
  pub copied : At h.next after.next after out v

module _ {R V : Type 0} where
  pub record IsCopier (At : Layout R V) (copy : R → M R) : Type 0 where
    -- A value stays where it is when its range widens and the cells are kept.
    pub moves :
        (lo hi lo' hi' : ℕ) (h h' : Heap) (r : R) (v : V)
        → lo' ≤ lo
        → hi ≤ hi'
        → Keeps lo hi h h'
        → At lo hi h r v
        → At lo' hi' h' r v
    pub copies : (h : Heap) (r : R) (v : V) → At 0 h.next h r v → Copied At copy h r v

module _ {A B : Type 0} where
  -- A chain whose first computation returns.
  pub bind_returns :
      (m : M A) (rest : A → M B) {a : A} {h after : Heap}
      → m h ≡ some (a, after)
      → (m >>= rest) h ≡ rest a after
  bind_returns m rest e = ap (λ o. elim o [ none ↦ none | some (a, after) ↦ rest a after ]) e

module _ {A : Type 0} where
  pub load_returns :
      (type : Cell → Option A) (h : Heap) (p : Ptr) (c : Cell) (a : A)
      → h.cell p ≡ some c
      → type c ≡ some a
      → load type p h ≡ some (a, h)
  unfolding load
  load_returns type h p c a there typed = rw (there, load) (rw typed refl)

pub Grew-refl : (h : Heap) → Grew h h
Grew-refl h = record { grows = omega arith; keeps = record { same_cell = λ p _ _. refl } }

pub Grew-trans : {h h' h'' : Heap} → Grew h h' → Grew h' h'' → Grew h h''
Grew-trans first second = record {
  grows = omega (arith, first.grows, second.grows);
  keeps = record {
    same_cell = λ p lo hi.
        second.keeps.same_cell p lo (omega (arith, hi, first.grows))
        ∙ first.keeps.same_cell p lo hi;
  };
}

module _ {R V : Type 0} {At : Layout R V} {copy : R → M R} (c : IsCopier At copy) where
  -- What is still to be copied stays where it is while the heap grows.
  pub At-later : {h h' : Heap} {r : R} {v : V} → Grew h h' → At 0 h.next h r v → At 0 h'.next h' r v
  At-later {h} {h'} {r} {v} g at =
      c.moves 0 h.next 0 h'.next h h' r v (omega arith) g.grows g.keeps at

  -- And so does what was copied; both ends of its range may move outwards.
  pub Copied-later :
      {h h' h'' : Heap} {r : R} {v : V}
      → Grew h h'
      → (d : Copied At copy h' r v) → Grew d.after h''
      → At h.next h''.next h'' d.out v
  Copied-later {h} {h'} {h''} {r} {v} before d g =
      c.moves h'.next d.after.next h.next h''.next d.after h'' d.out v before.grows g.grows
        (record { same_cell = λ p lo hi. g.keeps.same_cell p (omega arith) hi }) d.copied

-- A struct without addresses.
pub pure-IsCopier :
    {A : Type 0} → IsCopier {R = A} {V = A} (λ lo hi h r v. r ≡ v) (λ (r : A). pure r)
pure-IsCopier = record {
  moves = λ lo hi lo' hi' h h' r v _ _ _ e. e;
  copies = λ h r v e. record { out = r; after = h; returns = refl; grew = Grew-refl h; copied = e };
}

module _ {R V : Type 0} (At : Layout R V) where
  -- A field that may be nil.
  abbrev pub FieldAt : Layout (Option R) (Option V)
  FieldAt lo hi h none none = Unit
  FieldAt lo hi h (some r) (some v) = At lo hi h r v
  FieldAt lo hi h none (some _) = ⊥
  FieldAt lo hi h (some _) none = ⊥

  module _ {copy : R → M R} (c : IsCopier At copy) where
    field_moves :
        (lo hi lo' hi' : ℕ) (h h' : Heap) (r : Option R) (v : Option V)
        → lo' ≤ lo
        → hi ≤ hi'
        → Keeps lo hi h h'
        → FieldAt lo hi h r v
        → FieldAt lo' hi' h' r v
    field_moves lo hi lo' hi' h h' none none le ge k at = tt
    field_moves lo hi lo' hi' h h' (some r) (some v) le ge k at =
        c.moves lo hi lo' hi' h h' r v le ge k at
    field_moves lo hi lo' hi' h h' none (some _) le ge k at = absurd at
    field_moves lo hi lo' hi' h h' (some _) none le ge k at = absurd at

    field_copies :
        (h : Heap) (r : Option R) (v : Option V)
        → FieldAt 0 h.next h r v
        → Copied FieldAt (copy_field copy) h r v
    field_copies h none none at = record {
      out = none;
      after = h;
      returns = refl;
      grew = Grew-refl h;
      copied = tt;
    }
    field_copies h (some r) (some v) at =
        let d = c.copies h r v at in
        record {
          out = some d.out;
          after = d.after;
          returns = bind_returns (copy r) _ d.returns;
          grew = d.grew;
          copied = d.copied;
        }
    field_copies h none (some _) at = absurd at
    field_copies h (some _) none at = absurd at

    pub field-IsCopier : IsCopier FieldAt (copy_field copy)
    field-IsCopier = record { moves = field_moves; copies = field_copies }

module _ (h : Heap) (c : Cell) where
  -- The heap after an allocation.
  abbrev pub grown : Heap
  grown = record { next = suc h.next; cell = λ p. if same p h.next then some c else h.cell p }

  pub grown-new : grown.cell h.next ≡ some c
  grown-new = ground arith

  pub Grew-grown : Grew h grown
  Grew-grown = record {
    grows = omega arith;
    keeps = record { same_cell = λ p _ below. ground arith };
  }

module _ {A : Type 0} (cell : A → Cell) (Valid : A → Type 0) where
  -- A cell of its own with a value that the code keeps valid.
  abbrev pub CellAt : Layout Ptr A
  CellAt lo hi h p a = (lo ≤ p) × (p < hi) × (h.cell p ≡ some (cell a)) × Valid a

  pub cell-IsCopier :
      (type : Cell → Option A) (f : A → A)
      → ((a : A) → type (cell a) ≡ some a)
      → ((a : A) → Valid a → f a ≡ a)
      → IsCopier CellAt (copy_cell type cell f)
  unfolding alloc
  cell-IsCopier type f typed exact = record {
    moves = λ lo hi lo' hi' h h' p a le ge k (low, high, there, valid).
        (omega arith, omega arith, k.same_cell p low high ∙ there, valid);
    copies = λ h p a (_, below, there, valid). record {
      out = h.next;
      after = grown h (cell (f a));
      returns = bind_returns (load type p) _ (load_returns type h p (cell a) a there (typed a));
      grew = Grew-grown h (cell (f a));
      copied = (
        omega arith,
        omega arith,
        grown-new h (cell (f a)) ∙ ap (λ b. some (cell b)) (exact a valid),
        valid,
      );
    };
  }
