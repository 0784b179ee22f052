-- ===== src/Prelude/Maps.antt =====
-- Go maps with text keys. A map is `none` where it is nil, else its entries in the order in which
-- `range` visits them. A read of a nil map finds nothing, and a `range` over it makes no round.
use Prim.Native.String.{String}
use mathlib.Core.Path.{◌≡◌, refl, ◌∙◌}
use mathlib.Core.Option.{Option, none, some}
use mathlib.Core.List.{List, [], ◌∷◌, Permᴰ}
use native.Mathlib.Omega.{arith}
use text.Mathlib.Text.{◌==◌}
use text.Mathlib.TextEquality.{eq_iff}
use text.Mathlib.TextPositions.{eq_refl}
use platform_governance_oper.Prelude.Tests.{if◌then◌else◌}

module _ {ℓ} where
  abbrev pub Entries : Type ℓ → Type ℓ
  Entries V = List (String × V)

  abbrev pub GoMap : Type ℓ → Type ℓ
  GoMap V = Option (Entries V)

module _ {ℓ} {V : Type ℓ} where
  -- The entries; `make` for a nil map gives the same.
  abbrev pub entries : GoMap V → Entries V
  entries none = []
  entries (some m) = m

  -- `v, exists := m[k]`
  unfoldable pub lookup : String → Entries V → Option V
  lookup key [] = none
  lookup key ((here, value) ∷ later) =
      let found = lookup key later in if here == key then some value else found

  -- `m[k] = v`
  unfoldable pub insert : String → V → Entries V → Entries V
  insert key value [] = (key, value) ∷ []
  insert key value ((here, old) ∷ later) =
      let put = insert key value later in
      if here == key then (key, value) ∷ later else (here, old) ∷ put

  -- No key occurs twice, as in every Go map.
  abbrev pub NodupKeys : Entries V → Type ℓ
  NodupKeys [] = Unit
  NodupKeys ((k, _) ∷ m) = (lookup k m ≡ none) × NodupKeys m

  -- A read after a write.
  pub lookup-insert :
      (written read : String) (value : V) (entries : Entries V)
      → lookup read (insert written value entries)
        ≡ (if written == read then some value else lookup read entries)
  unfolding lookup insert
  lookup-insert written read value [] = refl
  lookup-insert written read value ((here, old) ∷ later) =
      let rest = lookup-insert written read value later in
      ground (arith, rest, eq_iff here written, eq_iff here read, eq_iff written read)

  pub lookup-insert_self :
      (key : String) (value : V) (entries : Entries V)
      → lookup key (insert key value entries) ≡ some value
  lookup-insert_self key value entries =
      rw (lookup-insert key key value entries) (rw (eq_refl key) refl)

  pub lookup-cons :
      (j k : String) (v : V) (m : Entries V)
      → lookup k ((j, v) ∷ m) ≡ (if j == k then some v else lookup k m)
  unfolding lookup
  lookup-cons j k v m = refl

  pub insert-NodupKeys :
      (k : String) (v : V) (m : Entries V) → NodupKeys m → NodupKeys (insert k v m)
  unfolding insert lookup
  insert-NodupKeys k v [] h = (refl, tt)
  insert-NodupKeys k v ((j, w) ∷ m) (fresh, u) =
      ground (arith, insert-NodupKeys k v m u, lookup-insert k j v m, eq_iff j k, eq_iff k j)

  -- A value, else another.
  abbrev pub first_of : Option V → Option V → Option V
  first_of none o = o
  first_of (some v) o = some v

  -- Every entry of the first map is one of the second.
  pub record Extends (m m' : Entries V) : Type ℓ where
    pub keep : (k : String) (v : V) → lookup k m ≡ some v → lookup k m' ≡ some v

  pub Extends-refl : (m : Entries V) → Extends m m
  Extends-refl m = record { keep = λ k v h. h }

  pub Extends-trans : {a b c : Entries V} → Extends a b → Extends b c → Extends a c
  Extends-trans p q = record { keep = λ k v h. q.keep k v (p.keep k v h) }

  pub Extends-insert :
      (k : String) (v : V) (m : Entries V) → lookup k m ≡ none → Extends m (insert k v m)
  Extends-insert k v m fresh = record {
    keep = λ j w h. ground (arith, lookup-insert k j v m, eq_iff k j);
  }

  -- Every key of `ds` has a value in `m`.
  abbrev pub HasKeys {κ} : {W : Type κ} → List (String × W) → Entries V → Type ℓ
  HasKeys [] m = Unit
  HasKeys ((k, _) ∷ ds) m = ((v : V) × (lookup k m ≡ some v)) × HasKeys ds m

  pub HasKeys-Extends {κ} :
      {W : Type κ} (ds : List (String × W)) {m m' : Entries V}
      → Extends m m'
      → HasKeys ds m
      → HasKeys ds m'
  HasKeys-Extends [] e h = tt
  HasKeys-Extends ((k, _) ∷ ds) e ((v, p), h) = ((v, e.keep k v p), HasKeys-Extends ds e h)

  -- Two lists of entries that read alike.
  pub record SameReads (m m' : Entries V) : Type ℓ where
    pub reads : (k : String) → lookup k m ≡ lookup k m'

  -- The order of the entries of a map does not show in a read.
  pub SameReads-perm : {m m' : Entries V} → Permᴰ m m' → NodupKeys m → SameReads m m' × NodupKeys m'
  unfolding lookup
  SameReads-perm Permᴰ.nil h = (record { reads = λ k. refl }, tt)
  SameReads-perm (Permᴰ.cons {a = a} {b = b} e p) (fresh, h) =
      let (same, h') = SameReads-perm p h in
      (record { reads = λ k. ground (arith, same.reads k) }, (ground (arith, same.reads b.0), h'))
  SameReads-perm (Permᴰ.swap {a = a} {b = b} e f) (fresh, (fresh', h)) = (
    record { reads = λ k. ground (arith, eq_iff a.0 k, eq_iff b.0 k, eq_iff b.0 a.0) },
    (ground (arith, eq_iff a.0 b.0, eq_iff b.0 a.0), (ground (arith, eq_iff b.0 a.0), h)),
  )
  SameReads-perm (Permᴰ.trans p q) h =
      let (same, h') = SameReads-perm p h in
      let (same', h'') = SameReads-perm q h' in
      (record { reads = λ k. same.reads k ∙ same'.reads k }, h'')
