-- ===== src/Defaults/Fill.antt =====
-- The loop that fills a resource list: what it adds, what it keeps, and when it fails.
use platform_governance_oper.Prelude.{
  String, ◌≡◌, refl, ◌⊎◌, inl, inr, Bool, true, false, Option, none, some, [], ◌∷◌, arith,
  Option-cases, Result, ok, err, Entries, lookup, insert, lookup-insert, lookup-insert_self,
  first_of, Extends, Extends-refl, Extends-trans, Extends-insert, HasKeys, eq_iff, All,
}
use platform_governance_oper.Defaults.{fill_defaults}

module _ {Q : Type 0} (parse_quantity : String → Option Q) where
  abbrev filled : Entries String → Entries Q → Bool → Entries Q × Result (String × String) Bool
  filled = fill_defaults parse_quantity

  -- The default of a resource, parsed.
  abbrev pub parsed : Option String → Option Q
  parsed none = none
  parsed (some value) = parse_quantity value

  -- Every default parses.
  abbrev pub Parses : Entries String → Type 0
  Parses = All (λ (d : String × String). (q : Q) × (parse_quantity d.1 ≡ some q))

  -- One round of the loop: the name is there, or its default does not parse, or it is added.
  pub fill_defaults-cons_cases :
      (name value : String) (ds : Entries String) (present : Entries Q) (m : Bool)
      → ((q : Q) × (lookup name present ≡ some q)
          × (filled ((name, value) ∷ ds) present m ≡ filled ds present m))
        ⊎ (((lookup name present ≡ none)
              × (parse_quantity value ≡ none)
              × (filled ((name, value) ∷ ds) present m ≡ (present, err (name, value))))
            ⊎ ((q : Q) × (lookup name present ≡ none)
                × (parse_quantity value ≡ some q)
                × (filled ((name, value) ∷ ds) present m ≡ filled ds (insert name q present) true)))
  unfolding fill_defaults
  fill_defaults-cons_cases name value ds present m = elim (Option-cases (lookup name present)) [
    | inr (q, found) ↦ inl (q, found, rw (found, fill_defaults))
    | inl missing ↦ elim (Option-cases (parse_quantity value)) [
      | inl bad ↦ inr (inl (missing, bad, ground arith))
      | inr (q, good) ↦ inr (inr (q, missing, good, ground arith))
    ]
  ]

  -- What is there stays, whether or not the loop fails.
  pub fill_defaults-Extends :
      (ds : Entries String) (present : Entries Q) (m : Bool)
      → Extends present (fill_defaults parse_quantity ds present m).0
  unfolding fill_defaults
  fill_defaults-Extends [] present m = Extends-refl present
  fill_defaults-Extends ((name, value) ∷ ds) present m =
      elim (fill_defaults-cons_cases name value ds present m) [
        | inl (q, found, same) ↦ rw same (fill_defaults-Extends ds present m)
        | inr (inl (missing, bad, stop)) ↦ rw stop (Extends-refl present)
        | inr (inr (q, missing, good, go)) ↦ rw go (
            Extends-trans (Extends-insert name q present missing)
              (fill_defaults-Extends ds (insert name q present) true))
      ]

  -- After a success every name is there.
  pub fill_defaults-HasKeys :
      (ds : Entries String) (present : Entries Q) (m b : Bool)
      → (fill_defaults parse_quantity ds present m).1 ≡ ok b
      → HasKeys ds (fill_defaults parse_quantity ds present m).0
  unfolding fill_defaults
  fill_defaults-HasKeys [] present m b h = tt
  fill_defaults-HasKeys ((name, value) ∷ ds) present m b h =
      elim (fill_defaults-cons_cases name value ds present m) [
        | inl (q, found, same) ↦ rw same (
          (q, (fill_defaults-Extends ds present m).keep name q found),
          fill_defaults-HasKeys ds present m b (rw same at h),
        )
        | inr (inl (missing, bad, stop)) ↦ absurd (cc (rw stop at h))
        | inr (inr (q, missing, good, go)) ↦
            let present' = insert name q present in
            rw go (
              (
                q,
                (fill_defaults-Extends ds present' true).keep name q
                    (lookup-insert_self name q present),
              ),
              fill_defaults-HasKeys ds present' true b (rw go at h),
            )
      ]

  -- After a success a quantity is the one that was there, else the parsed default.
  pub fill_defaults-lookup :
      (k : String) (ds : Entries String) (present : Entries Q) (m b : Bool)
      → (fill_defaults parse_quantity ds present m).1 ≡ ok b
      → lookup k (fill_defaults parse_quantity ds present m).0
        ≡ first_of (lookup k present) (parsed (lookup k ds))
  unfolding fill_defaults lookup
  fill_defaults-lookup k [] present m b h = ground arith
  fill_defaults-lookup k ((name, value) ∷ ds) present m b h =
      elim (fill_defaults-cons_cases name value ds present m) [
        | inl (q, found, same) ↦ rw same (
            ground
              (arith, found, fill_defaults-lookup k ds present m b (rw same at h), eq_iff name k))
        | inr (inl (missing, bad, stop)) ↦ absurd (cc (rw stop at h))
        | inr (inr (q, missing, good, go)) ↦ rw go (
            ground (
              arith,
              missing,
              good,
              eq_iff name k,
              lookup-insert name k q present,
              fill_defaults-lookup k ds (insert name q present) true b (rw go at h),
            ))
      ]

  -- Where no name is missing, nothing changes and nothing is parsed.
  pub fill_defaults-full :
      (ds : Entries String) (present : Entries Q) (m : Bool)
      → HasKeys ds present
      → fill_defaults parse_quantity ds present m ≡ (present, ok m)
  unfolding fill_defaults
  fill_defaults-full [] present m h = refl
  fill_defaults-full ((name, value) ∷ ds) present m ((q, found), h) =
      rw (found, fill_defaults) (fill_defaults-full ds present m h)

  -- Defaults that parse always succeed.
  pub fill_defaults-ok :
      (ds : Entries String) (present : Entries Q) (m : Bool)
      → Parses ds
      → (b : Bool) × ((fill_defaults parse_quantity ds present m).1 ≡ ok b)
  unfolding fill_defaults
  fill_defaults-ok [] present m h = (m, refl)
  fill_defaults-ok ((name, value) ∷ ds) present m ((q, good), h) =
      elim (fill_defaults-cons_cases name value ds present m) [
        | inl (r, found, same) ↦ rw same (fill_defaults-ok ds present m h)
        | inr (inl (missing, bad, stop)) ↦ absurd (cc (good, bad))
        | inr (inr (r, missing, fine, go)) ↦
            rw go (fill_defaults-ok ds (insert name r present) true h)
      ]

  -- Once set, the flag stays; and it is set exactly where a name was missing.
  pub fill_defaults-mutated :
      (ds : Entries String) (present : Entries Q) (b : Bool)
      → (fill_defaults parse_quantity ds present true).1 ≡ ok b
      → b ≡ true
  unfolding fill_defaults
  fill_defaults-mutated [] present b h = ground arith
  fill_defaults-mutated ((name, value) ∷ ds) present b h =
      elim (fill_defaults-cons_cases name value ds present true) [
        | inl (q, found, same) ↦ fill_defaults-mutated ds present b (rw same at h)
        | inr (inl (missing, bad, stop)) ↦ absurd (cc (rw stop at h))
        | inr (inr (q, missing, good, go)) ↦
            fill_defaults-mutated ds (insert name q present) b (rw go at h)
      ]

  pub fill_defaults-unmutated :
      (ds : Entries String) (present : Entries Q)
      → (fill_defaults parse_quantity ds present false).1 ≡ ok false
      → HasKeys ds present
  unfolding fill_defaults
  fill_defaults-unmutated [] present h = tt
  fill_defaults-unmutated ((name, value) ∷ ds) present h =
      elim (fill_defaults-cons_cases name value ds present false) [
        | inl (q, found, same) ↦ ((q, found), fill_defaults-unmutated ds present (rw same at h))
        | inr (inl (missing, bad, stop)) ↦ absurd (cc (rw stop at h))
        | inr (inr (q, missing, good, go)) ↦
            absurd (cc (fill_defaults-mutated ds (insert name q present) false (rw go at h)))
      ]
