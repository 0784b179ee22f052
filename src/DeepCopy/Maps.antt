-- ===== src/DeepCopy/Maps.antt =====
-- The loop that copies a map, entry by entry, into an empty one.
use mathlib.Core.List.{append_assoc, append-nil}
use platform_governance_oper.Prelude.{
  String, ◌≡◌, refl, sym, ap, ◌∙◌, none, [], ◌∷◌, ◌++◌, arith, Entries, NodupKeys, lookup, insert,
  lookup-insert, lookup-cons, eq_iff, All,
}
use platform_governance_oper.DeepCopy.Heap.{map_cell}
use platform_governance_oper.DeepCopy.Copies.{copy_entries, copy_map, as_map}
use platform_governance_oper.DeepCopy.Copier.{IsCopier, cell-IsCopier}
use platform_governance_oper.DeepCopy.Shape.{MapAt}

insert_absent :
    (k v : String) (m : Entries String) → lookup k m ≡ none → insert k v m ≡ m ++ (k, v) ∷ []
unfolding insert lookup
insert_absent k v [] h = refl
insert_absent k v ((j, w) ∷ m) h = ground (arith, insert_absent k v m, eq_iff j k)

-- No key of the first map is one of the second.
abbrev Apart : Entries String → Entries String → Type 0
Apart m out = All (λ (e : String × String). lookup e.0 out ≡ none) m

Apart-insert :
    (k v : String) (m out : Entries String)
    → lookup k m ≡ none
    → Apart m out
    → Apart m (insert k v out)
Apart-insert k v [] out fresh apart = tt
Apart-insert k v ((j, w) ∷ m) out fresh (here, apart) =
    let rest : lookup k m ≡ none = ground (arith, fresh, lookup-cons j k w m) in
    (
      ground (
        arith,
        here,
        fresh,
        lookup-cons j k w m,
        lookup-insert k j v out,
        eq_iff j k,
        eq_iff k j,
      ),
      Apart-insert k v m out rest apart,
    )

copy_entries-append :
    (m out : Entries String) → NodupKeys m → Apart m out → copy_entries m out ≡ out ++ m
unfolding copy_entries
copy_entries-append [] out distinct apart = sym (append-nil out)
copy_entries-append ((k, v) ∷ m) out (fresh, distinct) (here, apart) =
    copy_entries-append m (insert k v out) distinct (Apart-insert k v m out fresh apart)
    ∙ ap (λ o. o ++ m) (insert_absent k v out here)
    ∙ append_assoc out ((k, v) ∷ []) m

Apart-nil : (m : Entries String) → Apart m []
unfolding lookup
Apart-nil [] = tt
Apart-nil (e ∷ m) = (refl, Apart-nil m)

pub map-IsCopier : IsCopier MapAt copy_map
map-IsCopier =
    cell-IsCopier map_cell NodupKeys as_map (λ m. copy_entries m []) (λ _. refl)
      (λ m distinct. copy_entries-append m [] distinct (Apart-nil m))
