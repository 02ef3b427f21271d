-- ===== src/Reactor/Index.antt =====
-- `unordered_map<K, unordered_set<int>>`, as `epoll_registry` keeps its two indexes.
use mathlib.Core.Path.{subst}
use socket_prac.Prelude.{
  ℤ, ◌≡◌, refl, Bool, true, false, ◌&&◌, Option, none, some, List, [], ◌∷◌, is_empty, arith,
  if◌then◌else◌, inl, inr, Bool-cases, Option-cases, Eq, ◌==◌, int_eq, Map, lookup, erase, put,
  lookup-erase, lookup-put, contains, insert, remove, contains-insert, contains-remove,
}

abbrev pub fds_at : Option (List ℤ) → List ℤ
fds_at none = []
fds_at (some fds) = fds

contains-empty :
    (fd fd' : ℤ) (fds : List ℤ)
    → is_empty (remove fd fds) ≡ true
    → contains fd' (remove fd fds) ≡ false
contains-empty fd fd' fds h = go (remove fd fds) h
  where
    go : (xs : List ℤ) → is_empty xs ≡ true → contains fd' xs ≡ false
    go [] h = unfold contains in refl
    go (x ∷ xs) h = absurd (ground arith)

module _ {ℓ} {K : Type ℓ} ⦃e : Eq K⦄ where
  -- Whether `fd` is in the set at `k`.
  unfoldable pub indexed : K → ℤ → Map K (List ℤ) → Bool
  indexed k fd idx = contains fd (fds_at (lookup k idx))

  -- `idx[k].insert(fd)`
  unfoldable pub index_insert : K → ℤ → Map K (List ℤ) → Map K (List ℤ)
  index_insert k fd idx = put k (insert fd (fds_at (lookup k idx))) idx

  -- The set at `k`, if there is one, loses `fd`; an empty set is erased with its key.
  unfoldable pub index_remove : K → ℤ → Map K (List ℤ) → Map K (List ℤ)
  index_remove k fd idx = elim (lookup k idx) [
    | none ↦ idx
    | some fds ↦
        let rest = remove fd fds in
        if is_empty rest then erase k (put k rest idx) else put k rest idx
  ]

  pub indexed-index_insert :
      (k j : K) (fd fd' : ℤ) (idx : Map K (List ℤ))
      → indexed j fd' (index_insert k fd idx)
        ≡ (if (k == j) && (fd == fd') then true else indexed j fd' idx)
  unfolding indexed index_insert
  indexed-index_insert k j fd fd' idx = ground (
    arith,
    lookup-put k j (insert fd (fds_at (lookup k idx))) idx,
    contains-insert fd fd' (fds_at (lookup k idx)),
    e.equals_iff k j,
  )

  pub indexed-index_remove :
      (k j : K) (fd fd' : ℤ) (idx : Map K (List ℤ))
      → indexed j fd' (index_remove k fd idx)
        ≡ (if (k == j) && (fd == fd') then false else indexed j fd' idx)
  unfolding indexed index_remove contains
  indexed-index_remove k j fd fd' idx =
      let fds = fds_at (lookup k idx) in
      ground (
        arith,
        lookup-put k j (remove fd fds) idx,
        lookup-erase k j (put k (remove fd fds) idx),
        contains-remove fd fd' fds,
        contains-empty fd fd' fds,
        e.equals_iff k j,
      )

-- No element occurs twice.
abbrev pub Distinct : List ℤ → Type 0
Distinct [] = Unit
Distinct (x ∷ xs) = (contains x xs ≡ false) × Distinct xs

Distinct-insert : (fd : ℤ) (fds : List ℤ) → Distinct fds → Distinct (insert fd fds)
unfolding insert
Distinct-insert fd fds d = elim (Bool-cases (contains fd fds)) [
  | inl there ↦ rw there d
  | inr new ↦ rw new (new, d)
]

Distinct-remove : (fd : ℤ) (fds : List ℤ) → Distinct fds → Distinct (remove fd fds)
unfolding remove
Distinct-remove fd [] d = tt
Distinct-remove fd (x ∷ xs) d = elim (Bool-cases (x == fd)) [
  | inl same ↦ rw same (Distinct-remove fd xs d.1)
  | inr other ↦ rw other (ground (arith, contains-remove fd x xs, d.0), Distinct-remove fd xs d.1)
]

insert_filled : (fd : ℤ) (fds : List ℤ) → is_empty (insert fd fds) ≡ false
unfolding insert contains
insert_filled fd [] = refl
insert_filled fd (x ∷ xs) = ground arith

-- Every set of the index is without repetition and not empty.
pub record IsSets {ℓ} {K : Type ℓ} ⦃e : Eq K⦄ (idx : Map K (List ℤ)) : Type ℓ where
  pub at_key :
      (k : K) (fds : List ℤ) → lookup k idx ≡ some fds → Distinct fds × (is_empty fds ≡ false)

module _ {ℓ} {K : Type ℓ} ⦃e : Eq K⦄ where
  fds_at-Distinct : (k : K) (idx : Map K (List ℤ)) → IsSets idx → Distinct (fds_at (lookup k idx))
  fds_at-Distinct k idx s = elim (Option-cases (lookup k idx)) [
    | inl absent ↦ rw absent tt
    | inr (fds, found) ↦ rw found (s.at_key k fds found).0
  ]

  pub index_insert-IsSets :
      (k : K) (fd : ℤ) (idx : Map K (List ℤ)) → IsSets idx → IsSets (index_insert k fd idx)
  unfolding index_insert
  index_insert-IsSets k fd idx s =
      let fds = insert fd (fds_at (lookup k idx)) in
      let distinct : Distinct fds = Distinct-insert fd _ (fds_at-Distinct k idx s) in
      record {
        at_key = λ j xs h. elim (Bool-cases (k == j)) [
          | inl same ↦
              let eq : fds ≡ xs = ground (arith, lookup-put k j fds idx) in
              (
                subst Distinct eq distinct,
                ground (arith, eq, insert_filled fd (fds_at (lookup k idx))),
              )
          | inr other ↦ s.at_key j xs (ground (arith, lookup-put k j fds idx))
        ];
      }

  remove_lookup :
      (k j : K) (rest : List ℤ) (idx : Map K (List ℤ)) (xs : List ℤ)
      → Distinct rest
      → IsSets idx
      → lookup j (if is_empty rest then erase k (put k rest idx) else put k rest idx) ≡ some xs
      → Distinct xs × (is_empty xs ≡ false)
  remove_lookup k j [] idx xs d s h = elim (Bool-cases (k == j)) [
    | inl same ↦ absurd (ground (arith, lookup-erase k j (put k [] idx)))
    | inr other ↦
        s.at_key j xs (ground (arith, lookup-erase k j (put k [] idx), lookup-put k j [] idx))
  ]
  remove_lookup k j (y ∷ ys) idx xs d s h = elim (Bool-cases (k == j)) [
    | inl same ↦
        let eq : y ∷ ys ≡ xs = ground (arith, lookup-put k j (y ∷ ys) idx) in
        (subst Distinct eq d, ground (arith, eq))
    | inr other ↦ s.at_key j xs (ground (arith, lookup-put k j (y ∷ ys) idx))
  ]

  pub index_remove-IsSets :
      (k : K) (fd : ℤ) (idx : Map K (List ℤ)) → IsSets idx → IsSets (index_remove k fd idx)
  unfolding index_remove
  index_remove-IsSets k fd idx s = elim (Option-cases (lookup k idx)) [
    | inl absent ↦ rw (absent, index_remove) s
    | inr (fds, found) ↦
        rw (found, index_remove)
          (record {
            at_key = λ j xs h.
                remove_lookup k j (remove fd fds) idx xs
                  (Distinct-remove fd fds (s.at_key k fds found).0) s h;
          })
  ]
