-- ===== src/LocalBackup/Closed.antt =====
-- repository_v2.py, `list_local_restore_points_for_full_chain`: the list is the whole of a FULL's chain.
use vmbackupd.Prelude.{
  ℕ, zero, suc, ◌≤◌, ◌<◌, String, Bool, true, false, not, ◌&&◌, ◌||◌, ◌≡◌, refl, sym, subst, ◌⊎◌,
  inl, inr, some, List, [], ◌∷◌, ◌++◌, map, arith, Bool-cases, both, ◌∈◌, mem-append_left,
  mem-append_right, mem-map, str_eq, eq_iff, filter, mem-filter, mem-of_filter, any-of_mem,
  mem-of_any, length,
}
use vmbackupd.Prelude.Sort.{sort, mem-sort, mem-of_sort, IsSorted, IsOrder, sort-IsSorted}
use vmbackupd.Compact.{Point, Catalog}
use vmbackupd.LocalBackup.Chain.{
  is_local, is_in, parent_in, children, descendants, chain_is, deepest_first, full_last,
  list_local_restore_points_for_full_chain,
}

-- A restore point whose parents lead to the FULL.
pub data IsDescendant (full_id : String) (rows : List Point) : Point → Type 0 where
  itself : {p : Point} → p ∈ rows → p.id ≡ full_id → IsDescendant full_id rows p
  child :
      {p q : Point}
      → p ∈ rows
      → IsDescendant full_id rows q
      → p.parent_restore_point_id ≡ some q.id
      → IsDescendant full_id rows p

is_in-of_mem : (ids : List String) (id : String) → id ∈ ids → is_in ids id ≡ true
is_in-of_mem ids id m = any-of_mem (str_eq id) id ids m ((eq_iff id id).1 refl)

pub mem-of_is_in : (ids : List String) (id : String) → is_in ids id ≡ true → id ∈ ids
mem-of_is_in ids id h =
    let (x, m, e) = mem-of_any (str_eq id) ids h in subst (λ z. z ∈ ids) (sym ((eq_iff id x).0 e)) m

-- Fewer elements pass a stronger test.
module _ {A : Type 0} (p q : A → Bool) (stronger : (x : A) → q x ≡ true → p x ≡ true) where
  length-filter-le : (xs : List A) → length (filter q xs) ≤ length (filter p xs)
  unfolding filter
  length-filter-le [] = omega arith
  length-filter-le (x ∷ xs) = elim (Bool-cases (q x)) [
    | inl e ↦ rw (e, stronger x e) (omega (arith, length-filter-le xs))
    | inr e ↦ elim (Bool-cases (p x)) [
      | inl f ↦ rw (e, f) (omega (arith, length-filter-le xs))
      | inr f ↦ rw (e, f) (length-filter-le xs)
    ]
  ]

  length-filter-lt :
      (xs : List A) (x : A)
      → x ∈ xs
      → p x ≡ true
      → q x ≡ false
      → length (filter q xs) < length (filter p xs)
  unfolding filter
  length-filter-lt [] x m h n = absurd m
  length-filter-lt (y ∷ ys) x (inl e) h n =
      rw (subst (λ z. q z ≡ false) e n, subst (λ z. p z ≡ true) e h)
        (omega (arith, length-filter-le ys))
  length-filter-lt (y ∷ ys) x (inr m) h n = elim (Bool-cases (q y)) [
    | inl e ↦ rw (e, stronger y e) (omega (arith, length-filter-lt ys x m h n))
    | inr e ↦ elim (Bool-cases (p y)) [
      | inl f ↦ rw (e, f) (omega (arith, length-filter-lt ys x m h n))
      | inr f ↦ rw (e, f) (length-filter-lt ys x m h n)
    ]
  ]

module _ (rows : List Point) where
  abbrev IsClosed : List String → Type 0
  IsClosed ids =
      (p : Point) → p ∈ rows → parent_in ids p.parent_restore_point_id ≡ true → p.id ∈ ids

  abbrev is_outside : List String → Point → Bool
  is_outside ids p = not (is_in ids p.id)

  children_cases : (ps : List Point) → (ps ≡ []) ⊎ ((p : Point) × (p ∈ ps))
  children_cases [] = inl refl
  children_cases (p ∷ ps) = inr (p, inl refl)

  -- A round that adds nothing was the last.
  descendants-closed :
      (fuel : ℕ) (ids : List String) → children rows ids ≡ [] → descendants fuel rows ids ≡ ids
  unfolding descendants
  descendants-closed zero ids e = refl
  descendants-closed (suc fuel) ids e = rw e (descendants-closed fuel ids e)

  no_children-IsClosed : (ids : List String) → children rows ids ≡ [] → IsClosed ids
  unfolding children
  no_children-IsClosed ids e p m h = elim (Bool-cases (is_in ids p.id)) [
    | inl t ↦ mem-of_is_in ids p.id t
    | inr n ↦ absurd (
        subst (λ l. p ∈ l) e
          (mem-filter (λ q. parent_in ids q.parent_restore_point_id && not (is_in ids q.id)) p rows
            m (rw (h, n))))
  ]

  abbrev grown : List String → List String
  grown ids = map (λ p. p.id) (children rows ids) ++ ids

  kept-grown : (ids : List String) (id : String) → id ∈ ids → id ∈ grown ids
  kept-grown ids id m = mem-append_right id (map (λ p. p.id) (children rows ids)) ids m

  fewer_outside :
      (ids : List String) (p : Point)
      → p ∈ children rows ids
      → length (filter (is_outside (grown ids)) rows) < length (filter (is_outside ids) rows)
  unfolding children
  fewer_outside ids p m =
      let test : Point → Bool =
        λ q. parent_in ids q.parent_restore_point_id && not (is_in ids q.id) in
      let (k, t) = mem-of_filter test p rows m in
      let (_, n) = both (parent_in ids p.parent_restore_point_id) (not (is_in ids p.id)) t in
      let inside : is_in (grown ids) p.id ≡ true = is_in-of_mem (grown ids) p.id (
        mem-append_left p.id (map (λ q. q.id) (children rows ids)) ids
          (mem-map (λ q. q.id) p (children rows ids) m)) in
      length-filter-lt (is_outside ids) (is_outside (grown ids)) stronger rows p k n (rw inside)
    where
      stronger : (x : Point) → is_outside (grown ids) x ≡ true → is_outside ids x ≡ true
      stronger x h = elim (Bool-cases (is_in ids x.id)) [
        | inr n ↦ rw n
        | inl t ↦
            let u : is_in (grown ids) x.id ≡ true =
              is_in-of_mem (grown ids) x.id (kept-grown ids x.id (mem-of_is_in ids x.id t)) in
            let h' : false ≡ true = rw u at h in cc
      ]

  none_outside : (ids : List String) → length (filter (is_outside ids) rows) ≤ 0 → IsClosed ids
  none_outside ids le p m h = elim (Bool-cases (is_in ids p.id)) [
    | inl t ↦ mem-of_is_in ids p.id t
    | inr n ↦
        absurd
          (empty (filter (is_outside ids) rows) le (mem-filter (is_outside ids) p rows m (rw n)))
  ]
    where
      empty : (ps : List Point) → length ps ≤ 0 → p ∈ ps → ⊥
      empty [] le m = m
      empty (q ∷ qs) le m = omega arith

  -- A round for each row is enough.
  descendants-IsClosed :
      (fuel : ℕ) (ids : List String)
      → length (filter (is_outside ids) rows) ≤ fuel
      → IsClosed (descendants fuel rows ids)
  unfolding descendants
  descendants-IsClosed zero ids le = none_outside ids le
  descendants-IsClosed (suc fuel) ids le = elim (children_cases (children rows ids)) [
    | inl e ↦ rw (e, descendants-closed fuel ids e) (no_children-IsClosed ids e)
    | inr (p, m) ↦ descendants-IsClosed fuel (grown ids) (omega (arith, fewer_outside ids p m, le))
  ]

  kept-descendants :
      (fuel : ℕ) (ids : List String) (id : String) → id ∈ ids → id ∈ descendants fuel rows ids
  unfolding descendants
  kept-descendants zero ids id m = m
  kept-descendants (suc fuel) ids id m = kept-descendants fuel (grown ids) id (kept-grown ids id m)

  length-filter-le_length :
      (test : Point → Bool) (ps : List Point) → length (filter test ps) ≤ length ps
  unfolding filter
  length-filter-le_length test [] = omega arith
  length-filter-le_length test (p ∷ ps) = elim (Bool-cases (test p)) [
    | inl e ↦ rw e (omega (arith, length-filter-le_length test ps))
    | inr e ↦ rw e (omega (arith, length-filter-le_length test ps))
  ]

  mem-descendants :
      (full_id : String) (p : Point)
      → IsDescendant full_id rows p
      → p.id ∈ descendants (length rows) rows (full_id ∷ [])
  mem-descendants full_id p (itself m e) =
      kept-descendants (length rows) (full_id ∷ []) p.id (inl e)
  mem-descendants full_id p (child {q = q} m d e) =
      let ids = descendants (length rows) rows (full_id ∷ []) in
      let parent : parent_in ids p.parent_restore_point_id ≡ true =
        subst (λ o. parent_in ids o ≡ true) (sym e)
          (is_in-of_mem ids q.id (mem-descendants full_id q d)) in
      descendants-IsClosed (length rows) (full_id ∷ [])
        (length-filter-le_length (is_outside (full_id ∷ [])) rows) p m parent

full_last-IsOrder : (full_id : String) → IsOrder (full_last full_id)
full_last-IsOrder full_id = record {
  total = λ x y. ground arith;
  trans = λ x y z h k. ground arith;
}

-- The restore points that are deleted with a FULL are local ones of the job on the storage, and
-- every one of those from which parents lead to the FULL is among them, whatever chain id has been
-- written for it; no other one stands behind the FULL, so that it is deleted after all of them.
pub list_local_restore_points_for_full_chain-IsClosed :
    (db : Catalog) (job_id storage_id full_id chain_id : String) (p : Point)
    → let chosen = list_local_restore_points_for_full_chain db job_id storage_id full_id chain_id in
      (p ∈ chosen → (p ∈ db.points) × (is_local db job_id storage_id p ≡ true))
      × (IsDescendant full_id (filter (is_local db job_id storage_id) db.points) p → p ∈ chosen)
      × IsSorted (full_last full_id) chosen
unfolding list_local_restore_points_for_full_chain
list_local_restore_points_for_full_chain-IsClosed db job_id storage_id full_id chain_id p =
    let rows = filter (is_local db job_id storage_id) db.points in
    let ids = descendants (length rows) rows (full_id ∷ []) in
    let test : Point → Bool = λ q. is_in ids q.id || chain_is chain_id q.chain_id in
    let picked = filter test rows in
    let deepest = sort (deepest_first full_id) picked in
    (
      λ m.
          mem-of_filter (is_local db job_id storage_id) p db.points
            (mem-of_filter test p rows (
              mem-of_sort (deepest_first full_id) p picked
                (mem-of_sort (full_last full_id) p deepest m))).0,
      λ d. mem-sort (full_last full_id) p deepest (
          mem-sort (deepest_first full_id) p picked (
            mem-filter test p rows (row_of p d)
              (rw (is_in-of_mem ids p.id (mem-descendants rows full_id p d))))),
      sort-IsSorted (full_last-IsOrder full_id) deepest,
    )
  where
    row_of :
        (p : Point)
        → IsDescendant full_id (filter (is_local db job_id storage_id) db.points) p
        → p ∈ filter (is_local db job_id storage_id) db.points
    row_of p (itself m e) = m
    row_of p (child m d e) = m
