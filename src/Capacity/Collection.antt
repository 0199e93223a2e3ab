-- ===== src/Capacity/Collection.antt =====
-- vmbackupd/capacity.py, `FullChainCapacityCollector.collect`: what a collection says of each chain.
use vmbackupd.Prelude.{
  ℕ, ◌≤◌, ◌≡◌, refl, sym, ap, subst, ◌⊎◌, inl, inr, true, false, not, ◌||◌, Option, some, none,
  String, List, [], ◌∷◌, ◌++◌, arith, ◌==◌, Bool-cases, length, ◌∈◌, All, filter, any, str_eq,
  eq_iff, Result, ok, err, value_error, key_error, runtime_error, domain_invariant_error,
  capacity_planning_error, invalid_transition, bundle_inspection_error, type_error,
  backup_catalog_error, integrity_error,
}
use vmbackupd.Models.{
  BackupChain, BackupChainStatus, active, closed, RestorePoint, BackupKind, full, is_full,
}
use vmbackupd.Retention.Planner.{members_of, are_contiguous, parents_link, optional_eq, contains}
use vmbackupd.Capacity.{
  FullChainCapacityCollection, bundles_of, duplicate_bundles, bundle_problem, member_problem,
  closed_chain_problem, fact_of, issues_of, sum_bytes, caught, size_members, size_status, add_fact,
}

-- How many of the texts are this one.
abbrev pub count : String → List String → ℕ
count b bs = length (filter (str_eq b) bs)

count-none : (b : String) (bs : List String) → contains bs b ≡ false → count b bs ≡ 0
unfolding contains any filter
count-none b [] h = refl
count-none b (x ∷ xs) h = elim (Bool-cases (str_eq b x)) [
  | inl e ↦ let h' : true ≡ false = rw e at h in cc
  | inr n ↦ rw n (count-none b xs (rw n at h))
]

once : (b : String) (bs : List String) → contains (duplicate_bundles bs) b ≡ false → count b bs ≤ 1
unfolding contains any filter duplicate_bundles
once b [] h = omega arith
once b (x ∷ xs) h = elim (Bool-cases (contains xs x)) [
  | inl t ↦
      let h' : contains (x ∷ duplicate_bundles xs) b ≡ false = rw t at h in
      elim (Bool-cases (str_eq b x)) [
        | inl e ↦ let k : true ≡ false = rw e at h' in cc
        | inr n ↦ rw n (once b xs (rw n at h'))
      ]
  | inr f ↦
      let h' : contains (duplicate_bundles xs) b ≡ false = rw f at h in
      elim (Bool-cases (str_eq b x)) [
        | inl e ↦
            let unused : count b xs ≡ 0 =
              count-none b xs (subst (λ z. contains xs z ≡ false) (sym ((eq_iff b x).0 e)) f) in
            rw e (omega (arith, unused))
        | inr n ↦ rw n (once b xs h')
      ]
]

-- The bundle of a point, which no other reference shares.
abbrev pub OwnsBundle : List RestorePoint → RestorePoint → Type 0
OwnsBundle points p =
    (b : String) × (p.bundle_object_id ≡ some b) × (count b (bundles_of points) ≤ 1)

-- A chain that can be sized: it begins with a full backup, its sequences and parents are without a
-- gap, and each of its members has a bundle of its own.
abbrev pub IsSound : List RestorePoint → List RestorePoint → Type 0
IsSound points [] = ⊥
IsSound points (p ∷ ps) =
    (p.kind ≡ full)
    × (are_contiguous 0 (p ∷ ps) ≡ true)
    × (parents_link none (p ∷ ps) ≡ true)
    × All (OwnsBundle points) (p ∷ ps)

member_problem-none :
    (points : List RestorePoint) (expected : Option String) (ms : List RestorePoint)
    → member_problem (duplicate_bundles (bundles_of points)) expected ms ≡ none
    → (parents_link expected ms ≡ true) × All (OwnsBundle points) ms
unfolding member_problem parents_link
member_problem-none points expected [] h = (refl, tt)
member_problem-none points expected (p ∷ ps) h =
    let duplicates = duplicate_bundles (bundles_of points) in
    elim (Bool-cases (optional_eq p.parent_restore_point_id expected)) [
      | inr n ↦
          let h' : some "closed chain restore point dependency is invalid" ≡ none = rw n at h in cc
      | inl e ↦
          let h' : bundle_problem duplicates p.bundle_object_id
                (member_problem duplicates (some p.id) ps)
              ≡ none =
            rw e at h in
          let (b, q, u, r) =
            owned p.bundle_object_id (member_problem duplicates (some p.id) ps) h' in
          let (links, own) = member_problem-none points (some p.id) ps r in
          (rw e links, ((b, q, once b (bundles_of points) u), own))
    ]
  where
    owned :
        (o : Option String) (rest : Option String)
        → bundle_problem (duplicate_bundles (bundles_of points)) o rest ≡ none
        → (b : String) × (o ≡ some b)
          × (contains (duplicate_bundles (bundles_of points)) b ≡ false)
          × (rest ≡ none)
    owned none rest k = cc
    owned (some b) rest k = elim (Bool-cases (contains (duplicate_bundles (bundles_of points)) b)) [
      | inl t ↦ let k' : some "published bundle identity is reused" ≡ none = rw t at k in cc
      | inr f ↦ (b, refl, f, rw f at k)
    ]

closed_chain_problem-none :
    (points ms : List RestorePoint)
    → closed_chain_problem (duplicate_bundles (bundles_of points)) ms ≡ none
    → IsSound points ms
unfolding closed_chain_problem
closed_chain_problem-none points [] h = cc
closed_chain_problem-none points (p ∷ ps) h =
    elim (Bool-cases (not (is_full p.kind) || not (p.sequence == 0))) [
      | inl t ↦
          let h' : some "closed chain does not start with FULL sequence 0" ≡ none = rw t at h in cc
      | inr f ↦ elim (Bool-cases (are_contiguous 0 (p ∷ ps))) [
        | inr n ↦
            let h' : some "closed chain restore point sequence is not contiguous" ≡ none =
              rw (f, n) at h in
            cc
        | inl c ↦
            let (links, own) = member_problem-none points none (p ∷ ps) (rw (f, c) at h) in
            (is_full-eq p.kind (ground arith), c, links, own)
      ]
    ]
  where
    is_full-eq : (k : BackupKind) → is_full k ≡ true → k ≡ full
    is_full-eq BackupKind.full e = refl
    is_full-eq BackupKind.incremental e = cc

module _ (inspect : String → Result ℕ) where
  caught-cases :
      (r : Result ℕ) (sized : Option ℕ × Option String)
      → caught inspect r ≡ ok sized
      → ((reason : String) × (sized ≡ (none, some reason)))
        ⊎ ((n : ℕ) × (r ≡ ok n) × (sized ≡ (some n, none)))
  caught-cases (ok n) sized h = inr (n, refl, cc)
  caught-cases (err (bundle_inspection_error text)) sized h = inl (text, cc)
  caught-cases (err (value_error text)) sized h = cc
  caught-cases (err (key_error text)) sized h = cc
  caught-cases (err (runtime_error text)) sized h = cc
  caught-cases (err (domain_invariant_error text)) sized h = cc
  caught-cases (err (capacity_planning_error text)) sized h = cc
  caught-cases (err (invalid_transition text)) sized h = cc
  caught-cases (err (type_error text)) sized h = cc
  caught-cases (err (backup_catalog_error code text)) sized h = cc
  caught-cases (err (integrity_error text)) sized h = cc

  -- What the status and the members of a chain make of its bytes and its problem.
  abbrev pub IsSized : List RestorePoint → BackupChain → Option ℕ → Option String → Type 0
  IsSized points c bytes problem =
      ((c.status ≡ active) × (bytes ≡ none) × (problem ≡ none))
      ⊎ ((c.status ≡ closed)
          × (((reason : String) × (bytes ≡ none) × (problem ≡ some reason))
              ⊎ ((n : ℕ) × (bytes ≡ some n)
                  × (problem ≡ none)
                  × IsSound points (members_of points c.id)
                  × (sum_bytes inspect (members_of points c.id) ≡ ok n))))

  sized-closed :
      (points ms : List RestorePoint) (o : Option String) (sized : Option ℕ × Option String)
      → closed_chain_problem (duplicate_bundles (bundles_of points)) ms ≡ o
      → size_members inspect o ms ≡ ok sized
      → ((reason : String) × (sized.0 ≡ none) × (sized.1 ≡ some reason))
        ⊎ ((n : ℕ) × (sized.0 ≡ some n)
            × (sized.1 ≡ none)
            × IsSound points ms
            × (sum_bytes inspect ms ≡ ok n))
  sized-closed points ms (some reason) sized e h =
      let q : (none, some reason) ≡ sized = cc in
      inl (reason, sym (ap (λ z. z.0) q), sym (ap (λ z. z.1) q))
  sized-closed points ms none sized e h = elim (caught-cases (sum_bytes inspect ms) sized h) [
    | inl (reason, q) ↦ inl (reason, ap (λ z. z.0) q, ap (λ z. z.1) q)
    | inr (n, r, q) ↦
        inr (n, ap (λ z. z.0) q, ap (λ z. z.1) q, closed_chain_problem-none points ms e, r)
  ]

  pub size_status-IsSized :
      (points : List RestorePoint) (c : BackupChain) (st : BackupChainStatus)
      (sized : Option ℕ × Option String)
      → c.status ≡ st
      → size_status inspect st (duplicate_bundles (bundles_of points)) (members_of points c.id)
        ≡ ok sized
      → IsSized points c sized.0 sized.1
  size_status-IsSized points c active sized e h =
      let q : (none, none) ≡ sized = cc in inl (e, sym (ap (λ z. z.0) q), sym (ap (λ z. z.1) q))
  size_status-IsSized points c closed sized e h =
      inr (e, sized-closed points (members_of points c.id) _ sized refl h)

  pub add_fact-ok :
      (c : BackupChain) (r : Result (Option ℕ × Option String))
      (rest : Result FullChainCapacityCollection) (col : FullChainCapacityCollection)
      → add_fact inspect c r rest ≡ ok col
      → (sized : Option ℕ × Option String) × (tail : FullChainCapacityCollection) × (r ≡ ok sized)
        × (rest ≡ ok tail)
        × (col.chains ≡ fact_of c sized.0 ∷ tail.chains)
        × (col.issues ≡ issues_of c sized.1 ++ tail.issues)
  add_fact-ok c (err e) rest col h = cc
  add_fact-ok c (ok sized) (err e) col h = cc
  add_fact-ok c (ok sized) (ok tail) col h =
      let q : record {
        chains = fact_of c sized.0 ∷ tail.chains;
        issues = issues_of c sized.1 ++ tail.issues;
      }
          ≡ col =
        cc in
      (sized, tail, refl, refl, sym (ap (λ z. z.chains) q), sym (ap (λ z. z.issues) q))

  -- What a collection says of a chain: its fact, and an issue if the chain is closed and not sized.
  abbrev pub IsReported : List RestorePoint → FullChainCapacityCollection → BackupChain → Type 0
  IsReported points col c =
      (bytes : Option ℕ) × (problem : Option String) × (fact_of c bytes ∈ col.chains)
      × All (λ i. i ∈ col.issues) (issues_of c problem)
      × IsSized points c bytes problem
