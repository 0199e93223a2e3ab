-- ===== src/LocalBackup/Kept.antt =====
-- local_backup_v2.py: deleting the chains of other FULLs leaves a FULL restore point as it was.
use vmbackupd.Prelude.{
  ℕ, zero, suc, String, Bool, true, false, not, ◌&&◌, ◌||◌, ◌≡◌, ◌≢◌, refl, sym, ap, subst, ◌∙◌,
  ◌⊎◌, inl, inr, Option, none, some, List, [], ◌∷◌, ◌++◌, map, Bool-cases, both, ◌∈◌, All,
  AreDistinct, All-of_mem, mem-of_map, mem-append_cases, str_eq, eq_iff, filter, mem-of_filter,
  length, find_by-of_distinct, find_by, Result, ok, err,
}
use mathlib.Core.Bool.{false≢true}
use vmbackupd.Prelude.Sort.{sort, mem-of_sort}
use vmbackupd.Models.{full}
use vmbackupd.Compact.{Point, Catalog}
use vmbackupd.Compact.Points.{point_id, find_point}
use vmbackupd.Replica.Executor.{Paths}
use vmbackupd.LocalBackup.Delete.{Entries, Host, delete_restore_point}
use vmbackupd.LocalBackup.Deletion.{IsSpared}
use vmbackupd.LocalBackup.Chain.{
  is_local, is_in, parent_in, children, descendants, chain_is, deepest_first, full_last,
  list_local_restore_points_for_full_chain,
}
use vmbackupd.LocalBackup.Effects.{IsRmtree, delete-IsSpared}
use vmbackupd.LocalBackup.Closed.{mem-of_is_in}
use vmbackupd.LocalBackup.Retention.{
  and_go_on, delete_points, delete_members, delete_chain, delete_chains, is_enough, reclaim_chains,
}

-- A restore point that has no parent and another id than the FULL is not below it.
mem-of_descendants :
    (fuel : ℕ) (rows : List Point) (ids : List String) (id : String)
    → id ∈ descendants fuel rows ids
    → (id ∈ ids)
      ⊎ ((p : Point) × (parent : String) × (p ∈ rows)
          × (p.id ≡ id)
          × (p.parent_restore_point_id ≡ some parent))
unfolding descendants children
mem-of_descendants zero rows ids id m = inl m
mem-of_descendants (suc fuel) rows ids id m =
    let test : Point → Bool =
      λ p. parent_in ids p.parent_restore_point_id && not (is_in ids p.id) in
    let new = filter test rows in
    elim (mem-of_descendants fuel rows (map (λ p. p.id) new ++ ids) id m) [
      | inr w ↦ inr w
      | inl w ↦ elim (mem-append_cases id (map (λ p. p.id) new) ids w) [
        | inr k ↦ inl k
        | inl k ↦
            let (p, n, e) = mem-of_map (λ p. p.id) id new k in
            let (r, t) = mem-of_filter test p rows n in
            let (h, _) = both (parent_in ids p.parent_restore_point_id) (not (is_in ids p.id)) t in
            let (parent, q) = has_parent p.parent_restore_point_id h in inr (p, parent, r, sym e, q)
      ]
    ]
  where
    has_parent :
        (o : Option String) → parent_in ids o ≡ true → (parent : String) × (o ≡ some parent)
    has_parent none h = cc
    has_parent (some parent) h = (parent, refl)

-- The chains of a catalogue are apart: ids are distinct, and a FULL has no parent.
pub record IsApart (db : Catalog) : Type 0 where
  pub ids : AreDistinct (map point_id db.points)
  pub roots : (p : Point) → p ∈ db.points → p.kind ≡ full → p.parent_restore_point_id ≡ none

module _ (db₀ : Catalog) (apart : IsApart db₀) (f : Point) (listed : f ∈ db₀.points)
    (root : f.kind ≡ full) where
  same_row : (p : Point) → p ∈ db₀.points → p.id ≡ f.id → p ≡ f
  same_row p m e =
      let a = find_by-of_distinct point_id db₀.points p apart.ids m in
      let b = find_by-of_distinct point_id db₀.points f apart.ids listed in
      let c : some p ≡ some f = sym a ∙ ap (λ z. find_by point_id db₀.points z) e ∙ b in cc

  -- A later catalogue, in which the FULL stands as it was.
  pub record IsKept (db : Catalog) : Type 0 where
    pub rows : (p : Point) → p ∈ db.points → p ∈ db₀.points
    pub same : find_point db f.id ≡ find_point db₀ f.id

  spared-IsKept :
      (id : String) (db db' : Catalog) → id ≢ f.id → IsKept db → IsSpared id db db' → IsKept db'
  spared-IsKept id db db' n k s = record {
    rows = λ p m. k.rows p (s.listed p m);
    same = s.others f.id other ∙ k.same;
  }
    where
      other : str_eq f.id id ≡ false
      other = elim (Bool-cases (str_eq f.id id)) [
        | inr e ↦ e
        | inl e ↦ absurd (n (sym ((eq_iff f.id id).0 e)))
      ]

  -- The FULL is in no chain list but its own.
  other_chain :
      (db : Catalog) (job_id storage_id full_id chain_id : String) (p : Point)
      → IsKept db
      → full_id ≢ f.id
      → chain_is chain_id f.chain_id ≡ false
      → p ∈ list_local_restore_points_for_full_chain db job_id storage_id full_id chain_id
      → p.id ≢ f.id
  unfolding list_local_restore_points_for_full_chain
  other_chain db job_id storage_id full_id chain_id p k n apart_chain m e =
      let rows = filter (is_local db job_id storage_id) db.points in
      let ids = descendants (length rows) rows (full_id ∷ []) in
      let test : Point → Bool = λ q. is_in ids q.id || chain_is chain_id q.chain_id in
      let picked = filter test rows in
      let (row, t) = mem-of_filter test p rows (
        mem-of_sort (deepest_first full_id) p picked
          (mem-of_sort (full_last full_id) p (sort (deepest_first full_id) picked) m)) in
      let is_f : (q : Point) → q ∈ rows → q.id ≡ f.id → q ≡ f = λ q w i.
        same_row q (k.rows q (mem-of_filter (is_local db job_id storage_id) q db.points w).0) i in
      elim (Bool-cases (is_in ids p.id)) [
        | inr o ↦
            let c : chain_is chain_id p.chain_id ≡ true = rw o at t in
            false≢true
              (sym apart_chain ∙ subst (λ z. chain_is chain_id z.chain_id ≡ true) (is_f p row e) c)
        | inl i ↦
            elim (mem-of_descendants (length rows) rows (full_id ∷ []) p.id
              (mem-of_is_in ids p.id i)) [
                | inl (inl w) ↦ n (sym w ∙ e)
                | inl (inr w) ↦ w
                | inr (q, parent, w, same, has) ↦
                    let r : q ≡ f = is_f q w (same ∙ e) in
                    let h : none ≡ some parent =
                      sym (apart.roots f listed root)
                      ∙ ap (λ z. z.parent_restore_point_id) (sym r)
                      ∙ has in
                    cc
              ]
      ]

  chain_other :
      (chain_id : String) (o : Option String) → (some chain_id ≢ o) → chain_is chain_id o ≡ false
  chain_other chain_id none n = refl
  chain_other chain_id (some c) n = elim (Bool-cases (str_eq c chain_id)) [
    | inr e ↦ e
    | inl e ↦ absurd (n (ap some (sym ((eq_iff c chain_id).0 e))))
  ]

  module _ (paths : Paths) (resolve : String → String)
      (rmtree : String → Entries → Result (Unit {0}) × Entries) (is_rmtree : IsRmtree paths rmtree)
      (stamp : ℕ) where
    go_on-IsKept :
        {A B : Type 0} (r : Result A × Host) (next : Host → Result B × Host)
        → IsKept r.1.db
        → ((h : Host) → IsKept h.db → IsKept (next h).1.db)
        → IsKept (and_go_on r next).1.db
    go_on-IsKept (err e, host) next k g = k
    go_on-IsKept (ok a, host) next k g = g host k

    points-IsKept :
        (ps : List Point) (host : Host)
        → All (λ p. p.id ≢ f.id) ps
        → IsKept host.db
        → IsKept (delete_points paths resolve rmtree stamp ps host).1.db
    unfolding delete_points
    points-IsKept [] host a k = k
    points-IsKept (p ∷ ps) host a k =
        go_on-IsKept (delete_restore_point paths resolve rmtree p.id none stamp host)
          (delete_points paths resolve rmtree stamp ps)
          (spared-IsKept p.id host.db _ a.0 k
            (delete-IsSpared paths resolve rmtree is_rmtree p.id none stamp host))
          (λ h. points-IsKept ps h a.1)

    chain-IsKept :
        (job_id storage_id : String) (c : Point) (host : Host)
        → c.id ≢ f.id
        → c.chain_id ≢ f.chain_id
        → IsKept host.db
        → IsKept (delete_chain paths resolve rmtree stamp job_id storage_id c host).1.db
    unfolding delete_chain
    chain-IsKept job_id storage_id c host n m k = members c.chain_id m
      where
        alone : IsKept (delete_points paths resolve rmtree stamp (c ∷ []) host).1.db
        alone = points-IsKept (c ∷ []) host (n, tt) k

        members :
            (o : Option String)
            → o ≢ f.chain_id
            → IsKept (delete_members paths resolve rmtree stamp job_id storage_id c o host).1.db
        members none m = alone
        members (some chain_id) m = elim (Bool-cases (str_eq chain_id "")) [
          | inl e ↦ rw e alone
          | inr e ↦
              let chosen =
                list_local_restore_points_for_full_chain host.db job_id storage_id c.id chain_id in
              rw e (
                points-IsKept chosen host
                  (All-of_mem (λ p. p.id ≢ f.id) chosen
                    (λ p w.
                      other_chain host.db job_id storage_id c.id chain_id p k n
                        (chain_other chain_id f.chain_id m) w))
                  k)
        ]

    -- Another FULL, with a chain of its own.
    abbrev pub IsOther : Point → Type 0
    IsOther c = (c ∈ db₀.points) × (c.chain_id ≢ f.chain_id)

    other-id : (c : Point) → IsOther c → c.id ≢ f.id
    other-id c o e = o.1 (ap (λ z. z.chain_id) (same_row c o.0 e))

    pub chains-IsKept :
        (job_id storage_id : String) (cs : List Point) (host : Host)
        → All IsOther cs
        → IsKept host.db
        → IsKept (delete_chains paths resolve rmtree stamp job_id storage_id cs host).1.db
    unfolding delete_chains
    chains-IsKept job_id storage_id [] host a k = k
    chains-IsKept job_id storage_id (c ∷ cs) host a k =
        go_on-IsKept (delete_chain paths resolve rmtree stamp job_id storage_id c host)
          (delete_chains paths resolve rmtree stamp job_id storage_id cs)
          (chain-IsKept job_id storage_id c host (other-id c a.0) a.0.1 k)
          (λ h. chains-IsKept job_id storage_id cs h a.1)

    module _ (free_space : Entries → ℕ) (required_bytes reserve_bytes : ℕ) where
      pub reclaimed-IsKept :
          (job_id storage_id : String) (cs : List Point) (free_bytes : ℕ) (host : Host)
          → All IsOther cs
          → IsKept host.db
          → IsKept
              (reclaim_chains paths resolve rmtree stamp free_space required_bytes reserve_bytes
                job_id storage_id cs free_bytes host).1.db
      unfolding reclaim_chains
      reclaimed-IsKept job_id storage_id [] free_bytes host a k = k
      reclaimed-IsKept job_id storage_id (c ∷ cs) free_bytes host a k =
          go_on-IsKept (delete_chain paths resolve rmtree stamp job_id storage_id c host) _
            (chain-IsKept job_id storage_id c host (other-id c a.0) a.0.1 k)
            (λ h w.
              elim (Bool-cases (
                is_enough paths resolve rmtree stamp free_space required_bytes reserve_bytes
                  (free_space h.entries))) [
                    | inl e ↦ rw e w
                    | inr e ↦
                        rw e (reclaimed-IsKept job_id storage_id cs (free_space h.entries) h a.1 w)
                  ])
