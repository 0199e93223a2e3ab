-- ===== src/Capacity/Report.antt =====
-- vmbackupd/capacity.py, `FullChainCapacityCollector.collect`: the whole collection.
use vmbackupd.Prelude.{
  length, length-map, ℕ, ◌≡◌, refl, sym, ap, subst, ◌∙◌, inl, inr, Option, String, List, [], ◌∷◌,
  ◌++◌, map, arith, ◌∈◌, All, mem-All, All-of_mem, Result, ok, mem-append_left, mem-append_right,
}
use vmbackupd.Prelude.Sort.{sort, mem-of_sort, mem-sort, length-sort}
use vmbackupd.Models.{BackupChain, RestorePoint}
use vmbackupd.Retention.{FullChainCapacity}
use vmbackupd.Retention.Planner.{members_of}
use vmbackupd.Capacity.{
  FullChainCapacityCollection, bundles_of, duplicate_bundles, older_chain, fact_of, issues_of,
  size_status, collect_chains, collect,
}
use vmbackupd.Capacity.Collection.{IsSized, IsReported, size_status-IsSized, add_fact-ok}

module _ (inspect : String → Result ℕ) (points : List RestorePoint) where
  abbrev collected : List BackupChain → Result FullChainCapacityCollection
  collected cs = collect_chains inspect (duplicate_bundles (bundles_of points)) points cs

  collected-order :
      (cs : List BackupChain) (col : FullChainCapacityCollection)
      → collected cs ≡ ok col
      → map (λ f. f.chain_id) col.chains ≡ map (λ c. c.id) cs
  unfolding collect_chains
  collected-order [] col h =
      let q : record { chains = []; issues = [] } ≡ col = cc in
      sym (ap (λ z. map (λ f. f.chain_id) z.chains) q)
  collected-order (c ∷ cs) col h =
      let (sized, tail, r, k, e, i) =
        add_fact-ok inspect c
          (size_status inspect c.status (duplicate_bundles (bundles_of points))
            (members_of points c.id))
          (collected cs) col h in
      ap (map (λ f. f.chain_id)) e ∙ ap (λ l. c.id ∷ l) (collected-order cs tail k)

  widen :
      (col tail : FullChainCapacityCollection) (c d : BackupChain) (bytes : Option ℕ)
      (problem : Option String)
      → col.chains ≡ fact_of c bytes ∷ tail.chains
      → col.issues ≡ issues_of c problem ++ tail.issues
      → IsReported inspect points tail d
      → IsReported inspect points col d
  widen col tail c d bytes problem e i (b, p, m, a, s) = (
    b,
    p,
    subst (λ l. fact_of d b ∈ l) (sym e) (inr m),
    All-of_mem (λ j. j ∈ col.issues) (issues_of d p)
        (λ j n.
          subst (λ l. j ∈ l) (sym i)
            (mem-append_right j (issues_of c problem) tail.issues
              (mem-All (λ x. x ∈ tail.issues) j (issues_of d p) a n))),
    s,
  )

  collected-IsReported :
      (cs : List BackupChain) (col : FullChainCapacityCollection)
      → collected cs ≡ ok col
      → All (IsReported inspect points col) cs
  unfolding collect_chains
  collected-IsReported [] col h = tt
  collected-IsReported (c ∷ cs) col h =
      let (sized, tail, r, k, e, i) =
        add_fact-ok inspect c
          (size_status inspect c.status (duplicate_bundles (bundles_of points))
            (members_of points c.id))
          (collected cs) col h in
      (
        (
          sized.0,
          sized.1,
          subst (λ l. fact_of c sized.0 ∈ l) (sym e) (inl refl),
          All-of_mem (λ j. j ∈ col.issues) (issues_of c sized.1)
              (λ j n.
                subst (λ l. j ∈ l) (sym i) (mem-append_left j (issues_of c sized.1) tail.issues n)),
          size_status-IsSized inspect points c c.status sized refl r,
        ),
        All-of_mem (IsReported inspect points col) cs (λ d n.
            widen col tail c d sized.0 sized.1 e i
              (mem-All (IsReported inspect points tail) d cs (collected-IsReported cs tail k) n)),
      )

  -- A fact of the collection is the fact of one of the chains, sized as `IsSized` says.
  abbrev pub IsFact : List BackupChain → FullChainCapacity → Type 0
  IsFact cs f =
      (c : BackupChain) × (bytes : Option ℕ) × (problem : Option String) × (c ∈ cs)
      × (f ≡ fact_of c bytes)
      × IsSized inspect points c bytes problem

  collected-IsFact :
      (cs : List BackupChain) (col : FullChainCapacityCollection)
      → collected cs ≡ ok col
      → (f : FullChainCapacity) → f ∈ col.chains
      → IsFact cs f
  unfolding collect_chains
  collected-IsFact [] col h f m =
      let q : record { chains = []; issues = [] } ≡ col = cc in
      absurd (subst (λ z. f ∈ z.chains) (sym q) m)
  collected-IsFact (c ∷ cs) col h f m =
      let (sized, tail, r, k, e, i) =
        add_fact-ok inspect c
          (size_status inspect c.status (duplicate_bundles (bundles_of points))
            (members_of points c.id))
          (collected cs) col h in
      elim (let m' : f ∈ (fact_of c sized.0 ∷ tail.chains) = subst (λ l. f ∈ l) e m in m') [
        | inl q ↦ (
          c,
          sized.0,
          sized.1,
          inl refl,
          q,
          size_status-IsSized inspect points c c.status sized refl r,
        )
        | inr n ↦ let (d, b, p, w, q, s) = collected-IsFact cs tail k f n in (d, b, p, inr w, q, s)
      ]

  of_collect :
      (chains : List BackupChain) (col : FullChainCapacityCollection)
      → collect inspect chains points ≡ ok col
      → collected (sort older_chain chains) ≡ ok col
  unfolding collect
  of_collect chains col h = ground arith

  -- A collection that is returned has one fact for each chain, the oldest chain first. Each chain
  -- is reported: an ACTIVE one without bytes and without an issue; a CLOSED one without bytes and
  -- with an issue of its own, or with the sum of the inspected bytes of its members, and then it
  -- begins with a full backup, has no gap in its sequences and parents, and every member has a
  -- bundle that no other restore point refers to.
  pub collect-IsReported :
      (chains : List BackupChain) (col : FullChainCapacityCollection)
      → collect inspect chains points ≡ ok col
      → (map (λ f. f.chain_id) col.chains ≡ map (λ c. c.id) (sort older_chain chains))
        × ((c : BackupChain) → c ∈ chains → IsReported inspect points col c)
  collect-IsReported chains col h =
      let k = of_collect chains col h in
      (
        collected-order (sort older_chain chains) col k,
        λ c m.
            mem-All (IsReported inspect points col) c (sort older_chain chains)
              (collected-IsReported (sort older_chain chains) col k)
              (mem-sort older_chain c chains m),
      )

  pub collect-IsFact :
      (chains : List BackupChain) (col : FullChainCapacityCollection)
      → collect inspect chains points ≡ ok col
      → (f : FullChainCapacity) → f ∈ col.chains
      → IsFact chains f
  collect-IsFact chains col h f m =
      let (c, b, p, w, q, s) =
        collected-IsFact (sort older_chain chains) col (of_collect chains col h) f m in
      (c, b, p, mem-of_sort older_chain c chains w, q, s)

  pub collect-length :
      (chains : List BackupChain) (col : FullChainCapacityCollection)
      → collect inspect chains points ≡ ok col
      → length col.chains ≡ length chains
  collect-length chains col h =
      sym (length-map col.chains (λ f. f.chain_id))
      ∙ ap length (collect-IsReported chains col h).0
      ∙ length-map (sort older_chain chains) (λ c. c.id)
      ∙ length-sort older_chain chains
