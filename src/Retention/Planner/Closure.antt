-- ===== src/Retention/Planner/Closure.antt =====
-- Retaining a restore point retains what it depends on: `RetentionPlanner.plan` closes the set
-- of retained points under the prefixes of the chains.
use vmbackupd.Prelude.{
  ℕ, ◌≤◌, max, ◌≡◌, sym, ap, subst, ◌∙◌, ◌⊎◌, inl, inr, true, some, String, List, [], ◌∷◌, ◌++◌,
  arith, leb, Bool-cases, Option-cases, leb→le, le→leb, ◌∈◌, get_or, filter, mem-filter,
  mem-of_filter, mem-map, mem-of_map, mem-append_cases, mem-append_left, mem-append_right,
}
use vmbackupd.Models.{BackupChain, RestorePoint}
use vmbackupd.Retention.Planner.{
  contains, members_of, ids_of, retained_limit, extend, close_prefixes,
}
use vmbackupd.Retention.Planner.Members.{contains_iff, mem-members_of}

limit-of_retained :
    (retained : List String) (ms : List RestorePoint) (p : RestorePoint)
    → p ∈ ms
    → p.id ∈ retained
    → (l : ℕ) × (retained_limit retained ms ≡ some l) × (p.sequence ≤ l)
unfolding retained_limit
limit-of_retained retained [] p h r = absurd h
limit-of_retained retained (m ∷ ms) p (inl e) r =
    let t : contains retained m.id ≡ true =
      (contains_iff retained m.id).1 (subst (λ z. z.id ∈ retained) e r) in
    (
      max m.sequence (get_or (retained_limit retained ms) m.sequence),
      rw t,
      subst (λ z. z.sequence ≤ max m.sequence (get_or (retained_limit retained ms) m.sequence))
          (sym e) (omega arith),
    )
limit-of_retained retained (m ∷ ms) p (inr h) r =
    let (l, e, b) = limit-of_retained retained ms p h r in
    elim (Bool-cases (contains retained m.id)) [
      | inl t ↦ (max m.sequence l, rw (t, e), omega arith)
      | inr t ↦ (l, rw t e, b)
    ]

pub mem-extend_old :
    (retained : List String) (ms : List RestorePoint) (x : String)
    → x ∈ retained
    → x ∈ extend retained ms
unfolding extend
mem-extend_old retained ms x h = elim (Option-cases (retained_limit retained ms)) [
  | inl e ↦ rw e h
  | inr (l, e) ↦ rw e (mem-append_right x (ids_of (filter (λ p. leb p.sequence l) ms)) retained h)
]

below-limit :
    (retained : List String) (ms : List RestorePoint) (q : RestorePoint) (l : ℕ)
    → retained_limit retained ms ≡ some l
    → q ∈ ms
    → q.sequence ≤ l
    → q.id ∈ extend retained ms
unfolding extend
below-limit retained ms q l e h b = rw e (
    mem-append_left q.id (ids_of (filter (λ p. leb p.sequence l) ms)) retained (
      mem-map (λ p. p.id) q (filter (λ p. leb p.sequence l) ms)
        (mem-filter (λ p. leb p.sequence l) q ms h (le→leb q.sequence l b))))

-- An id that `extend` adds is that of a member below the limit.
mem-of_extend :
    (retained : List String) (ms : List RestorePoint) (x : String)
    → x ∈ extend retained ms
    → (x ∈ retained)
      ⊎ ((m : RestorePoint) × (l : ℕ) × (m ∈ ms)
          × (x ≡ m.id)
          × (retained_limit retained ms ≡ some l)
          × (m.sequence ≤ l))
unfolding extend
mem-of_extend retained ms x h = elim (Option-cases (retained_limit retained ms)) [
  | inl e ↦ inl (rw e at h)
  | inr (l, e) ↦
      let added : List RestorePoint = filter (λ p. leb p.sequence l) ms in
      let h' : x ∈ (ids_of added ++ retained) = rw e at h in
      elim (mem-append_cases x (ids_of added) retained h') [
        | inl k ↦
            let (m, u, q) = mem-of_map (λ (p : RestorePoint). p.id) x added k in
            let (v, t) = mem-of_filter (λ p. leb p.sequence l) m ms u in
            inr (m, l, v, q, e, leb→le m.sequence l t)
        | inr k ↦ inl k
      ]
]

pub mem-close_prefixes :
    (points : List RestorePoint) (cs : List BackupChain) (retained : List String) (x : String)
    → x ∈ retained
    → x ∈ close_prefixes retained points cs
unfolding close_prefixes
mem-close_prefixes points [] retained x h = h
mem-close_prefixes points (c ∷ cs) retained x h =
    mem-close_prefixes points cs (extend retained (members_of points c.id)) x
      (mem-extend_old retained (members_of points c.id) x h)

-- Restore point ids are a primary key.
abbrev pub HaveUniqueIds : List RestorePoint → Type 0
HaveUniqueIds points = (p q : RestorePoint) → p ∈ points → q ∈ points → p.id ≡ q.id → p ≡ q

-- With a member of a chain, the set holds the members before it.
abbrev IsPrefixClosed : List RestorePoint → List String → Type 0
IsPrefixClosed ms retained =
    (p q : RestorePoint)
    → p ∈ ms
    → q ∈ ms
    → q.sequence ≤ p.sequence
    → p.id ∈ retained
    → q.id ∈ retained

module _ (points : List RestorePoint) (unique : HaveUniqueIds points) where
  -- A member of one chain that `extend` has added for another is a member of that other.
  extend-IsPrefixClosed :
      (retained : List String) (c d : String)
      → ((p q : RestorePoint)
          → p ∈ members_of points c
          → q ∈ members_of points c
          → q.sequence ≤ p.sequence
          → p.id ∈ retained
          → q.id ∈ extend retained (members_of points d))
      → IsPrefixClosed (members_of points c) (extend retained (members_of points d))
  extend-IsPrefixClosed retained c d old p q hp hq b r =
      elim (mem-of_extend retained (members_of points d) p.id r) [
        | inl k ↦ old p q hp hq b k
        | inr (m, l, hm, e, lim, le) ↦
            let (p_in, p_c) = (mem-members_of points c p).0 hp in
            let (q_in, q_c) = (mem-members_of points c q).0 hq in
            let (m_in, m_d) = (mem-members_of points d m).0 hm in
            let same : p ≡ m = unique p m p_in m_in e in
            below-limit retained (members_of points d) q l lim
              ((mem-members_of points d q).1
                (q_in, q_c ∙ sym p_c ∙ ap (λ (z : RestorePoint). z.chain_id) same ∙ m_d))
              (omega (arith, ap (λ (z : RestorePoint). z.sequence) same))
      ]

  extend_self :
      (retained : List String) (c : String)
      → IsPrefixClosed (members_of points c) (extend retained (members_of points c))
  extend_self retained c = extend-IsPrefixClosed retained c c λ p q hp hq b r.
      let (l, e, le) = limit-of_retained retained (members_of points c) p hp r in
      below-limit retained (members_of points c) q l e hq (omega arith)

  close_prefixes-keeps :
      (cs : List BackupChain) (retained : List String) (c : String)
      → IsPrefixClosed (members_of points c) retained
      → IsPrefixClosed (members_of points c) (close_prefixes retained points cs)
  unfolding close_prefixes
  close_prefixes-keeps [] retained c h = h
  close_prefixes-keeps (d ∷ cs) retained c h =
      close_prefixes-keeps cs (extend retained (members_of points d.id)) c (
        extend-IsPrefixClosed retained c d.id
          λ p q hp hq b r. mem-extend_old retained (members_of points d.id) q.id (h p q hp hq b r))

  pub close_prefixes-IsPrefixClosed :
      (cs : List BackupChain) (retained : List String) (c : BackupChain)
      → c ∈ cs
      → IsPrefixClosed (members_of points c.id) (close_prefixes retained points cs)
  unfolding close_prefixes
  close_prefixes-IsPrefixClosed [] retained c h = absurd h
  close_prefixes-IsPrefixClosed (d ∷ cs) retained c (inl e) =
      close_prefixes-keeps cs (extend retained (members_of points d.id)) c.id (
        subst
          (λ z. IsPrefixClosed (members_of points c.id) (extend retained (members_of points z.id)))
          e (extend_self retained c.id))
  close_prefixes-IsPrefixClosed (d ∷ cs) retained c (inr h) =
      close_prefixes-IsPrefixClosed cs (extend retained (members_of points d.id)) c h
