-- ===== src/Retention/Planner/Members.antt =====
-- Membership in the lists that `RetentionPlanner.plan` builds from the restore points.
use vmbackupd.Prelude.{
  ◌≡◌, ◌↔◌, refl, sym, subst, inl, inr, Bool, true, String, List, [], ◌∷◌, Bool-cases, ◌∈◌, str_eq,
  eq_iff, filter, any-of_mem, mem-of_any, mem-filter, mem-of_filter, mem-map, mem-of_map,
  mem-append_cases, mem-append_left, mem-append_right,
}
use vmbackupd.Prelude.Sort.{mem-sort, mem-of_sort}
use vmbackupd.Models.{BackupChain, active, RestorePoint, is_active}
use vmbackupd.Retention.Planner.{
  contains, members_of, sequence_le, ids_of, members_retained, active_retained,
}

pub contains_iff : (ids : List String) (x : String) → (contains ids x ≡ true) ↔ (x ∈ ids)
unfolding contains
contains_iff ids x = (
  λ h.
      let (y, m, t) = mem-of_any (str_eq x) ids h in
      subst (λ z. z ∈ ids) (sym ((eq_iff x y).0 t)) m,
  λ m. any-of_mem (str_eq x) x ids m ((eq_iff x x).1 refl),
)

pub mem-members_of :
    (points : List RestorePoint) (chain_id : String) (p : RestorePoint)
    → (p ∈ members_of points chain_id) ↔ ((p ∈ points) × (p.chain_id ≡ chain_id))
unfolding members_of
mem-members_of points chain_id p =
    let test : RestorePoint → Bool = λ q. str_eq q.chain_id chain_id in
    (
      λ m.
          let (k, t) =
            mem-of_filter test p points (mem-of_sort sequence_le p (filter test points) m) in
          (k, (eq_iff p.chain_id chain_id).0 t),
      λ h.
          mem-sort sequence_le p (filter test points)
            (mem-filter test p points h.0 ((eq_iff p.chain_id chain_id).1 h.1)),
    )

-- What `members_retained` collects are the ids of the members of its chains.
pub mem-members_retained :
    (points : List RestorePoint) (cs : List BackupChain) (c : BackupChain) (p : RestorePoint)
    → c ∈ cs
    → p ∈ members_of points c.id
    → p.id ∈ members_retained points cs
unfolding members_retained
mem-members_retained points [] c p h m = absurd h
mem-members_retained points (d ∷ cs) c p (inl e) m =
    mem-append_left p.id (ids_of (members_of points d.id)) (members_retained points cs)
      (mem-map (λ q. q.id) p (members_of points d.id) (subst (λ z. p ∈ members_of points z.id) e m))
mem-members_retained points (d ∷ cs) c p (inr h) m =
    mem-append_right p.id (ids_of (members_of points d.id)) (members_retained points cs)
      (mem-members_retained points cs c p h m)

pub mem-of_members_retained :
    (points : List RestorePoint) (cs : List BackupChain) (x : String)
    → x ∈ members_retained points cs
    → (c : BackupChain) × (c ∈ cs) × (p : RestorePoint) × (p ∈ members_of points c.id) × (x ≡ p.id)
unfolding members_retained
mem-of_members_retained points [] x h = absurd h
mem-of_members_retained points (d ∷ cs) x h =
    elim (mem-append_cases x (ids_of (members_of points d.id)) (members_retained points cs) h) [
      | inl k ↦
          let (p, m, e) = mem-of_map (λ (q : RestorePoint). q.id) x (members_of points d.id) k in
          (d, inl refl, p, m, e)
      | inr k ↦ let (c, u, p, m, e) = mem-of_members_retained points cs x k in (c, inr u, p, m, e)
    ]

pub mem-active_retained :
    (points : List RestorePoint) (cs : List BackupChain) (c : BackupChain) (p : RestorePoint)
    → c ∈ cs
    → c.status ≡ active
    → p ∈ members_of points c.id
    → p.id ∈ active_retained points cs
unfolding active_retained
mem-active_retained points [] c p h a m = absurd h
mem-active_retained points (d ∷ cs) c p (inl e) a m =
    let a' : d.status ≡ active = subst (λ z. z.status ≡ active) e a in
    rw a' (
      mem-append_left p.id (ids_of (members_of points d.id)) (active_retained points cs) (
        mem-map (λ q. q.id) p (members_of points d.id)
          (subst (λ z. p ∈ members_of points z.id) e m)))
mem-active_retained points (d ∷ cs) c p (inr h) a m =
    let ih = mem-active_retained points cs c p h a m in
    elim (Bool-cases (is_active d.status)) [
      | inl e ↦
          rw e
            (mem-append_right p.id (ids_of (members_of points d.id)) (active_retained points cs) ih)
      | inr e ↦ rw e ih
    ]
