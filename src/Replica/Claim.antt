-- ===== src/Replica/Claim.antt =====
-- repository_v2.py, `claim_next_replica_v2`: what may be sent, and how it is marked.
use vmbackupd.Prelude.{
  ℕ, ◌≡◌, refl, sym, ap, subst, ◌∙◌, ◌⊎◌, inl, inr, Bool, true, false, not, ◌&&◌, Option, some,
  none, String, List, [], ◌∷◌, Bool-cases, Option-cases, ◌∈◌, All, All-of_mem, both, of_not,
  find_by-of_mem, str_eq, eq_iff, is_some, lookup, lookup-assign, find_by-update_by, change_if,
  filter, mem-of_filter,
}
use mathlib.Core.Bool.{false≢true}
use vmbackupd.Prelude.Sort.{sort, mem-of_sort}
use vmbackupd.Models.{BackupKind, full, incremental, is_incremental}
use vmbackupd.Compact.{Replica, Point, Catalog}
use vmbackupd.Compact.Points.{
  point_id, find_point, is_on_node, is_ssh_destination, set_replica, write_replica, point_le,
}
use vmbackupd.Replica.Queue.{
  ReplicaWork, is_waiting, parent_state, replica_parent_state, is_success, blocked, transferring,
  Verdict, skip, claim, block, judge, work_of, Search, found, going_on, apply_verdict, and_then,
  scan_replicas, scan_points, available_points, claimed, claim_next_replica_v2,
}

abbrev replica_of : String → Option Point → Option Replica
replica_of destination_id none = none
replica_of destination_id (some p) = lookup p.replicas destination_id

-- The replica of a restore point for a destination.
abbrev pub replica_at : Catalog → String → String → Option Replica
replica_at db id destination_id = replica_of destination_id (find_point db id)

-- The restore point is available and its replica at the destination is published.
abbrev pub is_sent : Catalog → String → String → Bool
is_sent db id destination_id = str_eq (parent_state destination_id (find_point db id)) "SUCCESS"

-- What blocking replicas leaves: nothing becomes sent by it.
record Keeps (db₀ db : Catalog) : Type 0 where
  storages : db.storages ≡ db₀.storages
  sent :
      (id destination_id : String)
      → is_sent db id destination_id ≡ true
      → is_sent db₀ id destination_id ≡ true
  rows : (id : String) → is_some (find_point db id) ≡ is_some (find_point db₀ id)

module _ (id destination_id : String) (value : Replica) (db : Catalog) where
  pub find-write_replica :
      (j : String)
      → find_point (write_replica id destination_id value db) j
        ≡ change_if (set_replica destination_id value) (str_eq j id) (find_point db j)
  unfolding find_point write_replica
  find-write_replica j =
      find_by-update_by point_id (set_replica destination_id value) (λ p. refl) db.points id j

  -- After the write the row has the replica.
  pub replica_at-write_replica :
      is_some (find_point db id) ≡ true
      → replica_at (write_replica id destination_id value db) id destination_id ≡ some value
  replica_at-write_replica h = elim (Option-cases (find_point db id)) [
    | inl e ↦ absurd (false≢true (rw e at h))
    | inr (p, e) ↦ rw (
      find-write_replica id,
      e,
      (eq_iff id id).1 refl,
      lookup-assign destination_id destination_id value p.replicas,
      (eq_iff destination_id destination_id).1 refl,
    )
  ]

  changed-sent :
      (b : Bool) (o : Option Point) (e : String)
      → str_eq value.state "SUCCESS" ≡ false
      → str_eq (parent_state e (change_if (set_replica destination_id value) b o)) "SUCCESS" ≡ true
      → str_eq (parent_state e o) "SUCCESS" ≡ true
  changed-sent b none e n h = h
  changed-sent false (some p) e n h = h
  changed-sent true (some p) e n h = elim (Bool-cases (str_eq p.status "AVAILABLE")) [
    | inr f ↦ rw f (rw f at h)
    | inl t ↦ elim (Bool-cases (str_eq destination_id e)) [
      | inl s ↦
          let h' : str_eq value.state "SUCCESS" ≡ true =
            rw (t, lookup-assign destination_id e value p.replicas, s) at h in
          absurd (false≢true (sym n ∙ h'))
      | inr s ↦ rw t (rw (t, lookup-assign destination_id e value p.replicas, s) at h)
    ]
  ]

  write_replica-Keeps :
      (db₀ : Catalog)
      → str_eq value.state "SUCCESS" ≡ false
      → Keeps db₀ db
      → Keeps db₀ (write_replica id destination_id value db)
  write_replica-Keeps db₀ n k = record {
    storages = unfold write_replica in k.storages;
    sent = λ i e h. k.sent i e (
        changed-sent (str_eq i id) (find_point db i) e n
          (subst (λ o. str_eq (parent_state e o) "SUCCESS" ≡ true) (find-write_replica i) h));
    rows = λ i.
        ap is_some (find-write_replica i) ∙ same_some (str_eq i id) (find_point db i) ∙ k.rows i;
  }
    where
      same_some :
          (b : Bool) (o : Option Point)
          → is_some (change_if (set_replica destination_id value) b o) ≡ is_some o
      same_some b none = refl
      same_some b (some p) = refl

same_ssh :
    (db₀ db : Catalog) (node destination_id : String)
    → Keeps db₀ db
    → is_ssh_destination db₀ node destination_id ≡ is_ssh_destination db node destination_id
unfolding is_ssh_destination
same_ssh db₀ db node destination_id k = rw (k.storages)

-- The direct parent of an incremental is published at the destination.
abbrev pub IsSentParent : Catalog → BackupKind → Option String → String → Type 0
IsSentParent db kind parent destination_id =
    (kind ≡ full)
    ⊎ ((parent_id : String) × (parent ≡ some parent_id)
        × (is_sent db parent_id destination_id ≡ true))

sent_parent :
    (db₀ db : Catalog) (destination_id : String) (kind : BackupKind) (parent : Option String)
    → Keeps db₀ db
    → (is_incremental kind && not (is_success (replica_parent_state db parent destination_id)))
      ≡ false
    → IsSentParent db₀ kind parent destination_id
unfolding replica_parent_state
sent_parent db₀ db destination_id full parent k h = inl refl
sent_parent db₀ db destination_id incremental none k h = cc
sent_parent db₀ db destination_id incremental (some parent_id) k h =
    elim (Bool-cases (str_eq parent_id "")) [
      | inl t ↦ let h' : true ≡ false = rw t at h in cc
      | inr f ↦ inr (
        parent_id,
        refl,
        k.sent parent_id destination_id (of_not (is_sent db parent_id destination_id) (rw f at h)),
      )
    ]

-- A replica that may be sent: the point is available and of the node, the replica waits, its
-- destination is an SSH storage of the node, and its parent, if it has one, is published there.
abbrev pub IsRunnable : Catalog → String → Point → String → Replica → Type 0
IsRunnable db node p destination_id value =
    (p ∈ db.points)
    × (is_on_node db node p ≡ true)
    × (p.status ≡ "AVAILABLE")
    × ((destination_id, value) ∈ p.replicas)
    × (is_waiting value.state ≡ true)
    × (is_ssh_destination db node destination_id ≡ true)
    × IsSentParent db p.kind p.parent_restore_point_id destination_id

-- The work that is claimed is a runnable replica, and its row has been marked.
abbrev pub IsClaimed : String → ℕ → Catalog → ReplicaWork → Catalog → Type 0
IsClaimed node stamp db work db' =
    (p : Point) × (value : Replica) × IsRunnable db node p work.destination_id value
    × (work ≡ work_of p work.destination_id value)
    × (replica_at db' p.id work.destination_id ≡ some (transferring stamp value))

module _ (node : String) (stamp : ℕ) (db₀ : Catalog) where
  Sound : Search → Type 0
  Sound (going_on db) = Keeps db₀ db
  Sound (found work db) = IsClaimed node stamp db₀ work db

  and_then-Sound :
      (s : Search) (next : Catalog → Search)
      → Sound s
      → ((db : Catalog) → Keeps db₀ db → Sound (next db))
      → Sound (and_then s next)
  unfolding Sound
  and_then-Sound (going_on db) next a f = f db a
  and_then-Sound (found work db) next a f = a

  -- What the tests of the loop's body have found when it claims.
  judge-claim :
      (db : Catalog) (p : Point) (destination_id : String) (value : Replica)
      → Keeps db₀ db
      → judge db node p destination_id value ≡ claim
      → (is_waiting value.state ≡ true)
        × (is_ssh_destination db₀ node destination_id ≡ true)
        × IsSentParent db₀ p.kind p.parent_restore_point_id destination_id
  unfolding judge
  judge-claim db p destination_id value k h =
      let parent = replica_parent_state db p.parent_restore_point_id destination_id in
      elim (Bool-cases (is_waiting value.state)) [
        | inr f ↦ let h' : skip ≡ claim = rw f at h in cc
        | inl w ↦ elim (Bool-cases (is_ssh_destination db node destination_id)) [
          | inr f ↦ let h' : skip ≡ claim = rw (w, f) at h in cc
          | inl t ↦ elim (Bool-cases (is_incremental p.kind && not (is_success parent))) [
            | inl b ↦ let h' : block parent ≡ claim = rw (w, t, b) at h in cc
            | inr b ↦ (
              w,
              same_ssh db₀ db node destination_id k ∙ t,
              sent_parent db₀ db destination_id p.kind p.parent_restore_point_id k b,
            )
          ]
        ]
      ]

  -- One of the rows that the search goes through.
  abbrev IsRow : Point → Type 0
  IsRow p = (p ∈ db₀.points) × (is_on_node db₀ node p ≡ true) × (p.status ≡ "AVAILABLE")

  found_row : (p : Point) → p ∈ db₀.points → is_some (find_point db₀ p.id) ≡ true
  unfolding find_point
  found_row p m = find_by-of_mem point_id db₀.points p m

  verdict-Sound :
      (p : Point) (item : String × Replica) (db : Catalog) (v : Verdict)
      → IsRow p
      → item ∈ p.replicas
      → Keeps db₀ db
      → judge db node p item.0 item.1 ≡ v
      → Sound (apply_verdict stamp db p item.0 item.1 v)
  unfolding Sound
  verdict-Sound p item db skip row m k e = k
  verdict-Sound p item db (block parent) row m k e =
      write_replica-Keeps p.id item.0 (blocked stamp parent item.1) db db₀ refl k
  verdict-Sound p item db claim row m k e =
      let (waits, ssh, sent) = judge-claim db p item.0 item.1 k e in
      (
        p,
        item.1,
        (row.0, row.1, row.2, m, waits, ssh, sent),
        refl,
        replica_at-write_replica p.id item.0 (transferring stamp item.1) db
            (k.rows p.id ∙ found_row p row.0),
      )

  scan_replicas-Sound :
      (p : Point) (items : List (String × Replica)) (db : Catalog)
      → IsRow p
      → All (λ item. item ∈ p.replicas) items
      → Keeps db₀ db
      → Sound (scan_replicas node stamp p items db)
  unfolding scan_replicas
  scan_replicas-Sound p [] db row a k = unfold Sound in k
  scan_replicas-Sound p (item ∷ items) db row a k =
      and_then-Sound (apply_verdict stamp db p item.0 item.1 (judge db node p item.0 item.1))
        (scan_replicas node stamp p items)
        (verdict-Sound p item db (judge db node p item.0 item.1) row a.0 k refl)
        (λ d. scan_replicas-Sound p items d row a.1)

  scan_points-Sound :
      (ps : List Point) (db : Catalog)
      → All IsRow ps
      → Keeps db₀ db
      → Sound (scan_points node stamp ps db)
  unfolding scan_points
  scan_points-Sound [] db a k = unfold Sound in k
  scan_points-Sound (p ∷ ps) db a k =
      and_then-Sound (scan_replicas node stamp p p.replicas db) (scan_points node stamp ps)
        (scan_replicas-Sound p p.replicas db a.0
          (All-of_mem (λ item. item ∈ p.replicas) p.replicas (λ item m. m)) k)
        (λ d. scan_points-Sound ps d a.1)

  available-IsRow : All IsRow (available_points node db₀)
  unfolding available_points
  available-IsRow =
      let is_row : Point → Bool = λ p. is_on_node db₀ node p && str_eq p.status "AVAILABLE" in
      All-of_mem IsRow (sort point_le (filter is_row db₀.points)) (λ p m.
        let (w, t) =
          mem-of_filter is_row p db₀.points (mem-of_sort point_le p (filter is_row db₀.points) m) in
        let (a, b) = both (is_on_node db₀ node p) (str_eq p.status "AVAILABLE") t in
        (w, a, (eq_iff p.status "AVAILABLE").0 b))

  of_search :
      (s : Search) (work : ReplicaWork)
      → Sound s
      → (claimed s).0 ≡ some work
      → IsClaimed node stamp db₀ work (claimed s).1
  unfolding Sound
  of_search (found w db) work a e =
      let same : w ≡ work = cc in subst (λ z. IsClaimed node stamp db₀ z db) same a
  of_search (going_on db) work a e = cc

  -- A replica is claimed only if it may be sent: its restore point is available and of the node, it
  -- is PENDING or BLOCKED, its destination is an SSH storage of the node, and the direct parent of
  -- an incremental is available and published at the same destination. The claim then names it,
  -- and its row says TRANSFERRING, with one more attempt.
  pub claim_next_replica_v2-IsClaimed :
      (work : ReplicaWork)
      → (claim_next_replica_v2 node stamp db₀).0 ≡ some work
      → IsClaimed node stamp db₀ work (claim_next_replica_v2 node stamp db₀).1
  unfolding claim_next_replica_v2
  claim_next_replica_v2-IsClaimed work h =
      of_search (scan_points node stamp (available_points node db₀) db₀) work
        (scan_points-Sound (available_points node db₀) db₀ available-IsRow
          (record { storages = refl; sent = λ i e t. t; rows = λ i. refl }))
        h
