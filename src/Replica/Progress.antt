-- ===== src/Replica/Progress.antt =====
-- repository_v2.py and replica_v2.py: the progress that is stored with a replica.
use vmbackupd.Prelude.{
  ℕ, ◌≤◌, ◌≡◌, sym, ap, subst, ◌⊎◌, inl, inr, Bool, Option, some, none, String, List, [], ◌∷◌,
  arith, Bool-cases, Option-cases, ◌∈◌, All, All-of_mem, mem-of_map, str_eq, if◌then◌else◌, lookup,
  assign, update_by, find_by, mem-of_find_by, mem-of_lookup, filter, mem-of_filter, ◌&&◌, Result,
  ok, err, described,
}
use vmbackupd.Prelude.Int.{ℤ}
use vmbackupd.Prelude.Sort.{mem-of_sort}
use vmbackupd.Compact.{Replica, Point, Storage, Catalog}
use vmbackupd.Compact.Points.{
  point_id, find_point, is_on_node, set_replica, write_replica, point_le,
}
use vmbackupd.Replica.Queue.{
  ReplicaWork, blocked, transferring, Verdict, skip, claim, block, judge, Search, found, going_on,
  apply_verdict, and_then, scan_replicas, scan_points, available_points, claimed,
  claim_next_replica_v2,
}
use vmbackupd.Replica.Updates.{
  change_replica, update_replica_v2, update_replica_transfer_plan_v2, update_replica_progress_v2,
}
use vmbackupd.Replica.Executor.{
  Paths, Client, Context, context, send, send_plan, send_context, or_failed, run_work, run_once,
}
use vmbackupd.Replica.Sending.{IsKept, IsEnd, send-IsEnd}

-- A count is stored with its total, and does not exceed it.
abbrev pub IsWithin : Option ℕ → Option ℕ → Type 0
IsWithin none total = Unit
IsWithin (some n) none = ⊥
IsWithin (some n) (some total) = n ≤ total

abbrev pub IsBounded : Replica → Type 0
IsBounded value = IsWithin value.bytes_processed value.bytes_total

abbrev pub AreBounded : Catalog → Type 0
AreBounded db =
    (p : Point) → p ∈ db.points → (item : String × Replica) → item ∈ p.replicas → IsBounded item.1

mem-of_assign :
    (k : String) (v : Replica) (items : List (String × Replica)) (item : String × Replica)
    → item ∈ assign k v items
    → (item.1 ≡ v) ⊎ (item ∈ items)
unfolding assign
mem-of_assign k v [] item (inl e) = inl (ap (λ z. z.1) e)
mem-of_assign k v [] item (inr h) = absurd h
mem-of_assign k v (x ∷ xs) item h = elim (Bool-cases (str_eq x.0 k)) [
  | inl e ↦
      let h' : item ∈ ((k, v) ∷ xs) = rw e at h in
      elim h' [ inl q ↦ inl (ap (λ z. z.1) q) | inr m ↦ inr (inr m) ]
  | inr n ↦
      let h' : item ∈ (x ∷ assign k v xs) = rw n at h in
      elim h' [
        | inl q ↦ inr (inl q)
        | inr m ↦ elim (mem-of_assign k v xs item m) [ inl q ↦ inl q | inr w ↦ inr (inr w) ]
      ]
]

write-AreBounded :
    (id destination_id : String) (value : Replica) (db : Catalog)
    → IsBounded value
    → AreBounded db
    → AreBounded (write_replica id destination_id value db)
unfolding write_replica update_by
write-AreBounded id destination_id value db b a p m item k =
    let change : Point → Point =
      λ x. if str_eq x.id id then set_replica destination_id value x else x in
    let (x, w, e) = mem-of_map change p db.points m in
    let k' : item ∈ (change x).replicas = subst (λ z. item ∈ z.replicas) e k in
    elim (Bool-cases (str_eq x.id id)) [
      | inr n ↦ a x w item (rw n at k')
      | inl t ↦
          let k'' : item ∈ assign destination_id value x.replicas = rw t at k' in
          elim (mem-of_assign destination_id value x.replicas item k'') [
            | inl q ↦ subst IsBounded (sym q) b
            | inr old ↦ a x w item old
          ]
    ]

module _ (id destination_id : String) (change : Replica → Replica) (db : Catalog) where
  change-AreBounded :
      ((v : Replica) → IsBounded v → IsBounded (change v))
      → AreBounded db
      → AreBounded (change_replica id destination_id change db).1
  unfolding change_replica find_point
  change-AreBounded f a = elim (Option-cases (find_by point_id db.points id)) [
    | inl e ↦ rw e a
    | inr (p, e) ↦ elim (Option-cases (lookup p.replicas destination_id)) [
      | inl n ↦ rw (e, n) a
      | inr (v, q) ↦
          let (m, _) = mem-of_find_by point_id db.points id p e in
          let old = a p m (destination_id, v) (mem-of_lookup p.replicas destination_id v q) in
          rw (e, q) (write-AreBounded id destination_id (change v) db (f v old) a)
    ]
  ]

bounds-IsKept : (id destination_id : String) (stamp : ℕ) → IsKept id destination_id stamp AreBounded
unfolding update_replica_v2 update_replica_transfer_plan_v2 update_replica_progress_v2
bounds-IsKept id destination_id stamp = record {
  state = λ state last_error remote_object verified_at db a.
      change-AreBounded id destination_id _ db (λ v b. b) a;
  plan = λ mode payload total seed db a.
      change-AreBounded id destination_id _ db (λ v b. omega arith) a;
  progress = λ processed total db le a. change-AreBounded id destination_id _ db (λ v b. le) a;
}

module _ (node : String) (stamp : ℕ) where
  Searched : Search → Type 0
  Searched (found work db) = AreBounded db
  Searched (going_on db) = AreBounded db

  and_then-Searched :
      (s : Search) (next : Catalog → Search)
      → Searched s
      → ((db : Catalog) → AreBounded db → Searched (next db))
      → Searched (and_then s next)
  unfolding Searched
  and_then-Searched (found work db) next a f = a
  and_then-Searched (going_on db) next a f = f db a

  verdict-Searched :
      (p : Point) (item : String × Replica) (db : Catalog) (v : Verdict)
      → IsBounded item.1
      → AreBounded db
      → Searched (apply_verdict stamp db p item.0 item.1 v)
  unfolding Searched
  verdict-Searched p item db skip b a = a
  verdict-Searched p item db (block parent) b a =
      write-AreBounded p.id item.0 (blocked stamp parent item.1) db b a
  verdict-Searched p item db claim b a =
      write-AreBounded p.id item.0 (transferring stamp item.1) db b a

  scan_replicas-Searched :
      (p : Point) (items : List (String × Replica)) (db : Catalog)
      → All (λ item. IsBounded item.1) items
      → AreBounded db
      → Searched (scan_replicas node stamp p items db)
  unfolding scan_replicas
  scan_replicas-Searched p [] db b a = unfold Searched in a
  scan_replicas-Searched p (item ∷ items) db b a =
      let v = judge db node p item.0 item.1 in
      and_then-Searched (apply_verdict stamp db p item.0 item.1 v)
        (scan_replicas node stamp p items) (verdict-Searched p item db v b.0 a)
        (λ d. scan_replicas-Searched p items d b.1)

  scan_points-Searched :
      (ps : List Point) (db : Catalog)
      → All (λ p. All (λ item. IsBounded item.1) p.replicas) ps
      → AreBounded db
      → Searched (scan_points node stamp ps db)
  unfolding scan_points
  scan_points-Searched [] db b a = unfold Searched in a
  scan_points-Searched (p ∷ ps) db b a =
      and_then-Searched (scan_replicas node stamp p p.replicas db) (scan_points node stamp ps)
        (scan_replicas-Searched p p.replicas db b.0 a) (λ d. scan_points-Searched ps d b.1)

  of_Searched : (s : Search) → Searched s → AreBounded (claimed s).1
  unfolding Searched
  of_Searched (found work db) a = a
  of_Searched (going_on db) a = a

  claim-AreBounded :
      (db : Catalog) → AreBounded db → AreBounded (claim_next_replica_v2 node stamp db).1
  unfolding claim_next_replica_v2 available_points
  claim-AreBounded db a =
      let is_row : Point → Bool = λ p. is_on_node db node p && str_eq p.status "AVAILABLE" in
      of_Searched (scan_points node stamp (available_points node db) db) (
        scan_points-Searched (available_points node db) db
          (All-of_mem _ (available_points node db) (λ p m. All-of_mem _ p.replicas (
            a p
              (mem-of_filter is_row p db.points
                (mem-of_sort point_le p (filter is_row db.points) m)).0)))
          a)

module _ (paths : Paths) (client : Client) (node : String) (stamp : ℕ) where
  end-AreBounded :
      (work : ReplicaWork) (point : Point) (destination : Storage) (r : Result Replica × Catalog)
      → IsEnd paths client node stamp work point destination AreBounded r
      → AreBounded r.1
  end-AreBounded work point destination r (inl (db, e, a, q)) =
      subst (λ z. AreBounded z.1) (sym q) a
  end-AreBounded work point destination r (inr (db, object_id, a, p, q)) =
      subst (λ z. AreBounded z.1) (sym q)
        ((bounds-IsKept point.id destination.id stamp).state "SUCCESS" none (some object_id)
          (some stamp) db a)

  plan-AreBounded :
      (work : ReplicaWork) (c : Context paths) (plan : Result (List ℤ)) (db : Catalog)
      → AreBounded db
      → AreBounded (send_plan paths client node stamp work c plan db).1
  plan-AreBounded work c (err e) db a = a
  plan-AreBounded work c (ok payloads) db a =
      end-AreBounded work c.point c.destination
        (send paths client node stamp work c.point c.destination payloads db)
        (send-IsEnd paths client node stamp work c.point c.destination AreBounded
          (bounds-IsKept c.point.id c.destination.id stamp) payloads db a)

  context-AreBounded :
      (work : ReplicaWork) (c : Result (Context paths)) (db : Catalog)
      → AreBounded db
      → AreBounded (send_context paths client node stamp work c db).1
  context-AreBounded work (err e) db a = a
  context-AreBounded work (ok c) db a =
      plan-AreBounded work c (client.plan work c.point c.vm.id c.destination) db a

  failed-AreBounded :
      (work : ReplicaWork) (r : Result Replica × Catalog)
      → AreBounded r.1
      → AreBounded (or_failed paths client node stamp work r).1
  failed-AreBounded work (ok value, db) a = a
  failed-AreBounded work (err e, db) a =
      (bounds-IsKept work.restore_point_id work.destination_id stamp).state "FAILED"
        (some (described e)) none none db a

  work-AreBounded :
      (w : Option ReplicaWork × Catalog)
      → AreBounded w.1
      → AreBounded (run_work paths client node stamp w).1
  work-AreBounded (none, db) a = a
  work-AreBounded (some work, db) a =
      failed-AreBounded work
        (send_context paths client node stamp work (context paths db node work) db)
        (context-AreBounded work (context paths db node work) db a)

  -- Whatever the client reports, returns or raises, a call of the executor never stores a count of
  -- bytes without a total, nor one above its total: if every replica of the catalogue was so bounded
  -- before, every one is after it.
  pub run_once-AreBounded :
      (db : Catalog) → AreBounded db → AreBounded (run_once paths client node stamp db).1
  unfolding run_once
  run_once-AreBounded db a =
      work-AreBounded (claim_next_replica_v2 node stamp db) (claim-AreBounded node stamp db a)
