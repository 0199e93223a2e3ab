-- ===== src/Retention/CapacityPlanner/Selection.antt =====
-- The selection loop of `CapacityReclaimPlanner.plan`, and the order of its candidates.
use vmbackupd.Prelude.{
  ℕ, zero, suc, ◌+◌, ◌<◌, ◌≡◌, refl, ap, inl, inr, List, [], ◌∷◌, arith, leb, Bool-cases,
  not_leb→lt, length, take, str_le_total, str_le_trans,
}
use vmbackupd.Prelude.Sort.{IsOrder}
use vmbackupd.Retention.{FullChainCapacity}
use vmbackupd.Retention.CapacityPlanner.{bytes_of, total_bytes, select_prefix, chain_le}

pub chain_le-IsOrder : IsOrder chain_le
unfolding chain_le
chain_le-IsOrder = record {
  total = λ c d. ground (arith, str_le_total c.chain_id d.chain_id);
  trans = λ c d e h k. ground (arith, str_le_trans c.chain_id d.chain_id e.chain_id);
}

-- The count of the loop is the bytes of what it selects.
pub select_prefix-total :
    (s : ℕ) (cs : List FullChainCapacity) (r : ℕ)
    → (select_prefix s cs r).1 ≡ r + total_bytes (select_prefix s cs r).0
unfolding select_prefix total_bytes
select_prefix-total s [] r = omega arith
select_prefix-total s (c ∷ cs) r = elim (Bool-cases (leb s (r + bytes_of c))) [
  | inl e ↦ rw e (omega arith)
  | inr e ↦ rw e (omega (arith, select_prefix-total s cs (r + bytes_of c)))
]

-- What the loop selects is a prefix of the candidates.
pub select_prefix-take :
    (s : ℕ) (cs : List FullChainCapacity) (r : ℕ)
    → (select_prefix s cs r).0 ≡ take (length (select_prefix s cs r).0) cs
unfolding select_prefix
select_prefix-take s [] r = refl
select_prefix-take s (c ∷ cs) r = elim (Bool-cases (leb s (r + bytes_of c))) [
  | inl e ↦ rw e
  | inr e ↦ rw e (ap (λ l. c ∷ l) (select_prefix-take s cs (r + bytes_of c)))
]

-- The loop reaches the shortfall exactly when all the candidates do.
pub select_prefix-enough :
    (s : ℕ) (cs : List FullChainCapacity) (r : ℕ)
    → leb s (select_prefix s cs r).1 ≡ leb s (r + total_bytes cs)
unfolding select_prefix total_bytes
select_prefix-enough s [] r = ground arith
select_prefix-enough s (c ∷ cs) r = elim (Bool-cases (leb s (r + bytes_of c))) [
  | inl e ↦ rw e (ground arith)
  | inr e ↦ rw e (ground (arith, select_prefix-enough s cs (r + bytes_of c)))
]

-- No shorter prefix of the selection reaches the shortfall.
pub select_prefix-minimal :
    (s : ℕ) (cs : List FullChainCapacity) (r n : ℕ)
    → r < s
    → n < length (select_prefix s cs r).0
    → r + total_bytes (take n (select_prefix s cs r).0) < s
unfolding select_prefix total_bytes
select_prefix-minimal s [] r n h k = omega arith
select_prefix-minimal s (c ∷ cs) r zero h k = omega arith
select_prefix-minimal s (c ∷ cs) r (suc n) h k = elim (Bool-cases (leb s (r + bytes_of c))) [
  | inl e ↦ absurd (let k' : suc n < 1 = rw e at k in omega arith)
  | inr e ↦ rw e (
      let k' : suc n < suc (length (select_prefix s cs (r + bytes_of c)).0) = rw e at k in
      omega (arith, select_prefix-minimal s cs (r + bytes_of c) n (not_leb→lt _ _ e) (omega arith)))
]
