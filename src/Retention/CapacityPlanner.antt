-- ===== src/Retention/CapacityPlanner.antt =====
-- vmbackupd/retention.py, `CapacityReclaimPlanner.plan`: which full chains to delete before a
-- backup that does not fit. The guards and the decision are two functions, as the body has them
-- one after the other; the loop over the candidates is `select_prefix`.
pub mod Selection
pub mod Guarantees
pub mod Outcome
use vmbackupd.Prelude.{
  ℕ, ◌+◌, ◌-◌, String, Bool, true, false, not, ◌&&◌, ◌||◌, Option, none, some, List, [], ◌∷◌, map,
  ltb, leb, ◌==◌, str_eq, str_le, if◌then◌else◌, is_some, get_or, length, take, filter, any, Result,
  ok, err, value_error, raise_if, ◌>>=◌, ◌>>◌,
}
use vmbackupd.Prelude.Sort.{sort}
use vmbackupd.Prelude.Int.{ℤ, is_neg, to_ℕ}
use vmbackupd.Models.{SpaceReclaimMode, safe, space_optimized, RetentionPolicy, is_closed}
use vmbackupd.Retention.{FullChainCapacity, CapacityReclaimPlan}

-- `len(ids) != len(set(ids))`
unfoldable pub has_duplicates : List String → Bool
has_duplicates [] = false
has_duplicates (x ∷ xs) = let rest = has_duplicates xs in any (str_eq x) xs || rest

-- The order of `key=lambda chain: (chain.created_at, chain.chain_id)`.
unfoldable pub chain_le : FullChainCapacity → FullChainCapacity → Bool
chain_le c d =
    ltb c.created_at d.created_at || (c.created_at == d.created_at && str_le c.chain_id d.chain_id)

unfoldable pub is_reclaimable : FullChainCapacity → Bool
is_reclaimable c = is_closed c.status && is_some c.physical_bytes

abbrev pub bytes_of : FullChainCapacity → ℕ
bytes_of c = get_or c.physical_bytes 0

-- `sum(chain.physical_bytes for chain in chains if chain.physical_bytes is not None)`
unfoldable pub total_bytes : List FullChainCapacity → ℕ
total_bytes [] = 0
total_bytes (c ∷ cs) = bytes_of c + total_bytes cs

unfoldable pub closed_oldest_first : List FullChainCapacity → List FullChainCapacity
closed_oldest_first chains = sort chain_le (filter is_reclaimable chains)

unfoldable pub candidates : List FullChainCapacity → RetentionPolicy → List FullChainCapacity
candidates chains policy =
    take (length chains - policy.minimum_full_chains) (closed_oldest_first chains)

-- The loop over the candidates: the chains that it selects and the bytes that they free.
unfoldable pub select_prefix : ℕ → List FullChainCapacity → ℕ → List FullChainCapacity × ℕ
select_prefix shortfall [] reclaimed = ([], reclaimed)
select_prefix shortfall (c ∷ cs) reclaimed =
    let now = reclaimed + bytes_of c in
    let rest = select_prefix shortfall cs now in
    if leb shortfall now then (c ∷ [], now) else (c ∷ rest.0, rest.1)

-- What is selected in the end: nothing, if all the candidates together do not free enough.
unfoldable pub select_chains : ℕ → List FullChainCapacity → List FullChainCapacity × ℕ
select_chains shortfall cs =
    let (selected, reclaimed) = select_prefix shortfall cs 0 in
    if ltb reclaimed shortfall then ([], 0) else (selected, reclaimed)

abbrev pub is_empty {ℓ} : {A : Type ℓ} → List A → Bool
is_empty [] = true
is_empty (_ ∷ _) = false

abbrev pub ids_of : List FullChainCapacity → List String
ids_of = map (λ c. c.chain_id)

unfoldable pub shortfall_of : ℕ → ℕ → ℕ → ℕ
shortfall_of free reserve required = required + reserve - free

-- What each mode selects when the backup does not fit.
unfoldable pub selection_of_mode :
    SpaceReclaimMode → ℕ → List FullChainCapacity → List FullChainCapacity × ℕ
selection_of_mode safe shortfall cs = ([], 0)
selection_of_mode space_optimized shortfall cs = select_chains shortfall cs

unfoldable pub selection : ℕ → RetentionPolicy → List FullChainCapacity → List FullChainCapacity × ℕ
selection shortfall policy cs =
    if shortfall == 0 then ([], 0) else selection_of_mode policy.space_reclaim_mode shortfall cs

-- The three `return CapacityReclaimPlan(...)`, by the selection that each reports.
unfoldable pub decide_plan :
    List FullChainCapacity → ℕ → ℕ → ℕ → RetentionPolicy → CapacityReclaimPlan
decide_plan chains free reserve required policy =
    let shortfall = shortfall_of free reserve required in
    let cs = candidates chains policy in
    let (selected, reclaimed) = selection shortfall policy cs in
    record {
      backup_possible_now = shortfall == 0;
      reclaim_required = not (shortfall == 0);
      backup_possible_after_reclaim = shortfall == 0 || not (is_empty selected);
      required_backup_bytes = required;
      free_bytes = free;
      reserve_bytes = reserve;
      usable_free_bytes = free - reserve;
      shortfall_bytes = shortfall;
      candidate_chain_ids = ids_of cs;
      candidate_reclaim_bytes = total_bytes cs;
      selected_reclaim_chain_ids = ids_of selected;
      selected_reclaim_bytes = reclaimed;
      full_chains_before = length chains;
      protected_full_chains_remaining = length chains - length selected;
    }

unfoldable pub plan :
    List FullChainCapacity → ℤ → ℤ → ℤ → RetentionPolicy → Result CapacityReclaimPlan
plan chains free reserve required policy = do
  raise_if (is_neg free) (value_error "free_bytes must be non-negative")
  raise_if (is_neg reserve) (value_error "reserve_bytes must be non-negative")
  raise_if (is_neg required) (value_error "required_backup_bytes must be non-negative")
  raise_if (has_duplicates (ids_of chains))
      (value_error "full chain capacity facts contain duplicate chain IDs")
  ok (decide_plan chains (to_ℕ free) (to_ℕ reserve) (to_ℕ required) policy)
