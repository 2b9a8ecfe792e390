-- ===== src/Host/Filter/Modes.antt =====
-- What the modes, the groups' switches and the block range of replication_filter.go do to a decision.
use shinzo_host_client.Prelude.{
  ℕ, ◌≤◌, ◌≡◌, ◌⊎◌, inl, inr, refl, String, Bool, true, false, not, ◌&&◌, some, List, [], ◌∷◌, ◌==◌,
  string_eq, ==_iff, Bool-cases, if◌then◌else◌, arith, any,
}
use shinzo_host_client.Host.Filter.{
  FilterGroup, BlockRangeFilter, EventFilterConfig, Fields, Collection, block, block_signature,
  snapshot_signature, unknown, transaction, log, access_list_entry, filter_mode_blocklist,
  has_enabled_groups, matches_groups, group_matches, within, in_block_range, field_uint64,
  allow_replication,
}

module _ (fold : String → String) where
  -- With a group enabled, the blocklist rejects exactly what the same groups as an allowlist accept.
  pub matches_groups_dual :
      (cfg : EventFilterConfig) (address : String) (topics : List String) (col_type mode : String)
      → has_enabled_groups cfg ≡ true
      → cfg.mode ≡ filter_mode_blocklist
      → (mode == filter_mode_blocklist) ≡ false
      → matches_groups fold cfg address topics col_type
        ≡ not (matches_groups fold (record cfg { mode = mode }) address topics col_type)
  unfolding matches_groups has_enabled_groups
  matches_groups_dual cfg address topics col_type mode enabled blocks allows =
      ground (arith, ==_iff cfg.mode filter_mode_blocklist)

-- The groups that are switched on.
abbrev pub enabled_groups : List FilterGroup → List FilterGroup
enabled_groups [] = []
enabled_groups (g ∷ gs) = if g.enabled then g ∷ enabled_groups gs else enabled_groups gs

any_enabled :
    (p : FilterGroup → Bool) (gs : List FilterGroup)
    → any (λ g. g.enabled && p g) (enabled_groups gs) ≡ any (λ g. g.enabled && p g) gs
unfolding any
any_enabled p [] = refl
any_enabled p (g ∷ gs) = elim (Bool-cases g.enabled) [
  | inl on ↦ rw on (ground (arith, any_enabled p gs))
  | inr off ↦ rw off (any_enabled p gs)
]

any_on :
    (gs : List FilterGroup) → any (λ g. g.enabled) (enabled_groups gs) ≡ any (λ g. g.enabled) gs
unfolding any
any_on [] = refl
any_on (g ∷ gs) = elim (Bool-cases g.enabled) [
  | inl on ↦ rw on (ground (arith, any_on gs))
  | inr off ↦ rw off (any_on gs)
]

module _ (fold : String → String) where
  -- A group that is switched off has no part in any decision: without such groups, all are the same.
  pub matches_groups-enabled_groups :
      (cfg : EventFilterConfig) (address : String) (topics : List String) (col_type : String)
      → matches_groups fold
          (record cfg { groups = enabled_groups cfg.groups })
          address
          topics
          col_type
        ≡ matches_groups fold cfg address topics col_type
  unfolding matches_groups has_enabled_groups
  matches_groups-enabled_groups cfg address topics col_type =
      rw
        (
          any_on cfg.groups,
          any_enabled (λ g. group_matches fold cfg.cascade_filters g address topics col_type)
              cfg.groups,
        )
        refl

  -- A transaction, log or access list entry with a block number is stored only if that number is
  -- within the configured range, its ends included, where 0 is no upper end; this in any mode.
  pub allow_replication-range :
      (cfg : EventFilterConfig) (collection : Collection) (fields : Fields)
      (range : BlockRangeFilter) (n : ℕ)
      → (collection ≡ transaction) ⊎ ((collection ≡ log) ⊎ (collection ≡ access_list_entry))
      → cfg.block_range ≡ some range
      → field_uint64 fields "blockNumber" ≡ some n
      → allow_replication fold cfg collection fields ≡ true
      → (range.min_block ≤ n) × ((range.max_block ≡ 0) ⊎ (n ≤ range.max_block))
  unfolding allow_replication in_block_range
  allow_replication-range cfg collection fields range n kind r f h =
      bounds (rw (r, f) at (gate collection kind h))
    where
      gate :
          (c : Collection)
          → (c ≡ transaction) ⊎ ((c ≡ log) ⊎ (c ≡ access_list_entry))
          → allow_replication fold cfg c fields ≡ true
          → within cfg.block_range (field_uint64 fields "blockNumber") ≡ true
      gate transaction k a = ground arith
      gate log k a = ground arith
      gate access_list_entry k a = ground arith
      gate block k a = ground arith
      gate block_signature k a = ground arith
      gate snapshot_signature k a = ground arith
      gate unknown k a = ground arith

      bounds :
          within (some range) (some n) ≡ true
          → (range.min_block ≤ n) × ((range.max_block ≡ 0) ⊎ (n ≤ range.max_block))
      bounds w = unfold within in ground arith
