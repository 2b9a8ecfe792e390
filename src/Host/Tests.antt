-- ===== src/Host/Tests.antt =====
-- Examples for pkg/host: a filter for one contract and one event, with a log that it lets through.
use shinzo_host_client.Prelude.{
  ◌≡◌, ◌≢◌, ◌↔◌, ◌⊎◌, String, true, some, [], ◌∷◌, string_eq, Any, if◌then◌else◌, ◌==◌,
}
use shinzo_host_client.Host.Filter.{
  TopicFilter, FilterGroup, BlockRangeFilter, EventFilterConfig, Fields, string, uint64,
  group_matches,
}
use shinzo_host_client.Host.Filter.Matching.{FitsFilter, Covers, group_matches-Any}

-- A folding of two spellings.
abbrev a_fold : String → String
a_fold s = if s == "0xAB" then "0xab" else s

abbrev a_topic : TopicFilter
a_topic = record { topic0 = "0xAB"; topic1 = ""; topic2 = "0x2"; topic3 = "" }

abbrev a_group : FilterGroup
a_group = record {
  enabled = true;
  contracts = record { address = "0xAB"; types = "transaction" ∷ [] } ∷ [];
  topics = a_topic ∷ [];
}

abbrev a_range : BlockRangeFilter
a_range = record { min_block = 10; max_block = 20 }

abbrev a_filter : String → EventFilterConfig
a_filter mode = record {
  enabled = true;
  mode = mode;
  cascade_filters = true;
  block_range = some a_range;
  groups = a_group ∷ [];
}

abbrev a_log : Fields
a_log = ("blockNumber", uint64 15) ∷ ("address", string "0xab") ∷ []

group_matches-Any_example : (group_matches a_fold true a_group "0xab" [] "log" ≡ true) ↔ (
    (◌≢◌ {A = String} "0xab" ""
      × Any
          (λ cf. Any (Covers a_fold true "log") cf.types × (a_fold cf.address ≡ "0xab"))
          a_group.contracts)
    ⊎ (◌≡◌ {A = String} "log" "log" × Any (λ tf. FitsFilter a_fold tf []) a_group.topics))
group_matches-Any_example = group_matches-Any a_fold true a_group "0xab" [] "log"
