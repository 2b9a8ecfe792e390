-- ===== src/Host/Filter.antt =====
-- pkg/host/replication_filter.go, with the filter's part of config/config.go: whether a document
-- of a peer is stored. `fold` is the Unicode case folding by which `strings.EqualFold` compares.
pub mod Matching
pub mod Modes
use shinzo_host_client.Prelude.{
  ℕ, ◌%◌, ◌^◌, String, Bool, true, false, not, ◌&&◌, ◌||◌, Option, none, some, List, [], ◌∷◌, ◌==◌,
  string_eq, if◌then◌else◌, length, Map, lookup, ltb, any,
}
use shinzo_host_client.Prelude.Int.{ℤ, to_uint64}

-- An address or topic as configured or found in a document; "" is a wildcard, or a missing one.
pub record ContractFilter : Type 0 where
  pub address : String
  pub types : List String

pub record TopicFilter : Type 0 where
  pub topic0 : String
  pub topic1 : String
  pub topic2 : String
  pub topic3 : String

pub record FilterGroup : Type 0 where
  pub enabled : Bool
  pub contracts : List ContractFilter
  pub topics : List TopicFilter

pub record BlockRangeFilter : Type 0 where
  pub min_block : ℕ
  pub max_block : ℕ  -- 0 for no upper limit

pub record EventFilterConfig : Type 0 where
  pub enabled : Bool
  pub mode : String
  pub cascade_filters : Bool
  pub block_range : Option BlockRangeFilter
  pub groups : List FilterGroup

-- A field's dynamic type and value. A float is given by its conversion to `uint64`; of the items
-- of a `[]any`, `none` is one that is not a string.
pub data Value : Type 0 where
  int64 int : ℤ → Value
  uint64 float64 : ℕ → Value
  string : String → Value
  strings : List String → Value
  anys : List (Option String) → Value
  other : Value

abbrev pub Fields : Type 0
Fields = Map String Value

abbrev pub col_type_transaction : String
col_type_transaction = "transaction"

abbrev pub col_type_log : String
col_type_log = "log"

abbrev pub col_type_access_list_entry : String
col_type_access_list_entry = "accessListEntry"

abbrev pub filter_mode_blocklist : String
filter_mode_blocklist = "blocklist"

as_string : Option Value → String × Bool
as_string (some (string s)) = (s, true)
as_string _ = ("", false)

field_string : Fields → String → String × Bool
unfolding as_string
field_string fields key = as_string (lookup key fields)

as_uint64 : Option Value → Option ℕ
as_uint64 (some (int64 n)) = some (to_uint64 n)
as_uint64 (some (uint64 n)) = some n
as_uint64 (some (float64 n)) = some n
as_uint64 (some (int n)) = some (to_uint64 n)
as_uint64 _ = none

unfoldable pub field_uint64 : Fields → String → Option ℕ
unfolding as_uint64
field_uint64 fields key = as_uint64 (lookup key fields)

only_strings : List (Option String) → List String
only_strings [] = []
only_strings (none ∷ items) = only_strings items
only_strings (some s ∷ items) = s ∷ only_strings items

as_strings : Option Value → List String
unfolding only_strings
as_strings (some (strings s)) = s
as_strings (some (anys s)) = only_strings s
as_strings _ = []

field_string_slice : Fields → String → List String
unfolding as_strings
field_string_slice fields key = as_strings (lookup key fields)

rest : List String → List String
rest [] = []
rest (topic ∷ topics) = topics

unfoldable pub has_enabled_groups : EventFilterConfig → Bool
has_enabled_groups cfg = any (λ g. g.enabled) cfg.groups

within : Option BlockRangeFilter → Option ℕ → Bool
within none num = true
within (some range) none = true
within (some range) (some num) =
    not (ltb num range.min_block) && not (ltb 0 range.max_block && ltb range.max_block num)

unfoldable pub in_block_range : EventFilterConfig → Fields → Bool
unfolding within field_uint64
in_block_range cfg fields = within cfg.block_range (field_uint64 fields "blockNumber")

unfoldable pub allow_block : EventFilterConfig → Fields → Bool
unfolding within field_uint64
allow_block cfg fields = within cfg.block_range (field_uint64 fields "number")

module _ (fold : String → String) where
  -- `strings.EqualFold`
  abbrev pub equal_fold : String → String → Bool
  equal_fold s t = fold s == fold t

  unfoldable pub contract_applies_to_type : ContractFilter → String → Bool → Bool
  contract_applies_to_type cf col_type cascade =
      any
        (λ t.
          equal_fold t col_type
          || (cascade
              && (equal_fold t col_type_transaction
                  && (col_type == col_type_log || col_type == col_type_access_list_entry))))
        cf.types

  -- A later topic of the filter against the document's topic at its place, if it has one.
  later_topic : String → List String → Bool
  later_topic pattern [] = pattern == ""
  later_topic pattern (topic ∷ topics) = pattern == "" || equal_fold pattern topic

  unfoldable pub topic_filter_matches : TopicFilter → List String → Bool
  unfolding later_topic rest
  topic_filter_matches tf [] = false
  topic_filter_matches tf (topic ∷ topics) =
      not (tf.topic0 == "")
      && (equal_fold tf.topic0 topic
          && (later_topic tf.topic1 topics
              && (later_topic tf.topic2 (rest topics)
                  && later_topic tf.topic3 (rest (rest topics)))))

  contract_matches : Bool → FilterGroup → String → String → Bool
  unfolding contract_applies_to_type
  contract_matches cascade g address col_type =
      not (address == "")
      && any (λ cf. contract_applies_to_type cf col_type cascade && equal_fold cf.address address)
          g.contracts

  topics_match : FilterGroup → List String → String → Bool
  unfolding topic_filter_matches
  topics_match g topics col_type =
      col_type == col_type_log && any (λ tf. topic_filter_matches tf topics) g.topics

  unfoldable pub group_matches : Bool → FilterGroup → String → List String → String → Bool
  unfolding contract_matches topics_match
  group_matches cascade g address topics col_type =
      contract_matches cascade g address col_type || topics_match g topics col_type

  unfoldable pub matches_groups : EventFilterConfig → String → List String → String → Bool
  unfolding group_matches has_enabled_groups
  matches_groups cfg address topics col_type =
      let matched =
        any (λ g. g.enabled && group_matches cfg.cascade_filters g address topics col_type)
          cfg.groups in
      if not (cfg.mode == filter_mode_blocklist)
      then (if not (has_enabled_groups cfg) then true else matched)
      else not matched

  unfoldable pub allow_transaction : EventFilterConfig → Fields → Bool
  unfolding matches_groups field_string
  allow_transaction cfg fields =
      matches_groups cfg (field_string fields "to").0 [] col_type_transaction

  unfoldable pub allow_log : EventFilterConfig → Fields → Bool
  unfolding matches_groups field_string field_string_slice
  allow_log cfg fields =
      matches_groups cfg (field_string fields "address").0 (field_string_slice fields "topics")
        col_type_log

  unfoldable pub allow_access_list_entry : EventFilterConfig → Fields → Bool
  unfolding matches_groups field_string
  allow_access_list_entry cfg fields =
      matches_groups cfg (field_string fields "address").0 [] col_type_access_list_entry

-- The collections by the constants that name them; `unknown` for any other.
pub data Collection : Type 0 where
  block block_signature snapshot_signature transaction log access_list_entry unknown : Collection

module _ (fold : String → String) where
  -- The second switch, behind the block-range gate.
  by_collection : EventFilterConfig → Fields → Collection → Bool
  unfolding allow_transaction allow_log allow_access_list_entry
  by_collection cfg fields transaction = allow_transaction fold cfg fields
  by_collection cfg fields log = allow_log fold cfg fields
  by_collection cfg fields access_list_entry = allow_access_list_entry fold cfg fields
  by_collection cfg fields _ = true

  unfoldable pub allow_replication : EventFilterConfig → Collection → Fields → Bool
  unfolding allow_block in_block_range by_collection
  allow_replication cfg block fields = allow_block cfg fields
  allow_replication cfg block_signature fields = true
  allow_replication cfg snapshot_signature fields = true
  allow_replication cfg collection fields =
      in_block_range cfg fields && by_collection cfg fields collection

-- `none` where filtering is off.
unfoldable pub new_event_replication_filter : EventFilterConfig → Option EventFilterConfig
new_event_replication_filter cfg = if not cfg.enabled then none else some cfg
