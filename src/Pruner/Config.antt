-- ===== src/Pruner/Config.antt =====
-- pkg/pruner/config.go: which collections are pruned, and how many documents are kept.
use shinzo_host_client.Prelude.{String, Bool, List, [], ◌∷◌, if◌then◌else◌}
use shinzo_host_client.Prelude.Int.{ℤ, pos, ◌*ℤ◌, leb_ℤ, wrap64}

-- `MaxBlocks` is an int64, the others an int, of 64 bits too.
pub record Config : Type 0 where
  pub enabled : Bool
  pub max_blocks : ℤ
  pub docs_per_block : ℤ
  pub prune_threshold : ℤ
  pub interval_seconds : ℤ
  pub prune_history : Bool

pub record CollectionConfig : Type 0 where
  pub block_collection : String
  pub block_number_field : String
  pub dependent_collections : List String

unfoldable pub default_collection_config : CollectionConfig
default_collection_config = record {
  block_collection = "Ethereum__Mainnet__Block";
  block_number_field = "number";
  dependent_collections =
      "Ethereum__Mainnet__BatchSignature" ∷ "Ethereum__Mainnet__AccessListEntry"
      ∷ "Ethereum__Mainnet__Log" ∷ "Ethereum__Mainnet__Transaction"
      ∷ "Ethereum__Mainnet__BlockSignature" ∷ "Ethereum__Mainnet__AttestationRecord" ∷ [];
}

unfoldable pub max_docs : Config → ℤ
max_docs c = wrap64 (c.max_blocks *ℤ c.docs_per_block)

positive_or : ℤ → ℤ → ℤ
positive_or n default = if leb_ℤ n (pos 0) then default else n

unfoldable pub set_defaults : Config → Config
unfolding positive_or
set_defaults c = record c {
  max_blocks = positive_or c.max_blocks (pos 10000);
  docs_per_block = positive_or c.docs_per_block (pos 1000);
  interval_seconds = positive_or c.interval_seconds (pos 60);
}
