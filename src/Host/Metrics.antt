-- ===== src/Host/Metrics.antt =====
-- pkg/server/metrics.go: the host's counters. A counter is the 64-bit word of an `int64`; times and
-- the bits of a `float64` are words that the callers give.
use shinzo_host_client.Prelude.{
  ℕ, ◌+◌, ◌%◌, ◌^◌, String, Option, none, some, ◌==◌, string_eq, if◌then◌else◌, leb,
}

pub record HostMetrics : Type 0 where
  pub attestations_created : ℕ
  pub attestation_errors : ℕ
  pub signature_verifications : ℕ
  pub signature_failures : ℕ
  pub block_sig_events_received : ℕ
  pub documents_received : ℕ
  pub blocks_processed : ℕ
  pub transactions_processed : ℕ
  pub logs_processed : ℕ
  pub access_lists_processed : ℕ
  pub block_signatures_processed : ℕ
  pub views_registered : ℕ
  pub views_active : ℕ
  pub last_processing_time_bits : ℕ
  pub start_time : ℕ
  pub last_document_time : ℕ
  pub most_recent_block : ℕ

unfoldable pub new_host_metrics : ℕ → HostMetrics
new_host_metrics now = record {
  attestations_created = 0;
  attestation_errors = 0;
  signature_verifications = 0;
  signature_failures = 0;
  block_sig_events_received = 0;
  documents_received = 0;
  blocks_processed = 0;
  transactions_processed = 0;
  logs_processed = 0;
  access_lists_processed = 0;
  block_signatures_processed = 0;
  views_registered = 0;
  views_active = 0;
  last_processing_time_bits = 0;
  start_time = now;
  last_document_time = 0;
  most_recent_block = 0;
}

-- `atomic.AddInt64(_, 1)`
unfoldable pub add1 : ℕ → ℕ
add1 n = (n + 1) % 2 ^ 64

unfoldable pub increment_attestations_created : HostMetrics → HostMetrics
unfolding add1
increment_attestations_created m = record m { attestations_created = add1 m.attestations_created }

unfoldable pub increment_attestation_errors : HostMetrics → HostMetrics
unfolding add1
increment_attestation_errors m = record m { attestation_errors = add1 m.attestation_errors }

unfoldable pub increment_signature_verifications : HostMetrics → HostMetrics
unfolding add1
increment_signature_verifications m = record m {
  signature_verifications = add1 m.signature_verifications;
}

unfoldable pub increment_signature_failures : HostMetrics → HostMetrics
unfolding add1
increment_signature_failures m = record m { signature_failures = add1 m.signature_failures }

unfoldable pub increment_block_sig_events_received : HostMetrics → HostMetrics
unfolding add1
increment_block_sig_events_received m = record m {
  block_sig_events_received = add1 m.block_sig_events_received;
}

unfoldable pub increment_documents_received : ℕ → HostMetrics → HostMetrics
unfolding add1
increment_documents_received now m = record m {
  documents_received = add1 m.documents_received;
  last_document_time = now;
}

unfoldable pub increment_document_by_type : String → HostMetrics → HostMetrics
unfolding add1
increment_document_by_type t m =
    if t == "Ethereum__Mainnet__Block"
    then record m { blocks_processed = add1 m.blocks_processed }
    else if t == "Ethereum__Mainnet__Transaction"
    then record m { transactions_processed = add1 m.transactions_processed }
    else if t == "Ethereum__Mainnet__Log"
    then record m { logs_processed = add1 m.logs_processed }
    else if t == "Ethereum__Mainnet__AccessListEntry"
    then record m { access_lists_processed = add1 m.access_lists_processed }
    else if t == "Ethereum__Mainnet__BlockSignature"
    then record m { block_signatures_processed = add1 m.block_signatures_processed }
    else m

unfoldable pub increment_views_registered : HostMetrics → HostMetrics
unfolding add1
increment_views_registered m = record m { views_registered = add1 m.views_registered }

unfoldable pub set_views_active : ℕ → HostMetrics → HostMetrics
set_views_active count m = record m { views_active = count }

unfoldable pub update_last_processing_time : ℕ → HostMetrics → HostMetrics
update_last_processing_time bits m = record m { last_processing_time_bits = bits }

-- The loop, as the one step that its compare-and-swap makes of it.
unfoldable pub update_most_recent_block : ℕ → HostMetrics → HostMetrics
update_most_recent_block block_number m =
    if leb block_number m.most_recent_block
    then m
    else record m { most_recent_block = block_number }

-- A host may have no metrics.
abbrev pub counted : (HostMetrics → HostMetrics) → Option HostMetrics → Option HostMetrics
counted update none = none
counted update (some m) = some (update m)
