-- ===== src/Pruner/Queue/Invariant.antt =====
-- What holds of the queue between two calls: the block counter counts the block entries, the
-- packed IDs have 16 bytes, and the captured prefix holds no dash.
use shinzo_host_client.Prelude.{
  ℕ, ◌+◌, ◌≡◌, refl, sym, ◌∙◌, String, Option, none, some, List, [], ◌∷◌, ◌==◌, nat_eq, string_eq,
  length, take, drop, count_p, count_p-append, count_p-take-drop, All, All-append, All-drop, lookup,
  arith, Bool-cases, inl, inr, ap,
}
use shinzo_host_client.Prelude.Int.{ℤ, pos, ◌+ℤ◌, ◌-ℤ◌, leb_ℤ}
use shinzo_host_client.Pruner.Config.{CollectionConfig}
use shinzo_host_client.Pruner.DocId.{Bytes, Result, ok, err}
use shinzo_host_client.Pruner.DocId.RoundTrip.{IsUuid, IsPrefix}
use shinzo_host_client.Pruner.DocId.Bounds.{extract_uuid-cases}
use shinzo_host_client.Pruner.Queue.{
  Entry, EventQueue, Store, is_block, blocks, register, register_all, new_event_queue, append_entry,
  push, clamp, empty_queue, known_collections, drain, drain_docs,
}

abbrev pub HasUuid : Entry → Type 0
HasUuid e = IsUuid e.uuid

pub record IsValid (s : Store) : Type 0 where
  pub counted : s.block_count ≡ pos (blocks s.entries)
  pub uuids : All HasUuid s.entries
  pub prefix_ok : IsPrefix s.prefix

register-entries :
    (name : String) (o : Option ℕ) (q : EventQueue)
    → ((register name o q).entries ≡ q.entries) × ((register name o q).block_count ≡ q.block_count)
unfolding register
register-entries name none q = (refl, refl)
register-entries name (some enum) q = (refl, refl)

register_all-entries :
    (names : List String) (q : EventQueue)
    → ((register_all names q).entries ≡ q.entries)
      × ((register_all names q).block_count ≡ q.block_count)
unfolding register_all
register_all-entries [] q = (refl, refl)
register_all-entries (name ∷ names) q =
    let o = lookup name known_collections in
    let (a, b) = register_all-entries names (register name o q) in
    let (c, d) = register-entries name o q in (a ∙ c, b ∙ d)

-- A new queue is valid under any captured prefix that holds no dash.
pub new_event_queue-IsValid :
    (c : CollectionConfig) (prefix : Option Bytes)
    → IsPrefix prefix
    → IsValid (record { prefix = prefix; queue = new_event_queue c })
unfolding new_event_queue count_p
new_event_queue-IsValid c prefix h =
    let (a, b) = register_all-entries c.dependent_collections (empty_queue c) in
    record { counted = b ∙ ap (λ es. pos (blocks es)) (sym a); uuids = rw a tt; prefix_ok = h }

append_entry-uuids :
    (r : Result Bytes) (col : Option ℕ) (q : EventQueue)
    → ((u : Bytes) → r ≡ ok u → IsUuid u)
    → All HasUuid q.entries
    → All HasUuid (append_entry r col q).entries
unfolding append_entry
append_entry-uuids (err x) col q hu h = h
append_entry-uuids (ok u) none q hu h = h
append_entry-uuids (ok u) (some col) q hu h = All-append HasUuid q.entries _ h (hu u refl, tt)

append_entry-counted :
    (r : Result Bytes) (col : Option ℕ) (q : EventQueue)
    → q.block_count ≡ pos (blocks q.entries)
    → (append_entry r col q).block_count ≡ pos (blocks (append_entry r col q).entries)
unfolding append_entry count_p ◌+ℤ◌
append_entry-counted (err x) col q h = h
append_entry-counted (ok u) none q h = h
append_entry-counted (ok u) (some col) q h =
    ground (arith, count_p-append is_block q.entries (record { collection = col; uuid = u } ∷ []))

-- Adding a document keeps the queue valid, whatever its ID and its collection are.
pub push-IsValid :
    (name : String) (doc_id : Bytes) (s : Store) → IsValid s → IsValid (push name doc_id s)
unfolding push
push-IsValid name doc_id s v =
    let (uuid_ok, prefix_ok) = extract_uuid-cases s.prefix doc_id v.prefix_ok in
    record {
      counted = append_entry-counted _ (lookup name s.collection_enums) s.queue v.counted;
      uuids = append_entry-uuids _ (lookup name s.collection_enums) s.queue uuid_ok v.uuids;
      prefix_ok = prefix_ok;
    }

pub drain-IsValid :
    (n seen : ℕ) (s : Store)
    → blocks (take n s.entries) ≡ seen
    → IsValid s
    → IsValid (drain n seen s).1
unfolding drain ◌-ℤ◌
drain-IsValid n seen s e v = record {
  counted =
      let total : blocks (take n s.entries) + blocks (drop n s.entries) ≡ blocks s.entries =
        count_p-take-drop is_block n s.entries in
      ground (arith, v.counted);
  uuids = All-drop HasUuid n s.entries v.uuids;
  prefix_ok = v.prefix_ok;
}

-- Draining documents keeps the queue valid, whatever the count is.
pub drain_docs-IsValid : (count : ℤ) (s : Store) → IsValid s → IsValid (drain_docs count s).1
unfolding drain_docs
drain_docs-IsValid count s v = elim (Bool-cases (length s.entries == 0)) [
  | inl e ↦ rw e v
  | inr e ↦ rw e (elim (Bool-cases (leb_ℤ count (pos 0))) [
    | inl f ↦ rw f v
    | inr f ↦ rw f (drain-IsValid (clamp count (length s.entries)) _ s refl v)
  ])
]
