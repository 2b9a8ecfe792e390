-- ===== src/Pruner/Persist/Atomic.antt =====
-- Saving is atomic, and loading brings back what was saved.
use shinzo_host_client.Prelude.{
  ℕ, String, Bool, true, false, Option, none, some, List, [], ◌∷◌, ◌==◌, nat_eq, string_eq, length,
  ◌≡◌, ◌≢◌, refl, ◌⊎◌, inl, inr, ap, ◌∙◌, Bool-cases, Map, arith,
}
use shinzo_host_client.Pruner.DocId.{Bytes, prefix_text, capture}
use shinzo_host_client.Pruner.Queue.{Entry, EventQueue, Store}
use shinzo_host_client.Pruner.Persist.{
  saved, Files, Fault, none_fails, create_fails, encode_fails, close_fails, rename_fails, snapshot,
  write_snapshot, save_at, save, merge_names, capture_saved, restore, set_path, load_from_file,
}

abbrev pub IsAtomic : Bool × Files → Store → Files → Type 0
IsAtomic out s f =
    ((out.1.target ≡ f.target)
      ⊎ ((out.1.target ≡ some (saved (snapshot s))) ⊎ ((out.1.target ≡ none) × (s.entries ≡ []))))
    × ((out.0 ≡ true) ⊎ (out.1.target ≡ f.target))

write_snapshot-IsAtomic :
    (fault : Fault) (s : Store) (f : Files) → IsAtomic (write_snapshot fault (snapshot s) f) s f
unfolding write_snapshot
write_snapshot-IsAtomic none_fails s f = (inr (inl refl), inl refl)
write_snapshot-IsAtomic create_fails s f = (inl refl, inr refl)
write_snapshot-IsAtomic encode_fails s f = (inl refl, inr refl)
write_snapshot-IsAtomic close_fails s f = (inl refl, inr refl)
write_snapshot-IsAtomic rename_fails s f = (inl refl, inr refl)

empty_of_length : (es : List Entry) → (length es == 0) ≡ true → es ≡ []
empty_of_length [] h = refl
empty_of_length (e ∷ es) h = ground arith

save_at-IsAtomic :
    (path : Option Bytes) (fault : Fault) (s : Store) (f : Files)
    → IsAtomic (save_at path fault s f) s f
unfolding save_at
save_at-IsAtomic none fault s f = (inl refl, inr refl)
save_at-IsAtomic (some path) fault s f = elim (Bool-cases (length s.entries == 0)) [
  | inl h ↦ rw h (inr (inr (refl, empty_of_length s.entries h)), inl refl)
  | inr h ↦ rw h (write_snapshot-IsAtomic fault s f)
]

-- Whatever system call fails, the file at the queue's path is afterwards what it was, or a complete
-- snapshot of the queue, or gone, and gone only if the queue is empty; a save that does not report
-- success leaves it as it was.
pub save-IsAtomic : (fault : Fault) (s : Store) (f : Files) → IsAtomic (save fault s f) s f
unfolding save
save-IsAtomic fault s f = save_at-IsAtomic s.file_path fault s f

merge_names-entries :
    (names : Map ℕ String) (q : EventQueue)
    → ((merge_names names q).entries ≡ q.entries)
      × ((merge_names names q).block_count ≡ q.block_count)
unfolding merge_names
merge_names-entries [] q = (refl, refl)
merge_names-entries ((k, v) ∷ names) q = merge_names-entries names _

not_empty : (es : List Entry) → es ≢ [] → (length es == 0) ≡ false
not_empty [] h = absurd (h refl)
not_empty (e ∷ es) h = ground arith

save_at_writes :
    (path : Bytes) (s : Store) (f : Files)
    → s.entries ≢ []
    → (save_at (some path) none_fails s f).1.target ≡ some (saved (snapshot s))
unfolding save_at
save_at_writes path s f h = rw (not_empty s.entries h)

capture_saved_fresh :
    (x y : Option Bytes) (b : ℕ) (p : Bytes)
    → x ≡ none
    → y ≡ some (b ∷ p)
    → capture_saved x (prefix_text y) ≡ y
unfolding capture_saved capture prefix_text
capture_saved_fresh x y b p hx hy = rw (hx, hy)

restore-snapshot :
    (s t : Store) (b : ℕ) (p : Bytes)
    → s.prefix ≡ some (b ∷ p)
    → t.prefix ≡ none
    → ((restore (some (saved (snapshot s))) t).0 ≡ some (length s.entries))
      × ((restore (some (saved (snapshot s))) t).1.entries ≡ s.entries)
      × ((restore (some (saved (snapshot s))) t).1.block_count ≡ s.block_count)
      × ((restore (some (saved (snapshot s))) t).1.prefix ≡ s.prefix)
unfolding restore snapshot
restore-snapshot s t b p captured fresh =
    let merged =
      merge_names-entries s.collection_names
        (record t.queue { entries = s.entries; block_count = s.block_count }) in
    (refl, merged.0, merged.1, capture_saved_fresh t.prefix s.prefix b p fresh captured)

-- A queue that is not empty, saved with no failure and loaded into any store whose prefix is not
-- captured yet, comes back: the number of its entries is returned, the loaded store has its
-- entries, its block counter and its prefix, if that is not empty.
pub load_from_file-save :
    (path : Bytes) (s t : Store) (f : Files) (b : ℕ) (p : Bytes)
    → s.file_path ≡ some path
    → s.entries ≢ []
    → s.prefix ≡ some (b ∷ p)
    → t.prefix ≡ none
    → ((load_from_file false path (save none_fails s f).1 t).0 ≡ some (length s.entries))
      × ((load_from_file false path (save none_fails s f).1 t).1.entries ≡ s.entries)
      × ((load_from_file false path (save none_fails s f).1 t).1.block_count ≡ s.block_count)
      × ((load_from_file false path (save none_fails s f).1 t).1.prefix ≡ s.prefix)
load_from_file-save path s t f b p hp h captured fresh =
    let written : (save none_fails s f).1.target ≡ some (saved (snapshot s)) =
      unfold save in
      ap (λ fp. (save_at fp none_fails s f).1.target) hp ∙ save_at_writes path s f h in
    unfold load_from_file in rw written (restore-snapshot s (set_path path t) b p captured fresh)
