-- ===== src/Host/Attesters/Recent.antt =====
-- A history of observations and snapshots of observedAttesters.go, and what a snapshot shows of it.
use shinzo_host_client.Prelude.{
  ℕ, ◌-◌, ◌≤◌, ◌≡◌, ◌≢◌, ◌⊎◌, ◌∙◌, inl, inr, refl, String, Bool, false, ◌&&◌, ◌||◌, List, [], ◌∷◌,
  ◌==◌, string_eq, ==_iff, leb, Map, insert, contains, arith,
}
use shinzo_host_client.Host.Attesters.{
  ObservedAttesters, new_observed_attesters, observe, kept, live, snapshot,
}

pub data Event : Type 0 where
  observed : String → ℕ → Event
  taken : ℕ → Event

abbrev pub time : Event → ℕ
time (observed id t) = t
time (taken t) = t

-- A history stands with its newest event first; no event is later than this time or than the next.
abbrev pub IsOrdered : ℕ → List Event → Type 0
IsOrdered now [] = Unit
IsOrdered now (e ∷ es) = (time e ≤ now) × IsOrdered (time e) es

-- The attesters after a history.
unfoldable pub after : (List String → List String) → ℕ → List Event → ObservedAttesters
after sort window [] = new_observed_attesters window
after sort window (observed id t ∷ es) = observe id t (after sort window es)
after sort window (taken t ∷ es) = (snapshot sort t (after sort window es)).1

-- The history holds an observation of this identity at this time or later.
unfoldable pub seen_since : ℕ → String → List Event → Bool
seen_since cutoff id [] = false
seen_since cutoff id (observed other t ∷ es) =
    (other == id && leb cutoff t) || seen_since cutoff id es
seen_since cutoff id (taken t ∷ es) = seen_since cutoff id es

has_entry : ℕ → String → Map String ℕ → Bool
has_entry cutoff id [] = false
has_entry cutoff id ((other, t) ∷ entries) =
    (other == id && leb cutoff t) || has_entry cutoff id entries

has_entry-kept :
    (early cutoff : ℕ) (id : String) (entries : Map String ℕ)
    → early ≤ cutoff
    → has_entry cutoff id (kept early entries) ≡ has_entry cutoff id entries
unfolding has_entry kept
has_entry-kept early cutoff id [] h = refl
has_entry-kept early cutoff id ((other, t) ∷ entries) h =
    ground (arith, has_entry-kept early cutoff id entries h)

contains-live :
    (cutoff : ℕ) (id : String) (entries : Map String ℕ)
    → contains (live cutoff entries) id ≡ has_entry cutoff id entries
unfolding contains live has_entry
contains-live cutoff id [] = refl
contains-live cutoff id ((other, t) ∷ entries) = ground (arith, contains-live cutoff id entries)

has_entry-insert :
    (cutoff : ℕ) (id other : String) (t : ℕ) (entries : Map String ℕ)
    → (has_entry cutoff id entries ≡ false) ⊎ (cutoff ≤ t)
    → has_entry cutoff id (insert other t entries)
      ≡ ((other == id && leb cutoff t) || has_entry cutoff id entries)
unfolding has_entry insert
has_entry-insert cutoff id other t [] h = refl
has_entry-insert cutoff id other t ((at, old) ∷ entries) (inr h) = ground (
  arith,
  ==_iff at other,
  ==_iff at id,
  ==_iff other id,
  has_entry-insert cutoff id other t entries (inr h),
)
has_entry-insert cutoff id other t ((at, old) ∷ entries) (inl h) =
    let rest : has_entry cutoff id entries ≡ false = ground (arith, h) in
    ground (
      arith,
      h,
      rest,
      ==_iff at other,
      ==_iff at id,
      ==_iff other id,
      has_entry-insert cutoff id other t entries (inl rest),
    )

seen_since-now :
    (cutoff : ℕ) (id : String) (now : ℕ) (es : List Event)
    → IsOrdered now es
    → (seen_since cutoff id es ≡ false) ⊎ (cutoff ≤ now)
unfolding seen_since
seen_since-now cutoff id now [] h = inl refl
seen_since-now cutoff id now (observed other t ∷ es) h =
    ground (arith, h, seen_since-now cutoff id t es h.1)
seen_since-now cutoff id now (taken t ∷ es) h = ground (arith, h, seen_since-now cutoff id t es h.1)

module _ (sort : List String → List String) (window : ℕ) where
  after-window : (es : List Event) → (after sort window es).window ≡ window
  unfolding after new_observed_attesters observe snapshot
  after-window [] = refl
  after-window (observed id t ∷ es) = ground (arith, after-window es)
  after-window (taken t ∷ es) = after-window es

  has_entry-seen_since :
      (cutoff : ℕ) (id : String) (now : ℕ) (es : List Event)
      → IsOrdered now es
      → now - window ≤ cutoff
      → id ≢ ""
      → has_entry cutoff id (after sort window es).last_seen ≡ seen_since cutoff id es
  unfolding after new_observed_attesters observe snapshot seen_since has_entry
  has_entry-seen_since cutoff id now [] h c n = refl
  has_entry-seen_since cutoff id now (observed other t ∷ es) h c n =
      let rest = has_entry-seen_since cutoff id t es h.1 (omega (arith, h, c)) n in
      let since = seen_since-now cutoff id t es h.1 in
      ground (
        arith,
        rest,
        since,
        ==_iff other id,
        ==_iff other "",
        has_entry-insert cutoff id other t (after sort window es).last_seen
            (ground (arith, since, rest)),
      )
  has_entry-seen_since cutoff id now (taken t ∷ es) h c n =
      let rest = has_entry-seen_since cutoff id t es h.1 (omega (arith, h, c)) n in
      has_entry-kept (t - (after sort window es).window) cutoff id (after sort window es).last_seen
        (rw (after-window es) (omega (arith, h, c)))
      ∙ rest

  -- Let sorting keep what a list contains. After a history in which no event is later than the next
  -- or than now, and whatever snapshots it has taken, a snapshot holds an identity that is not empty
  -- exactly when the history observes it within the window.
  pub snapshot-seen_since :
      (now : ℕ) (es : List Event) (id : String)
      → ((l : List String) (s : String) → contains (sort l) s ≡ contains l s)
      → IsOrdered now es
      → id ≢ ""
      → contains (snapshot sort now (after sort window es)).0 id ≡ seen_since (now - window) id es
  unfolding snapshot
  snapshot-seen_since now es id keeps ordered n =
      keeps (live (now - (after sort window es).window) (after sort window es).last_seen) id
      ∙ contains-live (now - (after sort window es).window) id (after sort window es).last_seen
      ∙ rw (after-window es) (has_entry-seen_since (now - window) id now es ordered (omega arith) n)
