-- ===== src/Snapshot/Bootstrap/Covering.antt =====
-- Which snapshots are found to be needed: snapshot_bootstrap.go.
pub mod Blocks
use shinzo_host_client.Prelude.{
  ◌≡◌, ◌∙◌, refl, String, Bool, true, false, not, ◌&&◌, ◌||◌, List, [], ◌∷◌, ◌++◌, ◌==◌, string_eq,
  ==_iff, contains, All, All-map, any, arith, inl, inr, Bool-cases,
}
use shinzo_host_client.Prelude.Int.{ℤ}
use shinzo_host_client.Snapshot.Bootstrap.{
  Info, BlockRange, overlaps, is_stored, Found, consider, consider_all, consider_ranges,
  find_covering_snapshots,
}

any-snoc : (p : Info → Bool) (xs : List Info) (x : Info) → any p (xs ++ x ∷ []) ≡ (any p xs || p x)
unfolding any
any-snoc p [] x = ground arith
any-snoc p (y ∷ xs) x = ground (arith, any-snoc p xs x)

abbrev pub is_named : String → Info → Bool
is_named name snap = snap.filename == name

module _ (existing : ℤ × ℤ) where
  -- A signed snapshot that overlaps the range, and whose own range is not within the stored one.
  unfoldable pub is_wanted : BlockRange → Info → Bool
  is_wanted r snap = overlaps r snap && snap.is_signed && not (is_stored existing snap)

  -- A snapshot of this name is wanted for one of the ranges.
  abbrev pub is_offered : List Info → List BlockRange → String → Bool
  is_offered available ranges name =
      any (λ r. any (λ s. is_named name s && is_wanted r s) available) ranges

  consider-seen :
      (r : BlockRange) (snap : Info) (found : Found) (name : String)
      → contains (consider existing r snap found).1 name
        ≡ (contains found.1 name || (is_named name snap && is_wanted r snap))
  unfolding consider is_wanted contains
  consider-seen r snap (needed, seen) name = elim (Bool-cases (snap.filename == name)) [
    | inl e ↦ ground (arith, (==_iff snap.filename name).0 e)
    | inr e ↦ ground arith
  ]

  consider_all-seen :
      (r : BlockRange) (available : List Info) (found : Found) (name : String)
      → contains (consider_all existing r available found).1 name
        ≡ (contains found.1 name || any (λ s. is_named name s && is_wanted r s) available)
  unfolding consider_all any
  consider_all-seen r [] found name = ground arith
  consider_all-seen r (snap ∷ available) found name = ground (
    arith,
    consider_all-seen r available (consider existing r snap found) name,
    consider-seen r snap found name,
  )

  consider_ranges-seen :
      (available : List Info) (ranges : List BlockRange) (found : Found) (name : String)
      → contains (consider_ranges existing available ranges found).1 name
        ≡ (contains found.1 name || is_offered available ranges name)
  unfolding consider_ranges any
  consider_ranges-seen available [] found name = ground arith
  consider_ranges-seen available (r ∷ ranges) found name = ground (
    arith,
    consider_ranges-seen available ranges (consider_all existing r available found) name,
    consider_all-seen r available found name,
  )

  -- The file names seen are those of the snapshots needed.
  abbrev IsKept : Found → Type 0
  IsKept found = (name : String) → any (is_named name) found.0 ≡ contains found.1 name

  consider-IsKept :
      (r : BlockRange) (snap : Info) (found : Found)
      → IsKept found
      → IsKept (consider existing r snap found)
  unfolding consider contains
  consider-IsKept r snap (needed, seen) k name =
      ground (arith, k name, any-snoc (is_named name) needed snap)

  consider_all-IsKept :
      (r : BlockRange) (available : List Info) (found : Found)
      → IsKept found
      → IsKept (consider_all existing r available found)
  unfolding consider_all
  consider_all-IsKept r [] found k = k
  consider_all-IsKept r (snap ∷ available) found k =
      consider_all-IsKept r available (consider existing r snap found)
        (consider-IsKept r snap found k)

  consider_ranges-IsKept :
      (available : List Info) (ranges : List BlockRange) (found : Found)
      → IsKept found
      → IsKept (consider_ranges existing available ranges found)
  unfolding consider_ranges
  consider_ranges-IsKept available [] found k = k
  consider_ranges-IsKept available (r ∷ ranges) found k =
      consider_ranges-IsKept available ranges (consider_all existing r available found)
        (consider_all-IsKept r available found k)

  -- What is needed passes a test that all wanted snapshots pass.
  module _ (test : Info → Bool) where
    abbrev IsTested : Found → Type 0
    IsTested found = any (λ s. not (test s)) found.0 ≡ false

    consider-IsTested :
        (r : BlockRange) (snap : Info) (found : Found)
        → (is_wanted r snap ≡ true → test snap ≡ true)
        → IsTested found
        → IsTested (consider existing r snap found)
    unfolding consider is_wanted
    consider-IsTested r snap (needed, seen) passes t =
        ground (arith, passes, any-snoc (λ s. not (test s)) needed snap)

    consider_all-IsTested :
        (r : BlockRange) (available : List Info) (found : Found)
        → All (λ s. is_wanted r s ≡ true → test s ≡ true) available
        → IsTested found
        → IsTested (consider_all existing r available found)
    unfolding consider_all
    consider_all-IsTested r [] found passes t = t
    consider_all-IsTested r (snap ∷ available) found (passes, rest) t =
        consider_all-IsTested r available (consider existing r snap found) rest
          (consider-IsTested r snap found passes t)

    consider_ranges-IsTested :
        (available : List Info) (ranges : List BlockRange) (found : Found)
        → All (λ s. any (λ r. is_wanted r s) ranges ≡ true → test s ≡ true) available
        → IsTested found
        → IsTested (consider_ranges existing available ranges found)
    unfolding consider_ranges any
    consider_ranges-IsTested available [] found passes t = t
    consider_ranges-IsTested available (r ∷ ranges) found passes t =
        consider_ranges-IsTested available ranges (consider_all existing r available found)
          (All-map _ (λ s. any (λ r. is_wanted r s) ranges ≡ true → test s ≡ true) available
            (λ s f h. f (ground (arith, h))) passes)
          (consider_all-IsTested r available found
            (All-map _ (λ s. is_wanted r s ≡ true → test s ≡ true) available
              (λ s f h. f (ground (arith, h))) passes)
            t)

    -- What is found passes it too, if sorting keeps what a list contains.
    pub find_covering_snapshots-tested :
        (sort : List Info → List Info) (available : List Info) (ranges : List BlockRange)
        → ((p : Info → Bool) (found : List Info) → any p (sort found) ≡ any p found)
        → All (λ s. any (λ r. is_wanted r s) ranges ≡ true → test s ≡ true) available
        → any (λ s. not (test s)) (find_covering_snapshots sort available ranges existing) ≡ false
    unfolding find_covering_snapshots any
    find_covering_snapshots-tested sort available ranges keeps passes =
        keeps (λ s. not (test s)) _ ∙ consider_ranges-IsTested available ranges ([], []) passes refl

  -- A snapshot of a name is found exactly when one of this name is wanted.
  pub find_covering_snapshots-named :
      (sort : List Info → List Info) (available : List Info) (ranges : List BlockRange)
      → ((p : Info → Bool) (found : List Info) → any p (sort found) ≡ any p found)
      → (name : String)
      → any (is_named name) (find_covering_snapshots sort available ranges existing)
        ≡ is_offered available ranges name
  unfolding find_covering_snapshots contains any
  find_covering_snapshots-named sort available ranges keeps name =
      keeps (is_named name) _
      ∙ consider_ranges-IsKept available ranges ([], []) (λ n. refl) name
      ∙ consider_ranges-seen available ranges ([], []) name
