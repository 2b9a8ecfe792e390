-- ===== src/Snapshot/Bootstrap/Covering/Blocks.antt =====
-- Which snapshots are found, by their blocks: snapshot_bootstrap.go.
use shinzo_host_client.Prelude.{
  ◌≡◌, ◌↔◌, ◌⊎◌, inl, inr, String, Bool, true, false, not, ◌&&◌, List, [], ◌∷◌, string_eq, ==_iff,
  All, Any, any, any-Any_on, All-map, arith, Bool-cases,
}
use shinzo_host_client.Prelude.Int.{ℤ, pos, ◌≤ℤ◌, ◌<ℤ◌, leb_ℤ, ltb_ℤ}
use shinzo_host_client.Snapshot.Bootstrap.{
  Info, BlockRange, overlaps, is_stored, find_covering_snapshots,
}
use shinzo_host_client.Snapshot.Bootstrap.Covering.{
  is_named, is_wanted, find_covering_snapshots-tested, find_covering_snapshots-named,
}

abbrev pub InRange : BlockRange → ℤ → Type 0
InRange r n = (r.start ≤ℤ n) × (n ≤ℤ r.end)

abbrev pub InSnapshot : Info → ℤ → Type 0
InSnapshot snap n = (snap.start_block ≤ℤ n) × (n ≤ℤ snap.end_block)

-- A snapshot that is signed, has a block in common with the range, and has a block outside of the
-- lowest and the highest stored block; the highest is not positive where no blocks are stored.
abbrev pub IsWanted : ℤ × ℤ → BlockRange → Info → Type 0
IsWanted existing r snap =
    (snap.is_signed ≡ true)
    × ((n : ℤ) × InRange r n × InSnapshot snap n)
    × ((existing.1 ≤ℤ pos 0)
        ⊎ ((n : ℤ) × InSnapshot snap n × ((n <ℤ existing.0) ⊎ (existing.1 <ℤ n))))

overlaps-common :
    (r : BlockRange) (snap : Info)
    → r.start ≤ℤ r.end
    → snap.start_block ≤ℤ snap.end_block
    → (overlaps r snap ≡ true) ↔ ((n : ℤ) × InRange r n × InSnapshot snap n)
unfolding overlaps
overlaps-common r snap a b = (
  λ h. elim (Bool-cases (leb_ℤ r.start snap.start_block)) [
    | inl later ↦ (
      snap.start_block,
      (ground (arith, later), ground (arith, h)),
      (omega arith, omega (arith, b)),
    )
    | inr earlier ↦
        (r.start, (omega arith, omega (arith, a)), (ground (arith, earlier), ground (arith, h)))
  ],
  λ common. let (n, (low, high), (low', high')) = common in ground (arith, low, high, low', high'),
)

is_stored-outside :
    (existing : ℤ × ℤ) (snap : Info)
    → snap.start_block ≤ℤ snap.end_block
    → (is_stored existing snap ≡ false) ↔ (
        (existing.1 ≤ℤ pos 0)
        ⊎ ((n : ℤ) × InSnapshot snap n × ((n <ℤ existing.0) ⊎ (existing.1 <ℤ n))))
unfolding is_stored
is_stored-outside (low, high) snap b = (
  λ h. elim (Bool-cases (ltb_ℤ (pos 0) high)) [
    | inr empty ↦ inl (ground (arith, empty))
    | inl some_block ↦ elim (Bool-cases (leb_ℤ low snap.start_block)) [
      | inr below ↦
          inr (snap.start_block, (omega arith, omega (arith, b)), inl (ground (arith, below)))
      | inl within ↦ inr (
        snap.end_block,
        (omega (arith, b), omega arith),
        inr (ground (arith, h, some_block, within)),
      )
    ]
  ],
  λ outside. elim outside [
    | inl empty ↦ ground (arith, empty)
    | inr (n, (from, to), inl below) ↦ ground (arith, from, to, below)
    | inr (n, (from, to), inr above) ↦ ground (arith, from, to, above)
  ],
)

is_wanted-IsWanted :
    (existing : ℤ × ℤ) (r : BlockRange) (snap : Info)
    → r.start ≤ℤ r.end
    → snap.start_block ≤ℤ snap.end_block
    → (is_wanted existing r snap ≡ true) ↔ IsWanted existing r snap
unfolding is_wanted
is_wanted-IsWanted existing r snap a b =
    let common = overlaps-common r snap a b in
    let outside = is_stored-outside existing snap b in
    (
      λ h. (ground (arith, h), common.0 (ground (arith, h)), outside.0 (ground (arith, h))),
      λ w.
          let (signed, block, other) = w in ground (arith, signed, common.1 block, outside.1 other),
    )

any-All :
    (test : Info → Bool) (found : List Info)
    → any (λ s. not (test s)) found ≡ false
    → All (λ s. test s ≡ true) found
unfolding any
any-All test [] h = tt
any-All test (s ∷ found) h = (ground (arith, h), any-All test found (ground (arith, h)))

-- If sorting keeps what a list contains, and the ranges and the snapshots are not empty, a snapshot of
-- a name is found exactly when one of this name is available that is signed, has a block in common with
-- a range, and has a block below the lowest or above the highest stored block, unless the highest one
-- is not positive; and every snapshot found is one that is signed, with such blocks.
pub find_covering_snapshots-blocks :
    (existing : ℤ × ℤ) (sort : List Info → List Info) (available : List Info)
    (ranges : List BlockRange)
    → ((p : Info → Bool) (found : List Info) → any p (sort found) ≡ any p found)
    → All (λ r. r.start ≤ℤ r.end) ranges
    → All (λ s. s.start_block ≤ℤ s.end_block) available
    → (name : String)
    → ((any (is_named name) (find_covering_snapshots sort available ranges existing) ≡ true)
        ↔ Any (λ r. Any (λ s. (s.filename ≡ name) × IsWanted existing r s) available) ranges)
      × All
          (λ s. Any (λ r. IsWanted existing r s) ranges)
          (find_covering_snapshots sort available ranges existing)
find_covering_snapshots-blocks existing sort available ranges keeps some_blocks some_own name = (
  rw (find_covering_snapshots-named existing sort available ranges keeps name) (
      any-Any_on _ _ ranges (
        All-map _ _ ranges
          (λ r a.
            any-Any_on (λ s. is_named name s && is_wanted existing r s) _ available
              (All-map _ _ available
                (λ s b.
                  let decides = is_wanted-IsWanted existing r s a b in
                  (
                    λ h. (
                      (==_iff s.filename name).0 (ground (arith, h)),
                      decides.0 (ground (arith, h)),
                    ),
                    λ w. ground (arith, (==_iff s.filename name).1 w.0, decides.1 w.1),
                  ))
                some_own))
          some_blocks)),
  All-map _ _ (find_covering_snapshots sort available ranges existing)
      (λ s h.
        (any-Any_on (λ r. is_wanted existing r s) _ ranges
            (All-map _ _ ranges (λ r a. is_wanted-IsWanted existing r s a (ground (arith, h)))
              some_blocks)).0
          (ground (arith, h)))
      (any-All (λ s. any (λ r. is_wanted existing r s) ranges && leb_ℤ s.start_block s.end_block)
        (find_covering_snapshots sort available ranges existing)
        (find_covering_snapshots-tested existing
          (λ s. any (λ r. is_wanted existing r s) ranges && leb_ℤ s.start_block s.end_block) sort
          available ranges keeps (All-map _ _ available (λ s b h. ground (arith, b, h)) some_own))),
)
