-- ===== src/Host/Attesters.antt =====
-- pkg/host/observedAttesters.go: the indexers seen attesting, with the time of the last observation.
-- A time is a count of nanoseconds, and `sort` is the library's sort of strings.
pub mod Recent
use shinzo_host_client.Prelude.{
  ℕ, ◌-◌, String, Bool, true, false, not, List, [], ◌∷◌, ◌==◌, string_eq, if◌then◌else◌, ltb, Map,
  insert,
}

-- `DefaultAttesterWindow`: five minutes.
unfoldable pub default_attester_window : ℕ
default_attester_window = 300000000000

pub record ObservedAttesters : Type 0 where
  pub window : ℕ
  pub last_seen : Map String ℕ

unfoldable pub new_observed_attesters : ℕ → ObservedAttesters
new_observed_attesters window = record { window = window; last_seen = [] }

unfoldable pub observe : String → ℕ → ObservedAttesters → ObservedAttesters
observe identity now o =
    if identity == "" then o else record o { last_seen = insert identity now o.last_seen }

-- The entries that the loop leaves in the map.
unfoldable pub kept : ℕ → Map String ℕ → Map String ℕ
kept cutoff [] = []
kept cutoff ((id, seen) ∷ entries) =
    let rest = kept cutoff entries in if ltb seen cutoff then rest else (id, seen) ∷ rest

-- The identities that the loop collects.
unfoldable pub live : ℕ → Map String ℕ → List String
live cutoff [] = []
live cutoff ((id, seen) ∷ entries) =
    let rest = live cutoff entries in if ltb seen cutoff then rest else id ∷ rest

unfoldable pub snapshot :
    (List String → List String) → ℕ → ObservedAttesters → List String × ObservedAttesters
unfolding kept live
snapshot sort now o =
    let cutoff = now - o.window in
    (sort (live cutoff o.last_seen), record o { last_seen = kept cutoff o.last_seen })
