-- ===== src/Pruner/Lifecycle.antt =====
-- `Start` and `Stop` of pkg/pruner/pruner.go. The stop channel is made once, by `NewPruner`; closing
-- a closed channel panics. `Stop` waits for the loop, which ends as soon as the channel is closed.
use shinzo_host_client.Prelude.{ℕ, Bool, true, false, not, ◌≡◌, refl, if◌then◌else◌, arith}

pub record Runner : Type 0 where
  pub enabled : Bool
  pub has_node : Bool
  pub is_running : Bool
  pub stop_closed : Bool
  pub loops : ℕ  -- pruning loops that are not over

pub data Stopped : Type 0 where
  stopped : Runner → Stopped
  panic : Stopped

unfoldable pub new_runner : Bool → Bool → Runner
new_runner enabled has_node = record {
  enabled = enabled;
  has_node = has_node;
  is_running = false;
  stop_closed = false;
  loops = 0;
}

-- A loop that starts on a closed channel ends at once.
unfoldable pub start : Runner → Runner
start r =
    if not r.enabled
    then r
    else if not r.has_node
    then r
    else if r.is_running
    then r
    else record r { is_running = true; loops = if r.stop_closed then 0 else 1 }

unfoldable pub stop : Runner → Stopped
stop r =
    if not r.is_running
    then stopped r
    else if r.stop_closed
    then panic
    else stopped (record r { is_running = false; stop_closed = true; loops = 0 })

pub then_restart : Stopped → Stopped
unfolding start stop
then_restart panic = panic
then_restart (stopped r) = stop (start r)

-- A pruner that runs can be stopped once: of every one whose channel is still open the first stop
-- ends its loop, and a start and a stop after it panic, if the pruner is enabled and has a node.
pub stop_once :
    (r : Runner)
    → r.enabled ≡ true
    → r.has_node ≡ true
    → r.is_running ≡ true
    → r.stop_closed ≡ false
    → ((r' : Runner) × (stop r ≡ stopped r') × (r'.loops ≡ 0) × (r'.is_running ≡ false))
      × (then_restart (stop r) ≡ panic)
unfolding then_restart
stop_once r e n run open_ = (
  (record r { is_running = false; stop_closed = true; loops = 0 }, ground arith, refl, refl),
  ground arith,
)
