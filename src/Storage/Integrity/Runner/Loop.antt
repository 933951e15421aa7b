-- ===== src/Storage/Integrity/Runner/Loop.antt =====
-- The claim loop of storage-integrity-task-runner.service.ts (kick, runClaimLoop, onModuleDestroy).
-- JavaScript runs one piece of code between two awaits, so each is one step; `claims` counts the
-- claims that were begun.
use icedr.Prelude.{ℕ, suc, Bool, true, false, not, ◌&&◌, List, [], ◌∷◌, if◌then◌else◌}

-- Where the loop stands: not running, in the await of a claim or of a task, or with its end awaited.
pub data LoopPhase : Type 0 where
  idle claiming running finishing : LoopPhase

pub record RunnerLoop : Type 0 where
  pub destroyed : Bool
  pub requested : Bool
  pub phase : LoopPhase
  pub claims : ℕ

abbrev pub is_idle : LoopPhase → Bool
is_idle idle = true
is_idle _ = false

-- The head of the loop, `while (!this.destroyed)`.
abbrev pub loop_again : RunnerLoop → RunnerLoop
loop_again s =
    if s.destroyed
    then record s { phase = finishing }
    else record s { requested = false; phase = claiming; claims = suc s.claims }

unfoldable pub kick : RunnerLoop → RunnerLoop
kick s =
    if s.destroyed
    then s
    else if is_idle s.phase
    then loop_again (record s { requested = true })
    else record s { requested = true }

-- What the loop waits for. A claim or a task that throws ends the loop.
pub data LoopEvent : Type 0 where
  kicked claimed_task claimed_nothing task_ended threw loop_ended destroys : LoopEvent

abbrev pub after_nothing : RunnerLoop → RunnerLoop
after_nothing s = if not s.requested then record s { phase = finishing } else loop_again s

-- `finally`
abbrev pub after_end : RunnerLoop → RunnerLoop
after_end s =
    if s.requested && not s.destroyed
    then kick (record s { phase = idle })
    else record s { phase = idle }

-- An event that the loop does not wait for does nothing.
unfoldable pub in_phase : LoopEvent → LoopPhase → RunnerLoop → RunnerLoop
unfolding kick
in_phase claimed_task claiming s = record s { phase = running }
in_phase claimed_nothing claiming s = after_nothing s
in_phase task_ended running s = loop_again s
in_phase threw claiming s = record s { phase = finishing }
in_phase threw running s = record s { phase = finishing }
in_phase loop_ended finishing s = after_end s
in_phase kicked phase s = kick s
in_phase destroys phase s = record s { destroyed = true }
in_phase _ _ s = s

unfoldable pub run_loop : List LoopEvent → RunnerLoop → RunnerLoop
unfolding in_phase
run_loop [] s = s
run_loop (e ∷ es) s = run_loop es (in_phase e s.phase s)
