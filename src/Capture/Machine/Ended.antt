-- ===== src/Capture/Machine/Ended.antt =====
-- The order of the states, and what holds once a capture has ended.
use tracy_query.Prelude.{ℕ, ◌≡◌, Bool, true, false, not, Option, none, some, ◌==◌}
use tracy_query.Capture.Coordinator.{
  State, unconfigured, configured, capturing, finishing, finished, failed, discarded, Status,
  Coordinator,
}
use tracy_query.Capture.Turns.{After, returned, continues}
use tracy_query.Capture.Machine.{Machine}
use tracy_query.Capture.Finish.Untouched.{succeeds}

-- The states that may come directly after a state.
abbrev pub may_follow : State → State → Bool
may_follow unconfigured configured = true
may_follow unconfigured failed = true
may_follow configured capturing = true
may_follow configured finishing = true
may_follow capturing finishing = true
may_follow finishing finished = true
may_follow finishing discarded = true
may_follow finishing failed = true
may_follow _ _ = false

abbrev number_of : State → ℕ
number_of unconfigured = 0
number_of configured = 1
number_of capturing = 2
number_of finishing = 3
number_of finished = 4
number_of failed = 5
number_of discarded = 6

abbrev pub same_state : State → State → Bool
same_state s s' = number_of s == number_of s'

-- The end of a finishing call.
abbrev pub is_ended : State → Bool
is_ended finished = true
is_ended failed = true
is_ended discarded = true
is_ended _ = false

-- A turn ends the capture or leaves the state as it is.
abbrev turned : After → State → State → Bool
turned (returned status) s s' = is_ended s'
turned (continues next) s s' = same_state s s'

abbrev pub refused : Option Status → Bool
refused none = true
refused (some status) = not (succeeds status)

-- What an ended capture keeps.
abbrev Kept : Machine → Machine → Type 0
Kept m m' =
    (m'.world.coordinator.state ≡ m.world.coordinator.state)
    × (m'.world.files ≡ m.world.files)
    × (m'.world.transport ≡ m.world.transport)
    × (m'.world.coordinator.publish_count ≡ m.world.coordinator.publish_count)
