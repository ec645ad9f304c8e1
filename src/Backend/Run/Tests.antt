-- ===== src/Backend/Run/Tests.antt =====
-- Runs of the loop of pkg/backend/backend.go, and the theorems on them.
use aro_rp.Base.{◌+◌, ◌≤◌, ◌≡◌, refl, true, inr, arith}
use aro_rp.Backend.Run.{
  max_workers, asleep, signalled, System, initial, starts, room, work, clusters, subscriptions,
  Runs, here, own,
}
use aro_rp.Backend.Run.Bounded.{run_bounded}
use aro_rp.Backend.Run.Shutdown.{left, Ends, run-Ends}
use aro_rp.Backend.Run.Lost.{Reached, IsStuck, lost_wakeup}

-- One round, in which both calls of try start a worker
one_round : Runs max_workers initial 4 (record initial { workers = 2 })
one_round =
    own (own (own (own here (room refl (omega arith))) (work refl refl)) (clusters refl starts))
      (subscriptions refl starts)

run_bounded_example : 2 ≤ max_workers + 1
run_bounded_example = run_bounded one_round

-- Run sleeps with one worker left when it is told to stop.
abbrev sleeping : System
sleeping = record {
  place = asleep;
  workers = 1;
  signalling = 0;
  stopping = true;
  stopper = signalled;
}

run-Ends_example : (left asleep + 0 ≤ 6) × Ends 1 sleeping
run-Ends_example = run-Ends 1 sleeping refl here (inr (omega arith))

lost_wakeup_example :
    (s : System) × Reached max_workers s
    × (s.place ≡ asleep)
    × (s.stopping ≡ true)
    × IsStuck max_workers s
lost_wakeup_example = lost_wakeup max_workers
