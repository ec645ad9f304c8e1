-- ===== src/Backend/Run/Lost.antt =====
-- The condition variable of pkg/backend/backend.go is signalled without its lock held, so a signal
-- between the tests of the loop and cond.Wait wakes nobody.
use aro_rp.Base.{ℕ, zero, suc, ◌≤◌, ◌≡◌, refl, true, arith}
use aro_rp.Backend.Run.{
  to_wait, asleep, signalled, System, initial, starts, idles, Loop, full, room, go_on, leave, sleep,
  finish, work, clusters, subscriptions, ticks, Aside, decrement, signal, store, announce, Runs,
  here, own, aside,
}

-- Run and its goroutines can reach the state.
abbrev pub Reached : ℕ → System → Type 0
Reached limit s = (n : ℕ) × Runs limit initial n s

-- No goroutine can take a step.
abbrev pub IsStuck : ℕ → System → Type 0
IsStuck limit s = ((t : System) → ¬ Loop limit s t) × ((t : System) → ¬ Aside s t)

module _ (limit : ℕ) where
  more : {s t : System} → Reached limit s → Loop limit s t → Reached limit t
  more (n, r) step = (suc n, own r step)

  meanwhile : {s t : System} → Reached limit s → Aside s t → Reached limit t
  meanwhile (n, r) step = (n, aside r step)

  -- k workers are started, one in each round.
  started : (k : ℕ) → k ≤ limit → Reached limit (record initial { workers = k })
  started zero h = (0, here)
  started (suc k) h =
      more
        (more (more (more (started k (omega arith)) (room refl (omega arith))) (work refl refl))
          (clusters refl starts))
        (subscriptions refl idles)

  abbrev before_wait : ℕ → System
  before_wait k = record initial { place = to_wait; workers = k }

  -- They all end before the loop calls cond.Wait.
  ended : (k : ℕ) → Reached limit (before_wait k) → Reached limit (before_wait 0)
  ended zero r = r
  ended (suc k) r = ended k (meanwhile (meanwhile r (decrement refl)) (signal refl))

  abbrev deaf : System
  deaf = record {
    place = asleep;
    workers = 0;
    signalling = 0;
    stopping = true;
    stopper = signalled;
  }

  Reached-deaf : Reached limit deaf
  Reached-deaf =
      let at_limit =
        more (more (started limit (omega arith)) (full refl (omega arith))) (go_on refl refl) in
      more (meanwhile (meanwhile (ended limit at_limit) (store refl)) (announce refl)) (sleep refl)

  asleep_still : {s t : System} → s.place ≡ asleep → ¬ Loop limit s t
  asleep_still e (full at h) = cc
  asleep_still e (room at h) = cc
  asleep_still e (go_on at h) = cc
  asleep_still e (leave at h) = cc
  asleep_still e (sleep at) = cc
  asleep_still e (finish at h) = cc
  asleep_still e (work at h) = cc
  asleep_still e (clusters at h) = cc
  asleep_still e (subscriptions at h) = cc
  asleep_still e (ticks at) = cc

  nobody : {s t : System} → s.workers ≡ 0 → s.signalling ≡ 0 → s.stopper ≡ signalled → ¬ Aside s t
  nobody w n e (decrement at) = omega (arith, w, at)
  nobody w n e (signal at) = omega (arith, n, at)
  nobody w n e (store at) = cc
  nobody w n e (announce at) = cc

  -- With every limit of workers, Run can reach a state in which it was told to stop and no worker is
  -- left, and it sleeps in cond.Wait for good: no goroutine has a step.
  pub lost_wakeup :
      (s : System) × Reached limit s × (s.place ≡ asleep) × (s.stopping ≡ true) × IsStuck limit s
  lost_wakeup =
      (deaf, Reached-deaf, refl, refl, (λ t. asleep_still refl, λ t. nobody refl refl refl))
