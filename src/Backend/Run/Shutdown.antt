-- ===== src/Backend/Run/Shutdown.antt =====
-- How Run of pkg/backend/backend.go ends.
use native.Mathlib.Decide.{dec_lt}
use aro_rp.Base.{
  ℕ, zero, suc, ◌⊎◌, inl, inr, ◌+◌, ◌≤◌, ◌<◌, ◌≡◌, refl, ap, Bool, true, false, arith,
}
use aro_rp.Backend.Run.{
  Place, load_workers, load_stopping, to_wait, asleep, test_stopping, try_clusters,
  try_subscriptions, tick, finished, System, idles, Loop, full, room, go_on, leave, sleep, finish,
  work, clusters, subscriptions, ticks, Aside, decrement, signal, store, announce, Runs, here, own,
  aside, after_tries, wake, stored,
}

-- How many steps the loop has before it at most, once `stopping` is set
abbrev pub left : Place → ℕ
left finished = 0
left test_stopping = 1
left load_stopping = 2
left load_workers = 3
left tick = 4
left asleep = 4
left (try_subscriptions _) = 5
left to_wait = 5
left try_clusters = 6

left-le : (p : Place) → left p ≤ 6
left-le p = ground arith

left_after : (a b : Bool) → left (after_tries a b) ≤ 4
left_after false false = omega arith
left_after false true = omega arith
left_after true b = omega arith

Loop-left :
    {limit : ℕ} {s t : System}
    → s.stopping ≡ true
    → Loop limit s t
    → (t.stopping ≡ true) × (left t.place + 1 ≤ left s.place)
Loop-left e (subscriptions {before} {did} at h) = ground (arith, left_after before did)
Loop-left e (clusters at h) = ground arith
Loop-left e (full at h) = ground arith
Loop-left e (room at h) = ground arith
Loop-left e (go_on at h) = cc
Loop-left e (leave at h) = ground arith
Loop-left e (sleep at) = ground arith
Loop-left e (finish at h) = ground arith
Loop-left e (work at h) = cc
Loop-left e (ticks at) = ground arith

left-wake : (p : Place) → left (wake p) ≤ left p
left-wake asleep = omega arith
left-wake p = omega arith

Aside-left :
    {s t : System}
    → s.stopping ≡ true
    → Aside s t
    → (t.stopping ≡ true) × (left t.place ≤ left s.place)
Aside-left e (decrement at) = (e, omega arith)
Aside-left {s} e (signal at) = (e, left-wake s.place)
Aside-left e (store at) = (refl, omega arith)
Aside-left {s} e (announce at) = (e, left-wake s.place)

Runs-left :
    {limit : ℕ} {s : System} {n : ℕ} {t : System}
    → s.stopping ≡ true
    → Runs limit s n t
    → (t.stopping ≡ true) × (left t.place + n ≤ left s.place)
Runs-left e here = (e, omega arith)
Runs-left e (own r step) =
    let (kept, near) = Runs-left e r in
    let (still, nearer) = Loop-left kept step in (still, omega (arith, near, nearer))
Runs-left e (aside r step) =
    let (kept, near) = Runs-left e r in
    let (still, nearer) = Aside-left kept step in (still, omega (arith, near, nearer))

-- A signal is still to come, where the loop waits for one or is about to.
abbrev pub Awaited : System → Place → Type 0
Awaited s asleep = (s.stopper ≡ stored) ⊎ (0 < s.signalling + s.workers)
Awaited s to_wait = (s.stopper ≡ stored) ⊎ (0 < s.signalling + s.workers)
Awaited s _ = Unit

-- A run to the end of the loop
abbrev pub Ends : ℕ → System → Type 0
Ends limit s = (n : ℕ) × (t : System) × Runs limit s n t × (t.place ≡ finished)

first_own :
    {limit : ℕ} {s t : System} {n : ℕ} {u : System}
    → Loop limit s t
    → Runs limit t n u
    → Runs limit s (suc n) u
first_own step here = own here step
first_own step (own r later) = own (first_own step r) later
first_own step (aside r later) = aside (first_own step r) later

first_aside :
    {limit : ℕ} {s t : System} {n : ℕ} {u : System}
    → Aside s t
    → Runs limit t n u
    → Runs limit s n u
first_aside step here = aside here step
first_aside step (own r later) = own (first_aside step r) later
first_aside step (aside r later) = aside (first_aside step r) later

Ends-own : {limit : ℕ} {s t : System} → Loop limit s t → Ends limit t → Ends limit s
Ends-own step (n, u, r, e) = (suc n, u, first_own step r, e)

Ends-aside : {limit : ℕ} {s t : System} → Aside s t → Ends limit t → Ends limit s
Ends-aside step (n, u, r, e) = (n, u, first_aside step r, e)

module _ (limit : ℕ) where
  from_test : (s : System) → s.place ≡ test_stopping → s.stopping ≡ true → Ends limit s
  from_test s at e = Ends-own (finish at e) (0, _, here, refl)

  from_load : (s : System) → s.place ≡ load_workers → s.stopping ≡ true → Ends limit s
  from_load s at e = elim (dec_lt s.workers limit) [
    | yes h ↦ Ends-own (room at h) (from_test _ refl e)
    | no h ↦ Ends-own (full at (omega arith)) (Ends-own (leave refl e) (from_test _ refl e))
  ]

  from_tick : (s : System) → s.place ≡ tick → s.stopping ≡ true → Ends limit s
  from_tick s at e = Ends-own (ticks at) (from_load _ refl e)

  from_subscriptions :
      (s : System) (did : Bool) → s.place ≡ try_subscriptions did → s.stopping ≡ true → Ends limit s
  from_subscriptions s false at e = Ends-own (subscriptions at idles) (from_tick _ refl e)
  from_subscriptions s true at e = Ends-own (subscriptions at idles) (from_load _ refl e)

  -- Some worker signals, after its decrement.
  from_worker :
      (s : System) (k n : ℕ)
      → s.place ≡ asleep
      → s.stopping ≡ true
      → s.signalling ≡ k
      → s.workers ≡ n
      → 0 < k + n
      → Ends limit s
  from_worker s (suc k) n at e signals counts h =
      Ends-aside (signal signals) (from_load _ (ap wake at) e)
  from_worker s zero (suc n) at e signals counts h =
      Ends-aside (decrement counts) (Ends-aside (signal refl) (from_load _ (ap wake at) e))
  from_worker s zero zero at e signals counts h = absurd (omega arith)

  from_sleep :
      (s : System)
      → s.place ≡ asleep
      → s.stopping ≡ true
      → (s.stopper ≡ stored) ⊎ (0 < s.signalling + s.workers)
      → Ends limit s
  from_sleep s at e (inl h) = Ends-aside (announce h) (from_load _ (ap wake at) e)
  from_sleep s at e (inr h) = from_worker s s.signalling s.workers at e refl refl h

  from_place :
      (s : System) (p : Place) → s.place ≡ p → s.stopping ≡ true → Awaited s p → Ends limit s
  from_place s finished at e h = (0, s, here, at)
  from_place s test_stopping at e h = from_test s at e
  from_place s load_stopping at e h = Ends-own (leave at e) (from_test _ refl e)
  from_place s load_workers at e h = from_load s at e
  from_place s tick at e h = from_tick s at e
  from_place s (try_subscriptions did) at e h = from_subscriptions s did at e
  from_place s try_clusters at e h =
      Ends-own (clusters at idles) (from_subscriptions _ false refl e)
  from_place s asleep at e h = from_sleep s at e h
  from_place s to_wait at e h = Ends-own (sleep at) (from_sleep _ refl e h)

-- Once the stop is stored the loop of Run takes six more steps at most, whatever the other goroutines
-- do in between; and wherever it stands then, it can still end, unless it waits for a signal and none
-- is to come, of the stop or of a worker.
pub run-Ends :
    (limit : ℕ) (s : System) {n : ℕ} {t : System}
    → s.stopping ≡ true
    → Runs limit s n t
    → Awaited t t.place
    → (left t.place + n ≤ 6) × Ends limit t
run-Ends limit s {n} {t} e r h =
    let (still, near) = Runs-left e r in
    (omega (arith, near, left-le s.place), from_place limit t t.place refl still h)
