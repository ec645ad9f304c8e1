-- ===== src/Backend/Run/Bounded.antt =====
-- The worker count of pkg/backend/backend.go never runs away.
use aro_rp.Base.{ℕ, ◌+◌, ◌≤◌, ◌<◌, ◌≡◌, Bool, true, false, arith}
use aro_rp.Backend.Run.{
  max_workers, Place, load_workers, test_stopping, try_clusters, try_subscriptions, System, initial,
  Tries, starts, gives_up, idles, Loop, full, room, go_on, leave, sleep, finish, work, clusters,
  subscriptions, ticks, Aside, decrement, signal, store, announce, Runs, here, own, aside,
  after_tries, wake,
}

-- What the place of the loop says of the counter: it is below the limit from the load on, until the
-- calls of `try` add to it.
abbrev Room : ℕ → Bool → ℕ → Place → Type 0
Room limit stopping n test_stopping = (stopping ≡ false) → n < limit
Room limit stopping n try_clusters = n < limit
Room limit stopping n (try_subscriptions _) = n ≤ limit
Room limit stopping n _ = n ≤ limit + 1

pub record IsBounded (limit : ℕ) (s : System) : Type 0 where
  pub below : s.workers ≤ limit + 1
  pub room_left : Room limit s.stopping s.workers s.place

Tries-le : {n m : ℕ} {did : Bool} → Tries n did m → m ≤ n + 1
Tries-le starts = omega arith
Tries-le gives_up = omega arith
Tries-le idles = omega arith

Room-after :
    (limit n : ℕ) (stopping a b : Bool) → n ≤ limit + 1 → Room limit stopping n (after_tries a b)
Room-after limit n stopping false false h = h
Room-after limit n stopping false true h = h
Room-after limit n stopping true b h = h

Loop-IsBounded : {limit : ℕ} {s t : System} → Loop limit s t → IsBounded limit s → IsBounded limit t
Loop-IsBounded (full at h) b = record { below = b.below; room_left = b.below }
Loop-IsBounded (room at h) b = record { below = b.below; room_left = λ _. h }
Loop-IsBounded (go_on at h) b = record { below = b.below; room_left = b.below }
Loop-IsBounded (leave at h) b = record { below = b.below; room_left = λ e. cc }
Loop-IsBounded (sleep at) b = record { below = b.below; room_left = b.below }
Loop-IsBounded (finish at h) b = record { below = b.below; room_left = b.below }
Loop-IsBounded (work at h) b = ground (arith, b.room_left)
Loop-IsBounded (clusters at h) b = ground (arith, Tries-le h)
Loop-IsBounded {limit} {s} (subscriptions {before} {did} {n} at h) b =
    let below : n ≤ limit + 1 = ground (arith, Tries-le h) in
    record { below = below; room_left = Room-after limit n s.stopping before did below }
Loop-IsBounded (ticks at) b = record { below = b.below; room_left = b.below }

-- A counter that has not grown, and a stop that has not been taken back
Room-weaken :
    (limit n m : ℕ) (a b : Bool) (p : Place)
    → m ≤ n
    → n ≤ limit + 1
    → (b ≡ false → a ≡ false)
    → Room limit a n p
    → Room limit b m (wake p) × Room limit b m p
Room-weaken limit n m a b load_workers h k e r = ground arith
Room-weaken limit n m a b test_stopping h k e r =
    (λ f. ground (arith, r (e f)), λ f. ground (arith, r (e f)))
Room-weaken limit n m a b p h k e r = ground arith

Aside-IsBounded : {limit : ℕ} {s t : System} → Aside s t → IsBounded limit s → IsBounded limit t
Aside-IsBounded {limit} {s} (decrement {n} at) b = record {
  below = ground (arith, b.below);
  room_left =
      (Room-weaken limit s.workers n s.stopping s.stopping s.place (omega (arith, at)) b.below
        (λ e. e) b.room_left).1;
}
Aside-IsBounded {limit} {s} (signal at) b = record {
  below = b.below;
  room_left =
      (Room-weaken limit s.workers s.workers s.stopping s.stopping s.place (omega arith) b.below
        (λ e. e) b.room_left).0;
}
Aside-IsBounded {limit} {s} (store at) b = record {
  below = b.below;
  room_left =
      (Room-weaken limit s.workers s.workers s.stopping true s.place (omega arith) b.below (λ e. cc)
        b.room_left).1;
}
Aside-IsBounded {limit} {s} (announce at) b = record {
  below = b.below;
  room_left =
      (Room-weaken limit s.workers s.workers s.stopping s.stopping s.place (omega arith) b.below
        (λ e. e) b.room_left).0;
}

Runs-IsBounded :
    {limit : ℕ} {s : System} {n : ℕ} {t : System}
    → Runs limit s n t
    → IsBounded limit s
    → IsBounded limit t
Runs-IsBounded here b = b
Runs-IsBounded (own r st) b = Loop-IsBounded st (Runs-IsBounded r b)
Runs-IsBounded (aside r st) b = Aside-IsBounded st (Runs-IsBounded r b)

-- In every state that Run reaches with its other goroutines in any order, at most one worker more
-- than maxWorkers is counted: the limit is tested once for the two calls of try.
pub run_bounded : {n : ℕ} {s : System} → Runs max_workers initial n s → s.workers ≤ max_workers + 1
run_bounded r = (Runs-IsBounded r (record { below = omega arith; room_left = omega arith })).below
