-- ===== src/Backend/Run.antt =====
-- pkg/backend/backend.go: Run with its goroutines, the loop, the workers that `try` of
-- openshiftcluster.go and subscriptions.go start, and the one that waits for `stop`. Each atomic load
-- or store, and each call of the condition variable, is one step; any goroutine may take the next.
mod Bounded
mod Shutdown
mod Lost
mod Tests
use aro_rp.Base.{ℕ, zero, suc, ◌+◌, ◌≤◌, ◌<◌, ◌≡◌, Bool, true, false}

abbrev pub max_workers : ℕ
max_workers = 100

-- Where the loop of Run stands: before the load of `workers`, before the load of `stopping` when the
-- workers are too many, before cond.Wait, in it, before the test of `stopping` under the inner loop,
-- before the two calls of `try` (with what the first one answered), and before the ticker's channel.
pub data Place : Type 0 where
  load_workers load_stopping to_wait asleep test_stopping try_clusters : Place
  try_subscriptions : Bool → Place
  tick finished : Place

-- The goroutine that waits for `stop`: before `<-stop`, before cond.Signal, at its end.
pub data Stopper : Type 0 where
  listening stored signalled : Stopper

-- `workers` is the counter; as many workers have not yet run their deferred function. `signalling`
-- workers have decremented it and not yet called cond.Signal.
pub record System : Type 0 where
  pub place : Place
  pub workers : ℕ
  pub signalling : ℕ
  pub stopping : Bool
  pub stopper : Stopper

abbrev pub initial : System
initial = record {
  place = load_workers;
  workers = 0;
  signalling = 0;
  stopping = false;
  stopper = listening;
}

-- What a call of `try` does to the counter, with the Boolean that it returns: it starts a worker, or
-- it ends the lease of a document that was dequeued too often, or there is nothing or an error.
pub data Tries : ℕ → Bool → ℕ → Type 0 where
  starts : {n : ℕ} → Tries n true (suc n)
  gives_up : {n : ℕ} → Tries n true n
  idles : {n : ℕ} → Tries n false n

-- `if !(ocbDidWork || sbDidWork) { <-t.C }`
abbrev pub after_tries : Bool → Bool → Place
after_tries false false = tick
after_tries _ _ = load_workers

-- The steps of the loop of Run
pub data Loop (limit : ℕ) : System → System → Type 0 where
  full :
      {s : System}
      → s.place ≡ load_workers
      → limit ≤ s.workers
      → Loop limit s (record s { place = load_stopping })
  room :
      {s : System}
      → s.place ≡ load_workers
      → s.workers < limit
      → Loop limit s (record s { place = test_stopping })
  go_on :
      {s : System}
      → s.place ≡ load_stopping
      → s.stopping ≡ false
      → Loop limit s (record s { place = to_wait })
  leave :
      {s : System}
      → s.place ≡ load_stopping
      → s.stopping ≡ true
      → Loop limit s (record s { place = test_stopping })
  sleep : {s : System} → s.place ≡ to_wait → Loop limit s (record s { place = asleep })
  finish :
      {s : System}
      → s.place ≡ test_stopping
      → s.stopping ≡ true
      → Loop limit s (record s { place = finished })
  work :
      {s : System}
      → s.place ≡ test_stopping
      → s.stopping ≡ false
      → Loop limit s (record s { place = try_clusters })
  clusters :
      {s : System} {did : Bool} {n : ℕ}
      → s.place ≡ try_clusters
      → Tries s.workers did n
      → Loop limit s (record s { place = try_subscriptions did; workers = n })
  subscriptions :
      {s : System} {before did : Bool} {n : ℕ}
      → s.place ≡ try_subscriptions before
      → Tries s.workers did n
      → Loop limit s (record s { place = after_tries before did; workers = n })
  ticks : {s : System} → s.place ≡ tick → Loop limit s (record s { place = load_workers })

-- cond.Signal: it wakes the loop if that is in cond.Wait, and has no effect otherwise.
abbrev pub wake : Place → Place
wake asleep = load_workers
wake p = p

-- The steps of the other goroutines: a worker decrements the counter, a worker signals, `stopping` is
-- stored, and its goroutine signals.
pub data Aside : System → System → Type 0 where
  decrement :
      {s : System} {n : ℕ}
      → s.workers ≡ suc n
      → Aside s (record s { workers = n; signalling = suc s.signalling })
  signal :
      {s : System} {n : ℕ}
      → s.signalling ≡ suc n
      → Aside s (record s { place = wake s.place; signalling = n })
  store :
      {s : System}
      → s.stopper ≡ listening
      → Aside s (record s { stopping = true; stopper = stored })
  announce :
      {s : System}
      → s.stopper ≡ stored
      → Aside s (record s { place = wake s.place; stopper = signalled })

-- Runs from one state to another, with the number of the loop's own steps
pub data Runs (limit : ℕ) (s : System) : ℕ → System → Type 0 where
  here : Runs limit s 0 s
  own : {n : ℕ} {t u : System} → Runs limit s n t → Loop limit t u → Runs limit s (suc n) u
  aside : {n : ℕ} {t u : System} → Runs limit s n t → Aside t u → Runs limit s n u
