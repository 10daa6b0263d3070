-- ===== src/Webhooks/Delivery/Workers.antt =====
-- `processDeliveriesWithConcurrency` of src/webhooks/webhooks.service.ts: the workers of a run, which
-- take the deliveries by a shared index. A worker runs until it waits, so that reading the index and
-- adding one to it is one step.
use stackaura_checkout_api.Base.{
  ℕ, ◌<◌, ◌≤◌, zero, suc, List, [], ◌∷◌, ◌++◌, ◌≡◌, refl, ◌+◌, min, length, arith, All,
  length-append,
}

-- Where a worker is: at the head of its loop, waiting for the attempt at a delivery, or returned.
pub data Worker : Type 0 where
  at_head : Worker
  attempting : ℕ → Worker
  returned : Worker

-- The shared index, the workers, and the positions of the deliveries attempted, newest first.
pub record Pool : Type 0 where
  pub index : ℕ
  pub workers : List Worker
  pub attempted : List ℕ

-- A step of one worker out of several, for a run of `n` deliveries.
pub data Step (n : ℕ) : Pool → Pool → Type 0 where
  take :
      (before after : List Worker) (i : ℕ) (done : List ℕ)
      → i < n
      → Step n
          (record { index = i; workers = before ++ at_head ∷ after; attempted = done })
          (record { index = i + 1; workers = before ++ attempting i ∷ after; attempted = i ∷ done })
  finish :
      (before after : List Worker) (i k : ℕ) (done : List ℕ)
      → Step n
          (record { index = i; workers = before ++ attempting k ∷ after; attempted = done })
          (record { index = i; workers = before ++ at_head ∷ after; attempted = done })
  leave :
      (before after : List Worker) (i : ℕ) (done : List ℕ)
      → n ≤ i
      → Step n
          (record { index = i; workers = before ++ at_head ∷ after; attempted = done })
          (record { index = i + 1; workers = before ++ returned ∷ after; attempted = done })

pub data Steps (n : ℕ) : Pool → Pool → Type 0 where
  stop : (p : Pool) → Steps n p p
  step : (p q r : Pool) → Step n p q → Steps n q r → Steps n p r

abbrev replicate : ℕ → Worker → List Worker
replicate zero w = []
replicate (suc n) w = w ∷ replicate n w

-- The workers at the start: no more than the deliveries.
abbrev pub start : ℕ → ℕ → Pool
start concurrency n = record {
  index = 0;
  workers = replicate (min concurrency n) at_head;
  attempted = [];
}

-- i - 1, …, 1, 0
abbrev pub down_from : ℕ → List ℕ
down_from zero = []
down_from (suc i) = i ∷ down_from i

abbrev weight : Worker → ℕ
weight returned = 1
weight _ = 0

abbrev count_returned : List Worker → ℕ
count_returned [] = 0
count_returned (w ∷ ws) = weight w + count_returned ws

-- What holds of every pool that is reached.
abbrev IsPool : ℕ → ℕ → Pool → Type 0
IsPool n m p =
    (p.attempted ≡ down_from (min p.index n))
    × (length p.workers ≡ m)
    × (p.index ≡ min p.index n + count_returned p.workers)

count_returned-append :
    (ws vs : List Worker) → count_returned (ws ++ vs) ≡ count_returned ws + count_returned vs
count_returned-append [] vs = omega arith
count_returned-append (w ∷ ws) vs = omega (arith, count_returned-append ws vs)

-- One worker in another state changes the count by its weight, and the number not at all.
swap_length : (ws vs : List Worker) (w v : Worker) → length (ws ++ w ∷ vs) ≡ length (ws ++ v ∷ vs)
swap_length ws vs w v = omega (arith, length-append ws (w ∷ vs), length-append ws (v ∷ vs))

swap_count :
    (ws vs : List Worker) (w v : Worker)
    → count_returned (ws ++ w ∷ vs) + weight v ≡ count_returned (ws ++ v ∷ vs) + weight w
swap_count ws vs w v =
    omega (arith, count_returned-append ws (w ∷ vs), count_returned-append ws (v ∷ vs))

Step-IsPool : (n m : ℕ) (p q : Pool) → Step n p q → IsPool n m p → IsPool n m q
Step-IsPool n m p q (take before after i done h) (a, l, c) =
    let low : min i n ≡ i = omega arith in
    let high : min (i + 1) n ≡ suc i = omega arith in
    let same = swap_length before after at_head (attempting i) in
    let count = swap_count before after at_head (attempting i) in
    (rw (high, a, low) refl, omega arith, omega arith)
Step-IsPool n m p q (finish before after i k done) (a, l, c) =
    let same = swap_length before after (attempting k) at_head in
    let count = swap_count before after (attempting k) at_head in (a, omega arith, omega arith)
Step-IsPool n m p q (leave before after i done h) (a, l, c) =
    let low : min i n ≡ n = omega arith in
    let high : min (i + 1) n ≡ n = omega arith in
    let same = swap_length before after at_head returned in
    let count = swap_count before after at_head returned in
    (rw (high, a, low) refl, omega arith, omega arith)

Steps-IsPool : (n m : ℕ) (p q : Pool) → Steps n p q → IsPool n m p → IsPool n m q
Steps-IsPool n m p q (stop _) inv = inv
Steps-IsPool n m p q (step _ r _ s ss) inv = Steps-IsPool n m r q ss (Step-IsPool n m p r s inv)

replicate-length : (k : ℕ) → length (replicate k at_head) ≡ k
replicate-length zero = refl
replicate-length (suc k) = omega (arith, replicate-length k)

replicate-count : (k : ℕ) → count_returned (replicate k at_head) ≡ 0
replicate-count zero = refl
replicate-count (suc k) = omega (arith, replicate-count k)

start-IsPool : (concurrency n : ℕ) → IsPool n (min concurrency n) (start concurrency n)
start-IsPool concurrency n =
    let k = min concurrency n in
    let none_yet : min 0 n ≡ 0 = omega arith in
    (rw none_yet refl, replicate-length k, omega (arith, replicate-count k))

-- Whatever the interleaving of the workers, the attempts so far are at the first positions of the
-- list of deliveries, each once and in order, and the number of workers is the smaller of the
-- concurrency and the number of deliveries.
pub attempted_in_order :
    (concurrency n : ℕ) (q : Pool)
    → Steps n (start concurrency n) q
    → (q.attempted ≡ down_from (min q.index n)) × (length q.workers ≡ min concurrency n)
attempted_in_order concurrency n q steps =
    let (a, l, c) =
      Steps-IsPool n (min concurrency n) (start concurrency n) q steps
        (start-IsPool concurrency n) in
    (a, l)

returned-count : (ws : List Worker) → All (λ w. w ≡ returned) ws → count_returned ws ≡ length ws
returned-count [] h = refl
returned-count (w ∷ ws) (h, hs) = rw h (omega (arith, returned-count ws hs))

-- When all the workers of a run with a concurrency of at least 1 have returned, every delivery of
-- the run has been attempted, exactly once.
pub every_attempted :
    (concurrency n : ℕ) (q : Pool)
    → 0 < concurrency
    → Steps n (start concurrency n) q
    → All (λ w. w ≡ returned) q.workers
    → q.attempted ≡ down_from n
every_attempted concurrency n q some_worker steps returned_all =
    let (a, l, c) =
      Steps-IsPool n (min concurrency n) (start concurrency n) q steps
        (start-IsPool concurrency n) in
    let e = returned-count q.workers returned_all in
    let all : min q.index n ≡ n = omega arith in rw (a, all) refl
