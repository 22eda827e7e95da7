-- ===== src/Queue/Census.antt =====
-- The threads of a queue by number: how many are in which kind of state.
use mr_lib.Common.{ℕ, zero, suc, ◌+◌, ◌≡◌, refl, ap, ◌∙◌, List, [], ◌∷◌, ◌++◌, map, arith}
use mr_lib.Queue.System.{
  Pc, idle, pop_loop, pop_asleep, pop_woken, push_signal, close_set, close_broadcast, push_loop,
  push_woken, pop_signal, returning, weigh, hungry, crowded, wake_hungry, idle_threads,
}

-- the threads that have the mutex
abbrev pub inside : Pc → ℕ
inside pop_loop = 1
inside push_signal = 1
inside close_set = 1
inside close_broadcast = 1
inside (push_loop _) = 1
inside (pop_signal _) = 1
inside (returning _) = 1
inside _ = 0

-- the threads that will look at the elements, or tell one that waits for them
abbrev pub feeding : Pc → ℕ
feeding pop_woken = 1
feeding pop_loop = 1
feeding push_signal = 1
feeding _ = 0

-- the threads that will look at the room, or tell one that waits for it
abbrev pub clearing : Pc → ℕ
clearing (push_woken _) = 1
clearing (push_loop _) = 1
clearing (pop_signal _) = 1
clearing _ = 0

abbrev pub closing : Pc → ℕ
closing close_broadcast = 1
closing _ = 0

pub record Census : Type 0 where
  pub insiders : ℕ
  pub hungry_ones : ℕ
  pub feeders : ℕ
  pub crowded_ones : ℕ
  pub clearers : ℕ
  pub closers : ℕ

-- a thread `p` beside others
abbrev pub beside : Pc → Census → Census
beside p c = record {
  insiders = inside p + c.insiders;
  hungry_ones = hungry p + c.hungry_ones;
  feeders = feeding p + c.feeders;
  crowded_ones = crowded p + c.crowded_ones;
  clearers = clearing p + c.clearers;
  closers = closing p + c.closers;
}

-- two equal counts, number by number
pub record Same (c d : Census) : Type 0 where
  pub insiders : c.insiders ≡ d.insiders
  pub hungry_ones : c.hungry_ones ≡ d.hungry_ones
  pub feeders : c.feeders ≡ d.feeders
  pub crowded_ones : c.crowded_ones ≡ d.crowded_ones
  pub clearers : c.clearers ≡ d.clearers
  pub closers : c.closers ≡ d.closers

pub Same-of : {c d : Census} → c ≡ d → Same c d
Same-of e = record {
  insiders = ap (λ (x : Census). x.insiders) e;
  hungry_ones = ap (λ (x : Census). x.hungry_ones) e;
  feeders = ap (λ (x : Census). x.feeders) e;
  crowded_ones = ap (λ (x : Census). x.crowded_ones) e;
  clearers = ap (λ (x : Census). x.clearers) e;
  closers = ap (λ (x : Census). x.closers) e;
}

abbrev pub nobody_there : Census
nobody_there = record {
  insiders = 0;
  hungry_ones = 0;
  feeders = 0;
  crowded_ones = 0;
  clearers = 0;
  closers = 0;
}

abbrev pub census : List Pc → Census
census [] = nobody_there
census (p ∷ ps) = beside p (census ps)

swap : (p q : Pc) (c : Census) → beside p (beside q c) ≡ beside q (beside p c)
swap p q c =
    let exchange : (a b n : ℕ) → a + (b + n) ≡ b + (a + n) = λ a b n. omega arith in
    rw
      (
        exchange (inside p) (inside q) c.insiders,
        exchange (hungry p) (hungry q) c.hungry_ones,
        exchange (feeding p) (feeding q) c.feeders,
        exchange (crowded p) (crowded q) c.crowded_ones,
        exchange (clearing p) (clearing q) c.clearers,
        exchange (closing p) (closing q) c.closers,
      )
      refl

pub census_at :
    (front back : List Pc) (p : Pc)
    → census (front ++ (p ∷ back)) ≡ beside p (census (front ++ back))
census_at [] back p = refl
census_at (x ∷ front) back p = ap (beside x) (census_at front back p) ∙ swap x p _

pub census_idle : (n : ℕ) → census (idle_threads n) ≡ nobody_there
census_idle zero = refl
census_idle (suc n) = ap (beside idle) (census_idle n)

pub weigh-hungry : (ts : List Pc) → weigh hungry ts ≡ (census ts).hungry_ones
weigh-hungry [] = refl
weigh-hungry (p ∷ ts) = ap (λ n. hungry p + n) (weigh-hungry ts)

pub weigh-crowded : (ts : List Pc) → weigh crowded ts ≡ (census ts).crowded_ones
weigh-crowded [] = refl
weigh-crowded (p ∷ ts) = ap (λ n. crowded p + n) (weigh-crowded ts)

-- what a broadcast leaves
abbrev pub awake : List Pc → List Pc
awake = map wake_hungry

pub inside_awake : (ts : List Pc) → (census (awake ts)).insiders ≡ (census ts).insiders
inside_awake [] = refl
inside_awake (p ∷ ts) = omega (arith, inside_awake ts, same p)
  where
    same : (p : Pc) → inside (wake_hungry p) ≡ inside p
    same pop_asleep = refl
    same _ = refl

pub hungry_awake : (ts : List Pc) → (census (awake ts)).hungry_ones ≡ 0
hungry_awake [] = refl
hungry_awake (p ∷ ts) = omega (arith, hungry_awake ts, same p)
  where
    same : (p : Pc) → hungry (wake_hungry p) ≡ 0
    same pop_asleep = refl
    same _ = refl

pub crowded_awake : (ts : List Pc) → (census (awake ts)).crowded_ones ≡ (census ts).crowded_ones
crowded_awake [] = refl
crowded_awake (p ∷ ts) = omega (arith, crowded_awake ts, same p)
  where
    same : (p : Pc) → crowded (wake_hungry p) ≡ crowded p
    same pop_asleep = refl
    same _ = refl

pub clearing_awake : (ts : List Pc) → (census (awake ts)).clearers ≡ (census ts).clearers
clearing_awake [] = refl
clearing_awake (p ∷ ts) = omega (arith, clearing_awake ts, same p)
  where
    same : (p : Pc) → clearing (wake_hungry p) ≡ clearing p
    same pop_asleep = refl
    same _ = refl
