-- ===== src/Queue/Progress.antt =====
-- The threads of src/queue.c go on, and what holds where they do not.
use mr_lib.Common.{
  ℕ, zero, suc, ◌+◌, ◌≤◌, ◌≡◌, ◌≢◌, ◌⊎◌, inl, inr, refl, ap, ◌∙◌, false, List, [], ◌∷◌, ◌++◌,
  Bool-cases, ◌==◌, ==_iff, arith,
}
use mr_lib.Queue.{Queue}
use mr_lib.Queue.Laws.{IsQueue}
use mr_lib.Queue.System.{
  done, element, Pc, idle, pop_lock, pop_loop, pop_asleep, pop_woken, push_signal, close_lock,
  close_set, close_broadcast, push_lock, push_loop, push_asleep, push_woken, pop_signal, returning,
  System, push_locks, pop_locks, close_locks, push_waits, push_returns, pushes, pop_waits,
  pop_returns, pops, drains, closes, unlocks, weigh, hungry, crowded, wake, Signal, nobody, one,
  Step, alone, signals_empty, signals_full, broadcasts, Reach,
}
use mr_lib.Queue.Census.{
  census, census_at, weigh-hungry, weigh-crowded, Same-of, inside, feeding, clearing, closing,
}
use mr_lib.Queue.Wakeups.{Reach-IsSound}

-- the threads that are neither idle nor asleep
abbrev pub busy : Pc → ℕ
busy idle = 0
busy pop_asleep = 0
busy (push_asleep _) = 0
busy _ = 1

below : {f : Pc → ℕ} → ((p : Pc) → f p ≤ busy p) → (ts : List Pc) → weigh f ts ≤ weigh busy ts
below h [] = omega arith
below h (p ∷ ts) = omega (arith, below h ts, h p)

-- the numbers of a census are weights
weigh-feeding : (ts : List Pc) → weigh feeding ts ≡ (census ts).feeders
weigh-feeding [] = refl
weigh-feeding (p ∷ ts) = ap (λ n. feeding p + n) (weigh-feeding ts)

weigh-clearing : (ts : List Pc) → weigh clearing ts ≡ (census ts).clearers
weigh-clearing [] = refl
weigh-clearing (p ∷ ts) = ap (λ n. clearing p + n) (weigh-clearing ts)

weigh-closing : (ts : List Pc) → weigh closing ts ≡ (census ts).closers
weigh-closing [] = refl
weigh-closing (p ∷ ts) = ap (λ n. closing p + n) (weigh-closing ts)

weigh-inside : (ts : List Pc) → weigh inside ts ≡ (census ts).insiders
weigh-inside [] = refl
weigh-inside (p ∷ ts) = ap (λ n. inside p + n) (weigh-inside ts)

feeding-below : (p : Pc) → feeding p ≤ busy p
feeding-below idle = omega arith
feeding-below _ = omega arith

clearing-below : (p : Pc) → clearing p ≤ busy p
clearing-below idle = omega arith
clearing-below _ = omega arith

closing-below : (p : Pc) → closing p ≤ busy p
closing-below idle = omega arith
closing-below _ = omega arith

inside-below : (p : Pc) → inside p ≤ busy p
inside-below idle = omega arith
inside-below _ = omega arith

both : {A B C : Type 0} → A ⊎ B → A ⊎ C → A ⊎ (B × C)
both (inl a) r = inl a
both (inr b) (inl a) = inl a
both (inr b) (inr c) = inr (b, c)

-- Where every thread is idle or asleep, one that waits for elements does so on an open queue without
-- any, and one that waits for room on a full queue.
pub Reach-rest :
    {q : Queue} {n : ℕ} {s : System}
    → IsQueue q
    → Reach q n s
    → weigh busy s.threads ≡ 0
    → (weigh hungry s.threads ≡ 0 ⊎ (s.queue.count ≡ 0 × s.queue.closed ≡ false))
      × (weigh crowded s.threads ≡ 0 ⊎ s.queue.count ≡ s.queue.capacity)
Reach-rest {s = s} well r rest =
    let ts = s.threads in
    let sound = Reach-IsSound well r in
    let no_feeders : (census ts).feeders ≡ 0 =
      omega (arith, below feeding-below ts, weigh-feeding ts, rest) in
    let no_clearers : (census ts).clearers ≡ 0 =
      omega (arith, below clearing-below ts, weigh-clearing ts, rest) in
    let no_closers : (census ts).closers ≡ 0 =
      omega (arith, below closing-below ts, weigh-closing ts, rest) in
    let fed : weigh hungry ts ≡ 0 ⊎ s.queue.count ≡ 0 =
      ground (arith, weigh-hungry ts, sound.fed, no_feeders) in
    let told : weigh hungry ts ≡ 0 ⊎ s.queue.closed ≡ false = elim sound.told [
      | inl still_open ↦ inr still_open
      | inr e ↦ inl (ground (arith, weigh-hungry ts, e, no_closers))
    ] in
    (both fed told, ground (arith, weigh-crowded ts, sound.roomy, sound.well.bound, no_clearers))

zero_or : (n : ℕ) → n ≡ 0 ⊎ 1 ≤ n
zero_or zero = inl refl
zero_or (suc n) = inr (omega arith)

-- a thread of some, by its place
record Found (f : Pc → ℕ) (ts : List Pc) : Type 0 where
  front : List Pc
  back : List Pc
  place : Pc
  split : ts ≡ front ++ (place ∷ back)
  counted : 1 ≤ f place

find : (f : Pc → ℕ) (ts : List Pc) → 1 ≤ weigh f ts → Found f ts
find f [] h = absurd (omega (arith, h))
find f (p ∷ ts) h = elim (zero_or (f p)) [
  | inl e ↦
      let rest = find f ts (omega (arith, h, e)) in
      record {
        front = p ∷ rest.front;
        back = rest.back;
        place = rest.place;
        split = ap (λ (l : List Pc). p ∷ l) rest.split;
        counted = rest.counted;
      }
  | inr e ↦ record { front = []; back = ts; place = p; split = refl; counted = e }
]

hungry-single : (p : Pc) → 1 ≤ hungry p → hungry p ≡ 1
hungry-single pop_asleep h = refl
hungry-single _ h = absurd (omega (arith, h))

crowded-single : (p : Pc) → 1 ≤ crowded p → crowded p ≡ 1
crowded-single (push_asleep x) h = refl
crowded-single _ h = absurd (omega (arith, h))

-- a signal can always be sent
signal :
    (f : Pc → ℕ) (ts : List Pc) → ((p : Pc) → 1 ≤ f p → f p ≡ 1) → (us : List Pc) × Signal f ts us
signal f ts single = elim (zero_or (weigh f ts)) [
  | inl e ↦ (ts, nobody e)
  | inr e ↦
      let found = find f ts e in
      (
        found.front ++ (wake found.place ∷ found.back),
        one found.front found.back found.place found.split (single found.place found.counted),
      )
]

-- some step of a thread at this place
abbrev CanGo : System → Pc → Type 0
CanGo s p = (t : System) × Step s p t

equal_or : (m n : ℕ) → m ≡ n ⊎ m ≢ n
equal_or m n = elim (Bool-cases (m == n)) [
  | inl e ↦ inl ((==_iff m n).0 e)
  | inr e ↦ inr λ h. absurd (ground (arith, ==_iff m n))
]

-- a thread that has the mutex
insider-goes :
    (s : System) (front back : List Pc) (p : Pc)
    → s.threads ≡ front ++ (p ∷ back)
    → 1 ≤ inside p
    → CanGo s p
insider-goes s front back push_signal e h =
    let (us, g) = signal hungry (front ++ (returning done ∷ back)) hungry-single in
    (_, signals_empty front back e g)
insider-goes s front back (pop_signal x) e h =
    let (us, g) = signal crowded (front ++ (returning (element x) ∷ back)) crowded-single in
    (_, signals_full front back x e g)
insider-goes s front back close_broadcast e h = (_, broadcasts front back e)
insider-goes s front back close_set e h = (_, alone front back e closes)
insider-goes s front back (returning a) e h = (_, alone front back e unlocks)
insider-goes s front back (push_loop x) e h = elim (equal_or s.queue.count s.queue.capacity) [
  | inl full ↦ (_, alone front back e (push_waits full))
  | inr room ↦ (_, alone front back e (pushes room))
]
insider-goes s front back pop_loop e h = elim (equal_or s.queue.count 0) [
  | inl none_left ↦ elim (Bool-cases s.queue.closed) [
    | inl shut ↦ (_, alone front back e (drains none_left shut))
    | inr still_open ↦ (_, alone front back e (pop_waits none_left still_open))
  ]
  | inr some_left ↦ (_, alone front back e (pops some_left))
]
insider-goes s front back _ e h = absurd (omega (arith, h))

-- a busy thread that waits for a free mutex
outsider-goes :
    (s : System) (front back : List Pc) (p : Pc)
    → s.threads ≡ front ++ (p ∷ back)
    → s.locks ≡ 0
    → 1 ≤ busy p
    → inside p ≡ 0
    → CanGo s p
outsider-goes s front back (push_lock x) e free b h = (_, alone front back e (push_locks free))
outsider-goes s front back pop_lock e free b h = (_, alone front back e (pop_locks free))
outsider-goes s front back close_lock e free b h = (_, alone front back e (close_locks free))
outsider-goes s front back (push_woken x) e free b h = (_, alone front back e (push_returns free))
outsider-goes s front back pop_woken e free b h = (_, alone front back e (pop_returns free))
outsider-goes s front back _ e free b h = absurd (omega (arith, b, h))

-- Where some thread is neither idle nor asleep, such a thread can take a step.
pub Reach-goes :
    {q : Queue} {n : ℕ} {s : System}
    → IsQueue q
    → Reach q n s
    → 1 ≤ weigh busy s.threads
    → (p : Pc) × (t : System) × Step s p t × (1 ≤ busy p)
Reach-goes {s = s} well r some_busy =
    let sound = Reach-IsSound well r in
    elim (zero_or s.locks) [
      | inl free ↦
          let found = find busy s.threads some_busy in
          let numbers =
            Same-of (ap census found.split ∙ census_at found.front found.back found.place) in
          let out : inside found.place ≡ 0 = omega (arith, numbers.insiders, sound.mutex, free) in
          let (t, step) =
            outsider-goes s found.front found.back found.place found.split free found.counted out in
          (found.place, t, step, found.counted)
      | inr taken ↦
          let found =
            find inside s.threads (omega (arith, weigh-inside s.threads, sound.mutex, taken)) in
          let (t, step) =
            insider-goes s found.front found.back found.place found.split found.counted in
          (found.place, t, step, omega (arith, inside-below found.place, found.counted))
    ]
