-- ===== src/Queue/Wakeups.antt =====
-- What holds of the threads of src/queue.c at every moment: mutual exclusion, and that no thread waits
-- for what is there.
use mr_lib.Common.{Bytes, ℕ, ◌≡◌, inl, inr, refl, ap, sym, ◌∙◌, List, ◌∷◌, ◌++◌, arith}
use mr_lib.Queue.{Queue}
use mr_lib.Queue.Laws.{IsQueue}
use mr_lib.Queue.System.{
  Pc, pop_asleep, pop_woken, push_signal, push_asleep, push_woken, pop_signal, returning, done,
  element, System, Step, alone, signals_empty, signals_full, broadcasts, Signal, nobody, one,
  hungry, crowded, Reach, start, later,
}
use mr_lib.Queue.Census.{
  beside, census, census_at, census_idle, weigh-hungry, weigh-crowded, inside_awake, hungry_awake,
  crowded_awake, clearing_awake, Same-of, awake,
}
use mr_lib.Queue.Sound.{
  IsSound, Move-IsSound, fed_later, cleared_later, fed_already, cleared_already, told_all,
}

hungry-is : (p : Pc) → hungry p ≡ 1 → p ≡ pop_asleep
hungry-is pop_asleep h = refl
hungry-is _ h = absurd (omega (arith, h))

crowded-is : (p : Pc) → crowded p ≡ 1 → (x : Bytes) × (p ≡ push_asleep x)
crowded-is (push_asleep x) h = (x, refl)
crowded-is _ h = absurd (omega (arith, h))

-- the invariant of a whole system
abbrev pub IsSoundSystem : System → Type 0
IsSoundSystem s = IsSound s.queue s.locks (census s.threads)

-- one thread of some, seen beside the others
look :
    {q : Queue} {l : ℕ} {ts : List Pc} (front back : List Pc) (p : Pc)
    → ts ≡ front ++ (p ∷ back)
    → IsSound q l (census ts)
    → IsSound q l (beside p (census (front ++ back)))
look {q} {l} front back p e s = rw (e, census_at front back p) at s

back_in :
    {q : Queue} {l : ℕ} (front back : List Pc) (p : Pc)
    → IsSound q l (beside p (census (front ++ back)))
    → IsSound q l (census (front ++ (p ∷ back)))
back_in {q} {l} front back p s = rw (census_at front back p) s

Signal-hungry :
    {q : Queue} {l : ℕ} (front back : List Pc) {ts : List Pc}
    → Signal hungry (front ++ (returning done ∷ back)) ts
    → IsSound q l (beside push_signal (census (front ++ back)))
    → IsSound q l (census ts)
Signal-hungry front back (nobody h) s =
    let e = census_at front back (returning done) in
    back_in front back (returning done) (
      fed_already (census (front ++ back))
        (omega (arith, (Same-of e).hungry_ones, weigh-hungry (front ++ (returning done ∷ back)), h))
        s)
Signal-hungry front back (one f b p e h) s =
    let is = hungry-is p h in
    let there : front ++ (returning done ∷ back) ≡ f ++ (pop_asleep ∷ b) =
      e ∙ ap (λ (x : Pc). f ++ (x ∷ b)) is in
    let same =
      sym (census_at front back (returning done)) ∙ ap census there ∙ census_at f b pop_asleep in
    rw is (back_in f b pop_woken (fed_later _ _ same s))

Signal-crowded :
    {q : Queue} {l : ℕ} (x : Bytes) (front back : List Pc) {ts : List Pc}
    → Signal crowded (front ++ (returning (element x) ∷ back)) ts
    → IsSound q l (beside (pop_signal x) (census (front ++ back)))
    → IsSound q l (census ts)
Signal-crowded x front back (nobody h) s =
    let e = census_at front back (returning (element x)) in
    back_in front back (returning (element x)) (
      cleared_already x (census (front ++ back))
        (omega (
          arith,
          (Same-of e).crowded_ones,
          weigh-crowded (front ++ (returning (element x) ∷ back)),
          h,
        ))
        s)
Signal-crowded x front back (one f b p e h) s =
    let (y, is) = crowded-is p h in
    let there : front ++ (returning (element x) ∷ back) ≡ f ++ (push_asleep y ∷ b) =
      e ∙ ap (λ (z : Pc). f ++ (z ∷ b)) is in
    let same =
      sym (census_at front back (returning (element x)))
      ∙ ap census there
      ∙ census_at f b (push_asleep y) in
    rw is (back_in f b (push_woken y) (cleared_later x y _ _ same s))

pub Step-IsSound : {s t : System} {p : Pc} → Step s p t → IsSoundSystem s → IsSoundSystem t
Step-IsSound (alone front back {p} {p'} e m) s =
    back_in front back p' (Move-IsSound _ m (look front back p e s))
Step-IsSound (signals_empty front back e g) s = Signal-hungry front back g (look front back _ e s)
Step-IsSound (signals_full front back x e g) s =
    Signal-crowded x front back g (look front back _ e s)
Step-IsSound (broadcasts front back e) s =
    let numbers = Same-of (census_at front back (returning done)) in
    let ts = front ++ (returning done ∷ back) in
    told_all (census (front ++ back)) (census (awake ts)) (inside_awake ts ∙ numbers.insiders)
      (hungry_awake ts) (omega (arith, crowded_awake ts, numbers.crowded_ones))
      (omega (arith, clearing_awake ts, numbers.clearers)) (look front back _ e s)

-- However the threads are interleaved, at most one has the mutex; where one waits for elements, there
-- are no more elements than threads on their way to look, and the same of room; and where one waits on
-- a closed queue, the broadcast is yet to come.
pub Reach-IsSound : {q : Queue} {n : ℕ} {s : System} → IsQueue q → Reach q n s → IsSoundSystem s
Reach-IsSound {q} {n} well start = rw (census_idle n) (record {
  well = well;
  mutex = refl;
  single = omega arith;
  fed = inl refl;
  roomy = inl refl;
  told = inr (inl refl);
})
Reach-IsSound well (later r step) = Step-IsSound step (Reach-IsSound well r)
