-- ===== src/Reducer/Processing/Ending.antt =====
-- What has become of the workers when reducer_process_main of src/reducer.c succeeds.
use mr_lib.Common.{
  ℕ, zero, suc, ◌+◌, ◌<◌, ◌≡◌, refl, inl, inr, ◌⊎◌, Option, none, some, ◌==◌, ==_iff, Bool-cases,
  arith,
}
use mathlib.Core.Path.{subst}
use mr_lib.Os.{Os}
use mr_lib.Os.Io.{
  Io, Outcome, ok, fail, halt, pure, failed, ◌>>=◌, Handler, recover, no_handler, syscall_exit,
}
use mr_lib.Log.{LogFile}
use mr_lib.Process.Waiting.{Answers, result, refusal, stop, Answers-bind, Answers-handle, anything}
use mr_lib.Queue.{Shared, Threads}
use mr_lib.Reducer.Collect.{Collected}
use mr_lib.Reducer.Workers.{beside_queue}
use mr_lib.Reducer.Processing.{
  Crew, tear_down, free_blocks, report, join_worker, join_workers, process_tokens,
}
use mr_lib.Reducer.Processing.Joining.{
  Joins, AllJoined, report_lasts, tear_down_lasts, free_blocks_lasts, message_lasts,
}

option_cases : {A : Type 0} (o : Option A) → (o ≡ none) ⊎ ((a : A) × (o ≡ some a))
option_cases none = inl refl
option_cases (some a) = inr (a, refl)

module _ {S : Type 0} {B : Type 0} {Q : B → S → Type 0} where
  -- what comes behind any code at all
  behind_any :
      {A : Type 0} (m : Io S A) (f : A → Io S B) (s : S)
      → ((a : A) (s' : S) → Answers (λ _. Unit {0}) Q (f a s'))
      → Answers (λ _. Unit {0}) Q ((m >>= f) s)
  unfolding ◌>>=◌
  behind_any {A} m f s next = Answers-bind (anything (m s)) λ a s' _. next a s'

  behind :
      {A : Type 0} {P : A → S → Type 0} (m : Io S A) (f : A → Io S B) (s : S)
      → Answers (λ _. Unit {0}) P (m s)
      → ((a : A) (s' : S) → P a s' → Answers (λ _. Unit {0}) Q (f a s'))
      → Answers (λ _. Unit {0}) Q ((m >>= f) s)
  unfolding ◌>>=◌
  behind m f s first next = Answers-bind first next

  behind_handler :
      (h : Handler S) (f : Unit {0} → Io S B) (s : S)
      → Answers (λ _. Unit {0}) Q (f tt (h s))
      → Answers (λ _. Unit {0}) Q (((λ s'. pure tt (h s')) >>= f) s)
  unfolding ◌>>=◌ pure
  behind_handler h f s last = last

last_message :
    {W : Type 0} (P : W → Type 0) (m : Io W (Unit {0})) (s : Shared W)
    → P (m s.1).1
    → Answers
        (λ _. Unit {0})
        (λ _ (s' : Shared W). P s'.1)
        (syscall_exit (beside_queue m) no_handler s)
unfolding syscall_exit
last_message {W} P m s p = ended (m s.1) p
  where
    ended :
        (o : Outcome (Unit {0}) × W)
        → P o.1
        → Answers
            (λ _. Unit {0})
            (λ _ (s' : Shared W). P s'.1)
            (recover (o.0, (s.0, o.1)) no_handler)
    ended (ok a, w) p = result p
    ended (fail, w) p = refusal tt
    ended (halt r, w) p = stop

module _ {W : Type 0} ⦃os : Os W⦄ (threads : Threads W) (crew : Crew W)
    (joining : Joins os threads crew) (log_file : LogFile) where
  open joining use {Joined, joins, lasts}

  abbrev All : ℕ → W → Type 0
  All = AllJoined threads crew joining log_file

  -- one worker more
  All-more : (i : ℕ) (s : Shared W) → All i s.1 → All (i + 1) (crew.join i s).1.1
  All-more i s before k less = elim (Bool-cases (k == i)) [
    | inl e ↦ let same : k ≡ i = (==_iff k i).0 e in rw same (joins i s)
    | inr e ↦
        let earlier : k < i = ground (arith, less, ==_iff k i) in
        (lasts k).joined i s (before k earlier)
  ]

  join_worker-All :
      (i : ℕ) (s : Shared W)
      → All i s.1
      → Answers
          (λ _. Unit {0})
          (λ _ (s' : Shared W). All (i + 1) s'.1)
          (join_worker threads crew log_file i s)
  unfolding join_worker failed pure
  join_worker-All i s before = elim (option_cases (crew.join i s).0) [
    | inl e ↦ rw e (refusal tt)
    | inr (code, e) ↦ rw e (result (All-more i s before))
  ]

  join_workers-All :
      (left i : ℕ) (s : Shared W)
      → All i s.1
      → Answers
          (λ _. Unit {0})
          (λ _ (s' : Shared W). All (i + left) s'.1)
          (join_workers threads crew log_file left i s)
  unfolding join_workers ◌>>=◌ pure syscall_exit
  join_workers-All zero i s before =
      let same : i ≡ i + 0 = omega arith in result (subst (λ (n : ℕ). All n s.1) same before)
  join_workers-All (suc left) i s before =
      Answers-bind (Answers-handle _ (λ v h. tt) (join_worker-All i s before)) λ code u sofar.
        let same : i + 1 + left ≡ i + suc left = omega arith in
        subst
          (λ (n : ℕ).
            Answers (λ _. Unit {0}) (λ _ (s' : Shared W). All n s'.1)
              (join_workers threads crew log_file left (i + 1)
                (report threads crew log_file i code u)))
          same
          (join_workers-All left (i + 1) (report threads crew log_file i code u) λ k less.
            report_lasts threads crew log_file (Joined k) (lasts k) i code u (sofar k less))

  -- Behind its collection phase the reducer returns EXIT_SUCCESS only when it has called thrd_join for
  -- every worker, whatever the calls return.
  pub process_tokens-AllJoined :
      (push_fuel : ℕ) (results_count : W → ℕ) (reducer_threads : ℕ) (collected : Collected)
      (s : Shared W)
      → Answers
          (λ _. Unit {0})
          (λ _ s'. AllJoined threads crew joining log_file reducer_threads s'.1)
          (process_tokens threads crew log_file push_fuel results_count reducer_threads collected s)
  unfolding process_tokens
  process_tokens-AllJoined push_fuel results_count reducer_threads collected s =
      behind_any _ _ s λ _ s₁. behind_any _ _ s₁ λ blocks s₂. behind_any _ _ s₂ λ _ s₃.
        behind_any _ _ s₃ λ count s₄. behind_any _ _ s₄ λ _ s₅.
          behind _ _ s₅
            (join_workers-All reducer_threads 0 s₅ λ i less. absurd (omega (arith, less)))
            λ _ s₆ all.
              behind_handler
                (λ t. free_blocks threads crew log_file blocks (tear_down threads crew log_file t))
                _ s₆
                (last_message (All reducer_threads) _ _ λ i less.
                  message_lasts threads crew log_file (Joined i) (lasts i) _ _ _ _ _ _ (
                    free_blocks_lasts threads crew log_file (Joined i) (lasts i) blocks
                      (tear_down threads crew log_file s₆)
                      (tear_down_lasts threads crew log_file (Joined i) (lasts i) s₆
                        (all i (omega (arith, less))))))
