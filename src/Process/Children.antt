-- ===== src/Process/Children.antt =====
-- The two children of src/core.c, from the fork to the function that they run.
use Prim.Native.String.{String}
use mr_lib.Common.{
  ℕ, ◌≡◌, ◌≢◌, refl, ap, sym, ◌∙◌, inl, inr, Bool, true, false, Option, none, List, ◌==◌, ==_iff,
  Bool-cases, ==_differ, arith,
}
use mr_lib.Os.{Arg, Os}
use mr_lib.Os.Io.{Io, Outcome, Handler, succeed, syscall_ret, ◌>>=◌}
use mr_lib.Os.Lawful.{update}
use mr_lib.Os.Steady.{Frame, Settles, done, refused}
use mr_lib.Log.{LogFile, mr_log}
use mr_lib.Log.Steady.{mr_log-Steady}
use mr_lib.Process.{Processes, or_exit}
use mr_lib.Process.Calls
use mr_lib.Process.Calls.{ask}
use mr_lib.Process.Spawn.{Pipes, child_step, wire_reducer}
use mr_lib.Process.Wiring.{
  End, Slot, stdin, stdout, at_end, main_to_mapper_read, main_to_mapper_write,
  mapper_to_reducer_read, mapper_to_reducer_write, reducer_to_main_read, reducer_to_main_write,
  fd_of, index, AreApart, inherited, reducer_table, slot_at, slot_at-index, put, Wiring, Reaches,
  goes, returned, Reaches-bind, Reaches-exit, Reaches-return, Reaches-mono,
}

clash : {a b : ℕ} → (a == b) ≡ false → a ≢ b
clash {a} {b} e h = absurd (ground (arith, ==_iff a b))

index-injective : (s t : Slot) → index s ≡ index t → s ≡ t
index-injective s t e = sym (slot_at-index s) ∙ ap slot_at e ∙ slot_at-index t

-- slot by slot
every :
    (v u : Slot → Option End)
    → v stdin ≡ u stdin
    → v stdout ≡ u stdout
    → v (at_end main_to_mapper_read) ≡ u (at_end main_to_mapper_read)
    → v (at_end main_to_mapper_write) ≡ u (at_end main_to_mapper_write)
    → v (at_end mapper_to_reducer_read) ≡ u (at_end mapper_to_reducer_read)
    → v (at_end mapper_to_reducer_write) ≡ u (at_end mapper_to_reducer_write)
    → v (at_end reducer_to_main_read) ≡ u (at_end reducer_to_main_read)
    → v (at_end reducer_to_main_write) ≡ u (at_end reducer_to_main_write)
    → (s : Slot) → v s ≡ u s
every v u a b c d e f g h stdin = a
every v u a b c d e f g h stdout = b
every v u a b c d e f g h (at_end main_to_mapper_read) = c
every v u a b c d e f g h (at_end main_to_mapper_write) = d
every v u a b c d e f g h (at_end mapper_to_reducer_read) = e
every v u a b c d e f g h (at_end mapper_to_reducer_write) = f
every v u a b c d e f g h (at_end reducer_to_main_read) = g
every v u a b c d e f g h (at_end reducer_to_main_write) = h

module _ {W : Type 0} ⦃os : Os W⦄ ⦃processes : Processes W⦄ (wiring : Wiring os processes)
    (p : Pipes) where
  open wiring use {table}

  -- the table of the process has `v` in the slots, and elsewhere no end of a pipe
  pub record Holds (v : Slot → Option End) (w : W) : Type 0 where
    pub at : (s : Slot) → table w (fd_of p s) ≡ v s
    pub others : (fd : ℕ) → ((s : Slot) → fd ≢ fd_of p s) → table w fd ≡ none

  put-slot :
      (s t : Slot) (x : Option End) (v : Slot → Option End) (w : W)
      → AreApart p
      → table w (fd_of p t) ≡ v t
      → update (fd_of p s) x (table w) (fd_of p t) ≡ put s x v t
  put-slot s t x v w apart h = elim (Bool-cases (index s == index t)) [
    | inl same ↦
        let e = index-injective s t ((==_iff (index s) (index t)).0 same) in
        let here : (fd_of p s == fd_of p t) ≡ true =
          (==_iff (fd_of p s) (fd_of p t)).1 (ap (fd_of p) e) in
        rw (same, here) refl
    | inr other ↦
        let there : (fd_of p s == fd_of p t) ≡ false =
          ==_differ (fd_of p s) (fd_of p t) (λ e. clash other (apart s t e)) in
        rw (other, there) h
  ]

  pub Holds-put :
      (s : Slot) (x : Option End) (v : Slot → Option End) (w w' : W)
      → AreApart p
      → table w' ≡ update (fd_of p s) x (table w)
      → Holds v w
      → Holds (put s x v) w'
  Holds-put s x v w w' apart e h = record {
    at = λ t. ap (λ (f : ℕ → Option End). f (fd_of p t)) e ∙ put-slot s t x v w apart (h.at t);
    others = λ fd away.
        let there : (fd_of p s == fd) ≡ false = ==_differ (fd_of p s) fd (λ q. away s (sym q)) in
        ap (λ (f : ℕ → Option End). f fd) e ∙ rw there (h.others fd away);
  }

  pub Holds-agree :
      (v u : Slot → Option End) (w : W) → ((s : Slot) → v s ≡ u s) → Holds v w → Holds u w
  Holds-agree v u w agree h = record { at = λ s. h.at s ∙ agree s; others = h.others }

  -- calls that leave the table alone
  Holds-same : (v : Slot → Option End) (w w' : W) → table w' ≡ table w → Holds v w → Holds v w'
  Holds-same v w w' e h = record {
    at = λ s. ap (λ (f : ℕ → Option End). f (fd_of p s)) e ∙ h.at s;
    others = λ fd away. ap (λ (f : ℕ → Option End). f fd) e ∙ h.others fd away;
  }

  abbrev table_frame : Frame os
  table_frame = record {
    Later = λ u v. table v ≡ table u;
    now = λ w. refl;
    chain = λ a b. b ∙ a;
    called = λ r _ w. wiring.table_os r w;
  }

  Settles-Reaches :
      {A : Type 0} {w : W} {P : W → Type 0} {o : Outcome A × W}
      → Settles table_frame w o
      → ((w' : W) → table w' ≡ table w → P w')
      → Reaches (λ _. P) o
  Settles-Reaches (done k) next = goes (next _ k)
  Settles-Reaches (refused k) next = returned

  log-Reaches :
      (log_file : LogFile) (level pname tname format : String) (args : List Arg) (h : Handler W)
      (v : Slot → Option End) (w : W)
      → Holds v w
      → Reaches
          (λ _. Holds v)
          (syscall_ret (mr_log {W = W} log_file level pname tname format args) h w)
  unfolding syscall_ret
  log-Reaches log_file level pname tname format args h v w holds = Reaches-return h (
      Settles-Reaches ((mr_log-Steady table_frame log_file level pname tname format args).at w)
        λ w' e. Holds-same v w w' e holds)

  succeed-Reaches :
      (b : Bool) (w : W) {P : W → Type 0} → (b ≡ true → P w) → Reaches (λ _. P) (succeed b w)
  unfolding succeed
  succeed-Reaches true w good = goes (good refl)
  succeed-Reaches false w good = returned

  pub close-Reaches :
      (s : Slot) (v : Slot → Option End) (w : W)
      → AreApart p
      → Holds v w
      → Reaches (λ _. Holds (put s none v)) (Calls.close {W = W} (fd_of p s) w)
  unfolding Calls.close ask ◌>>=◌
  close-Reaches s v w apart holds =
      succeed-Reaches _ _ λ e. Holds-put s none v w _ apart (wiring.closed (fd_of p s) w e) holds

  dup2-Reaches :
      (s t : Slot) (v : Slot → Option End) (w : W)
      → AreApart p
      → Holds v w
      → Reaches (λ _. Holds (put t (v s) v)) (Calls.dup2 {W = W} (fd_of p s) (fd_of p t) w)
  unfolding Calls.dup2 ask ◌>>=◌
  dup2-Reaches s t v w apart holds = succeed-Reaches _ _ λ e.
      Holds-put t (v s) v w _ apart
        (wiring.duplicated (fd_of p s) (fd_of p t) w e
          ∙ ap (λ (x : Option End). update (fd_of p t) x (table w)) (holds.at s))
        holds

  child_step-Reaches :
      {A : Type 0} (pname : String) (log_file : LogFile) (m : Io W A) (message : String)
      (rest : List ℕ) (w : W) {P : W → Type 0}
      → Reaches (λ _. P) (m w)
      → Reaches (λ _. P) (child_step {W = W} pname log_file m message rest w)
  unfolding child_step or_exit
  child_step-Reaches pname log_file m message rest w r = Reaches-exit _ r

  -- The same of the reducer: the pipe from the mapper is its standard input, and the pipe to the main
  -- process its standard output.
  pub wire_reducer-Holds :
      (log_file : LogFile) (w : W)
      → AreApart p
      → Holds inherited w
      → Reaches (λ _. Holds reducer_table) (wire_reducer {W = W} log_file p w)
  unfolding wire_reducer ◌>>=◌
  wire_reducer-Holds log_file w apart h =
      Reaches-bind (log-Reaches log_file _ _ _ _ _ _ _ w h) λ _ w₀ h₀.
        Reaches-bind
          (child_step-Reaches _ _ _ _ _ _
            (close-Reaches (at_end main_to_mapper_read) _ w₀ apart h₀))
          λ _ w₁ h₁.
            Reaches-bind
              (child_step-Reaches _ _ _ _ _ _
                (close-Reaches (at_end main_to_mapper_write) _ w₁ apart h₁))
              λ _ w₂ h₂.
                Reaches-bind
                  (child_step-Reaches _ _ _ _ _ _
                    (close-Reaches (at_end mapper_to_reducer_write) _ w₂ apart h₂))
                  λ _ w₃ h₃.
                    Reaches-bind
                      (child_step-Reaches _ _ _ _ _ _
                        (close-Reaches (at_end reducer_to_main_read) _ w₃ apart h₃))
                      λ _ w₄ h₄.
                        Reaches-bind
                          (child_step-Reaches _ _ _ _ _ _
                            (dup2-Reaches (at_end mapper_to_reducer_read) stdin _ w₄ apart h₄))
                          λ _ w₅ h₅.
                            Reaches-bind
                              (child_step-Reaches _ _ _ _ _ _
                                (close-Reaches (at_end mapper_to_reducer_read) _ w₅ apart h₅))
                              λ _ w₆ h₆.
                                Reaches-bind
                                  (child_step-Reaches _ _ _ _ _ _ (
                                    dup2-Reaches (at_end reducer_to_main_write) stdout _ w₆ apart
                                      h₆))
                                  λ _ w₇ h₇.
                                    Reaches-mono
                                      (child_step-Reaches _ _ _ _ _ _ (
                                        close-Reaches (at_end reducer_to_main_write) _ w₇ apart h₇))
                                      λ w₈ h₈.
                                        Holds-agree _ _ w₈
                                          (every _ _ refl refl refl refl refl refl refl refl) h₈
