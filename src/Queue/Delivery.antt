-- ===== src/Queue/Delivery.antt =====
-- What goes into the queue of src/queue.c and what comes out of it, as bags.
use mathlib.Core.List.Perm
use mathlib.Core.Path.{subst}
use mathlib.Core.List.{Perm, perm_append_singleton}
use mr_lib.Common.{
  Bytes, ℕ, ◌≡◌, refl, sym, ◌∙◌, List, [], ◌∷◌, ◌++◌, append_assoc, append-nil, take,
}
use mr_lib.Queue.{Queue}
use mr_lib.Queue.Laws.{IsQueue, stack}
use mr_lib.Queue.System.{System, Reach}
use mr_lib.Queue.Refinement.{
  Stack, Act, push, pop, Does, does_nothing, does_push, does_pop, does_refuse, does_close, Runs,
  ready, then_does, acts, Reach-Runs,
}

-- the elements that were pushed, of which `size` bytes each are stored, and those that pops returned
abbrev pub pushed_in : (size : ℕ) → List Act → List Bytes
pushed_in size [] = []
pushed_in size (push x ∷ rest) = take size x ∷ pushed_in size rest
pushed_in size (_ ∷ rest) = pushed_in size rest

abbrev pub popped_in : List Act → List Bytes
popped_in [] = []
popped_in (pop x ∷ rest) = x ∷ popped_in rest
popped_in (_ ∷ rest) = popped_in rest

pushed_in-append :
    (size : ℕ) (a b : List Act) → pushed_in size (a ++ b) ≡ pushed_in size a ++ pushed_in size b
pushed_in-append size [] b = refl
pushed_in-append size (push x ∷ a) b = rw (pushed_in-append size a b)
pushed_in-append size (_ ∷ a) b = pushed_in-append size a b

popped_in-append : (a b : List Act) → popped_in (a ++ b) ≡ popped_in a ++ popped_in b
popped_in-append [] b = refl
popped_in-append (pop x ∷ a) b = rw (popped_in-append a b)
popped_in-append (_ ∷ a) b = popped_in-append a b

-- one action
Does-Perm :
    {a : Act} {s t : Stack}
    → Does a s t
    → Perm (s.content ++ pushed_in s.element_size (a ∷ [])) (popped_in (a ∷ []) ++ t.content)
Does-Perm (does_nothing s) = rw (append-nil s.content) Perm.rfl
Does-Perm (does_push x s room) = perm_append_singleton (take s.element_size x) s.content
Does-Perm (does_pop x rest s e) = rw (append-nil s.content, e) Perm.rfl
Does-Perm (does_refuse s none_left shut) = rw (append-nil s.content) Perm.rfl
Does-Perm (does_close s) = rw (append-nil s.content) Perm.rfl

Does-size : {a : Act} {s t : Stack} → Does a s t → t.element_size ≡ s.element_size
Does-size (does_nothing s) = refl
Does-size _ = refl

Runs-size : {before : List Act} {s t : Stack} → Runs before s t → t.element_size ≡ s.element_size
Runs-size (ready s) = refl
Runs-size (then_does r d) = Does-size d ∙ Runs-size r

Runs-Perm :
    {before : List Act} {s t : Stack}
    → Runs before s t
    → Perm (s.content ++ pushed_in s.element_size before) (popped_in before ++ t.content)
Runs-Perm (ready s) = rw (append-nil s.content) Perm.rfl
Runs-Perm (then_does {before} {a} {s} {t} {u} r d) =
    let size = s.element_size in
    let new = pushed_in size (a ∷ []) in
    let gone = popped_in (a ∷ []) in
    let one : Perm (t.content ++ new) (gone ++ u.content) =
      subst (λ (k : ℕ). Perm (t.content ++ pushed_in k (a ∷ [])) (gone ++ u.content)) (Runs-size r)
        (Does-Perm d) in
    let first : Perm ((s.content ++ pushed_in size before) ++ new)
        (popped_in before ++ (t.content ++ new)) =
      rw (sym (append_assoc (popped_in before) t.content new))
        (Perm.append_right new (Runs-Perm r)) in
    rw
      (
        pushed_in-append size before (a ∷ []),
        popped_in-append before (a ∷ []),
        sym (append_assoc s.content (pushed_in size before) new),
        append_assoc (popped_in before) gone u.content,
      )
      (Perm.trans first (Perm.append_left (popped_in before) one))

-- However the threads are interleaved, the elements that the queue held and those that were pushed are,
-- as bags, those that pops have returned and those that it holds: none is lost and none delivered twice.
pub Reach-delivered :
    {q : Queue} {n : ℕ} {s : System}
    → IsQueue q
    → (r : Reach q n s)
    → Perm (stack q ++ pushed_in q.element_size (acts r)) (popped_in (acts r) ++ stack s.queue)
Reach-delivered well r = Runs-Perm (Reach-Runs well r)
