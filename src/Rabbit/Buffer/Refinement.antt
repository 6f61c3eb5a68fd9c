-- ===== src/Rabbit/Buffer/Refinement.antt =====
-- buffer.cpp as a bounded queue of bytes, over any sequence of calls.
use mathlib.Core.Option.{some-injective}
use pipelinerunner.Base.{
  ℕ, ◌-◌, ◌≤◌, ◌≡◌, refl, ap, ◌∙◌, min, Bool, true, false, List, [], ◌∷◌, ◌++◌, Option, none, some,
  arith, leb, length, take, drop, inl, inr, Option-cases, if◌then◌else◌,
}
use pipelinerunner.Rabbit.Buffer.{Buffer, contents, size, write, resize, shift_left, drain}
use pipelinerunner.Rabbit.Buffer.Laws.{
  available_size_valid, IsValid, length-contents, size-write, write-IsValid, write-taken,
  contents-write, size-resize, in_use-resize, contents-resize, shift_left_ok, contents-drain,
}

-- What a Buffer promises: the bytes that wait, in order, and the room for them.
pub record ByteQueue : Type 0 where
  pub waiting : List ℕ
  pub capacity : ℕ

pub data Call : Type 0 where
  writes : List ℕ → Call
  shifts resizes : ℕ → Call
  drains : Call

-- Bytes that do not fit are left out. More than what waits may not be taken off, and no room may be
-- taken away from it.
unfoldable pub promise : ByteQueue → Call → Option ByteQueue
promise q (writes bytes) = some (record q {
  waiting = q.waiting ++ take (min (length bytes) (q.capacity - length q.waiting)) bytes;
})
promise q (shifts count) =
    if leb count (length q.waiting)
    then some (record q { waiting = drop count q.waiting })
    else none
promise q (resizes size) =
    if leb (length q.waiting) size then some (record q { capacity = size }) else none
promise q drains = some (record q { waiting = [] })

unfoldable pub perform : Buffer → Call → Option Buffer
perform b (writes bytes) = some (write b bytes).0
perform b (shifts count) = shift_left b count
perform b (resizes n) = some (resize b n)
perform b drains = some (drain b)

module _ {S : Type 0} (step : S → Call → Option S) where
  unfoldable pub run : S → List Call → Option S
  run s [] = some s
  run s (c ∷ cs) = elim (step s c) [ none ↦ none | some s' ↦ run s' cs ]

-- The queue that a buffer stands for.
unfoldable pub view : Buffer → ByteQueue
view b = record { waiting = contents b; capacity = size b }

-- The buffer performs what the queue promises.
abbrev pub Performs : Option Buffer → ByteQueue → Type 0
Performs r q = (b : Buffer) × (r ≡ some b) × IsValid b × (view b ≡ q)

same_queue :
    (xs ys : List ℕ) (m n : ℕ)
    → xs ≡ ys
    → m ≡ n
    → ◌≡◌ {A = ByteQueue}
        (record { waiting = xs; capacity = m })
        (record { waiting = ys; capacity = n })
same_queue xs ys m n e f = rw (e, f) refl

drain-IsValid : (b : Buffer) → IsValid (drain b)
unfolding drain
drain-IsValid b = omega arith

view-drain : (b : Buffer) → view (drain b) ≡ record { waiting = []; capacity = size b }
unfolding view drain
view-drain b = same_queue _ _ _ _ (contents-drain b) refl

guard_some :
    (test : Bool) (x q : ByteQueue)
    → (if test then some x else none) ≡ some q
    → (test ≡ true) × (x ≡ q)
guard_some true x q e = (refl, some-injective x q e)
guard_some false x q e = cc

perform-Performs :
    (b : Buffer) (c : Call) (q : ByteQueue)
    → IsValid b
    → promise (view b) c ≡ some q
    → Performs (perform b c) q
unfolding perform promise view
perform-Performs b (writes bytes) q v e = (
  (write b bytes).0,
  refl,
  write-IsValid b bytes v,
  same_queue (contents (write b bytes).0) _ _ _
        (contents-write b bytes v
          ∙ ap (λ (n : ℕ). contents b ++ take n bytes)
              (omega (arith, write-taken b bytes v, length-contents b v, available_size_valid b v)))
        (size-write b bytes v)
      ∙ some-injective _ q e,
)
perform-Performs b (shifts count) q v e =
    let (fits, same) = guard_some (leb count (length (contents b))) _ q e in
    let (c, r, left, s, held) =
      shift_left_ok b count v (ground (arith, fits, length-contents b v)) in
    (c, r, omega (arith, left, s, v), same_queue (contents c) _ (size c) _ held s ∙ same)
perform-Performs b (resizes n) q v e =
    let (fits, same) = guard_some (leb (length (contents b)) n) _ q e in
    let covers : b.in_use ≤ n = ground (arith, fits, length-contents b v) in
    (
      resize b n,
      refl,
      omega (arith, covers, size-resize b n, in_use-resize b n),
      same_queue (contents (resize b n)) _ (size (resize b n)) _ (contents-resize b n covers v)
            (size-resize b n)
          ∙ same,
    )
perform-Performs b drains q v e =
    (drain b, refl, drain-IsValid b, view-drain b ∙ some-injective _ q e)

-- Over any calls that the queue allows, a valid buffer performs them too: no assertion fails, the buffer
-- stays valid, and it holds what the queue holds, with the same room.
pub run_refines :
    (calls : List Call) (b : Buffer) (q : ByteQueue)
    → IsValid b
    → run promise (view b) calls ≡ some q
    → (b' : Buffer) × (run perform b calls ≡ some b') × IsValid b' × (view b' ≡ q)
unfolding run
run_refines [] b q v e = (b, refl, v, some-injective (view b) q e)
run_refines (c ∷ cs) b q v e = elim (Option-cases (promise (view b) c)) [
  | inl stop ↦ cc (rw (stop, run) at e)
  | inr (p, go) ↦
      (let (b', r, v', same) = perform-Performs b c p v go in
        let (b'', r', v'', same') = run_refines cs b' q v' (rw (go, run, ← same) at e) in
        (b'', rw (r, run) r', v'', same'))
]
