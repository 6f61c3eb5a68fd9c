-- ===== src/Converter/Handles.antt =====
-- Queues of handles: a handle that is not there, and handles that are all distinct.
use pipelinerunner.Base.{ℕ, ◌<◌, ◌≢◌, List, [], ◌∷◌, ◌++◌, arith}

-- The handle is not in the queue.
abbrev pub NotIn : ℕ → List ℕ → Type 0
NotIn k [] = Unit
NotIn k (h ∷ q) = (k ≢ h) × NotIn k q

-- No handle stands in the queue twice.
abbrev pub AllDistinct : List ℕ → Type 0
AllDistinct [] = Unit
AllDistinct (h ∷ q) = NotIn h q × AllDistinct q

abbrev pub All : (ℕ → Type 0) → List ℕ → Type 0
All P [] = Unit
All P (h ∷ q) = P h × All P q

pub All-map : (P Q : ℕ → Type 0) (q : List ℕ) → ((k : ℕ) → P k → Q k) → All P q → All Q q
All-map P Q [] f all = tt
All-map P Q (h ∷ q) f all = (f h all.0, All-map P Q q f all.1)

-- What holds of a queue holds of what is left of it.
pub All-suffix : (P : ℕ → Type 0) (ended q : List ℕ) → All P (ended ++ q) → All P q
All-suffix P [] q all = all
All-suffix P (h ∷ ended) q all = All-suffix P ended q all.1

pub distinct_suffix : (ended q : List ℕ) → AllDistinct (ended ++ q) → AllDistinct q
distinct_suffix [] q d = d
distinct_suffix (h ∷ ended) q d = distinct_suffix ended q d.1

pub All-snoc : (P : ℕ → Type 0) (q : List ℕ) (h : ℕ) → All P q → P h → All P (q ++ h ∷ [])
All-snoc P [] h all p = (p, tt)
All-snoc P (k ∷ q) h all p = (all.0, All-snoc P q h all.1 p)

NotIn-snoc : (k h : ℕ) (q : List ℕ) → k ≢ h → NotIn k q → NotIn k (q ++ h ∷ [])
NotIn-snoc k h [] n m = (n, tt)
NotIn-snoc k h (j ∷ q) n m = (m.0, NotIn-snoc k h q n m.1)

pub distinct_snoc :
    (q : List ℕ) (h : ℕ) → All (λ k. k < h) q → AllDistinct q → AllDistinct (q ++ h ∷ [])
distinct_snoc [] h less d = (tt, tt)
distinct_snoc (k ∷ q) h less d =
    (NotIn-snoc k h q (λ e. absurd (omega (arith, less.0, e))) d.0, distinct_snoc q h less.1 d.1)
