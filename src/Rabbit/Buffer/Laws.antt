-- ===== src/Rabbit/Buffer/Laws.antt =====
-- buffer.cpp keeps its bytes in order and inside the vector.
use pipelinerunner.Base.{
  ℕ, zero, suc, ◌+◌, ◌-◌, ◌≤◌, ◌<◌, ◌≡◌, refl, ap, ◌∙◌, min, List, [], ◌++◌, Option, none, some,
  arith, inl, inr, Option-cases, length, take, drop, replicate, length-append, length-take,
  length-drop, length-replicate, take-append, take-length, take-drop, take-take_le,
}
use mathlib.Core.Path.{subst}
use mathlib.Core.List.{append_assoc, append-nil}
use pipelinerunner.Rabbit.Buffer.{
  Buffer, contents, size, available_size, memcpy, write, resize, shift_left, create, drain,
}

-- The bytes in use lie inside the vector.
abbrev pub IsValid : Buffer → Type 0
IsValid b = b.in_use ≤ size b

pub length-contents : (b : Buffer) → IsValid b → length (contents b) ≡ b.in_use
unfolding contents
length-contents b v = omega (arith, length-take b.in_use b.bytes)

module _ (target source : List ℕ) (at : ℕ) (fits : at + length source ≤ length target) where
  pub length-memcpy : length (memcpy target at source) ≡ length target
  unfolding memcpy
  length-memcpy = omega (
    arith,
    length-append (take at target) (source ++ drop (at + length source) target),
    length-append source (drop (at + length source) target),
    length-take at target,
    length-drop (at + length source) target,
  )

  pub take-memcpy :
      (n : ℕ)
      → length source ≡ n
      → take (at + n) (memcpy target at source) ≡ take at target ++ source
  unfolding memcpy
  take-memcpy n e = rw (← append_assoc (take at target) source (drop (at + length source) target)) (
      ap (λ (k : ℕ). take k ((take at target ++ source) ++ drop (at + length source) target))
        (omega (arith, length-append (take at target) source, length-take at target))
      ∙ take-length (take at target ++ source) (drop (at + length source) target))

pub take-memcpy_front :
    (n : ℕ) (target source : List ℕ)
    → length source ≤ length target
    → length source ≡ n
    → take n (memcpy target 0 source) ≡ source
unfolding take
take-memcpy_front n target source fits e =
    ap (λ (k : ℕ). take k (memcpy target 0 source)) (omega arith)
    ∙ take-memcpy target source 0 (omega arith) n e

pub available_size_valid : (b : Buffer) → IsValid b → available_size b ≡ size b - b.in_use
available_size_valid b v = ground arith

module _ (b : Buffer) (source : List ℕ) (v : IsValid b) where
  abbrev room : ℕ
  room = min (length source) (available_size b)

  length-chunk : length (take room source) ≡ room
  length-chunk = omega (arith, length-take room source)

  chunk_fits : b.in_use + length (take room source) ≤ length b.bytes
  chunk_fits = omega (arith, length-take room source, available_size_valid b v)

  pub size-write : size (write b source).0 ≡ size b
  unfolding write
  size-write = ground (arith, length-memcpy b.bytes (take room source) b.in_use chunk_fits)

  pub write-IsValid : IsValid (write b source).0
  unfolding write
  write-IsValid = ground (arith, length-memcpy b.bytes (take room source) b.in_use chunk_fits)

  -- As many bytes are taken as there is room for.
  pub write-taken : (write b source).1 ≡ room
  unfolding write
  write-taken = ground arith

  pub in_use-write : (write b source).0.in_use ≡ b.in_use + room
  unfolding write
  in_use-write = ground arith

  -- A write to a valid buffer appends the bytes that it reports as taken, and no other.
  pub contents-write : contents (write b source).0 ≡ contents b ++ take (write b source).1 source
  unfolding write contents take
  contents-write = ground (
    arith,
    take-memcpy b.bytes (take room source) b.in_use chunk_fits room length-chunk,
    append-nil (take b.in_use b.bytes),
  )

module _ (b : Buffer) (n : ℕ) where
  pub size-resize : size (resize b n) ≡ n
  unfolding resize
  size-resize = omega (
    arith,
    length-append (take n b.bytes) (replicate (n - size b) 0),
    length-take n b.bytes,
    length-replicate {0} {A = ℕ} (n - size b) 0,
  )

  pub in_use-resize : (resize b n).in_use ≡ b.in_use
  unfolding resize
  in_use-resize = refl

  -- A resize of a valid buffer to a size that covers the bytes in use loses none of them.
  pub contents-resize : b.in_use ≤ n → IsValid b → contents (resize b n) ≡ contents b
  unfolding resize contents
  contents-resize h v =
      take-append b.in_use (take n b.bytes) (replicate (n - size b) 0)
        (omega (arith, length-take n b.bytes))
      ∙ take-take_le b.in_use n b.bytes h

drop_zero : (count : ℕ) (xs : List ℕ) → count ≡ 0 → drop count xs ≡ xs
unfolding drop
drop_zero zero xs e = refl
drop_zero (suc n) xs e = absurd (omega arith)

module _ (b : Buffer) (count : ℕ) (v : IsValid b) (h : count ≤ b.in_use) where
  abbrev left : ℕ
  left = b.in_use - count

  length-kept : length (take left (drop count b.bytes)) ≡ left
  length-kept = omega (arith, length-take left (drop count b.bytes), length-drop count b.bytes)

  kept_fits : 0 + length (take left (drop count b.bytes)) ≤ length b.bytes
  kept_fits = omega (arith, length-kept)

  abbrev Shifted : Option Buffer → Type 0
  Shifted none = ⊥
  Shifted (some c) = (c.in_use ≡ left) × (size c ≡ size b) × (contents c ≡ drop count (contents b))

  take_kept :
      take left (memcpy b.bytes 0 (take left (drop count b.bytes)))
      ≡ drop count (take b.in_use b.bytes)
  unfolding take
  take_kept =
      ap (λ (k : ℕ). take k (memcpy b.bytes 0 (take left (drop count b.bytes)))) (omega arith)
      ∙ take-memcpy b.bytes (take left (drop count b.bytes)) 0 kept_fits left length-kept
      ∙ take-drop count left b.in_use b.bytes (omega arith)

  -- `shiftLeft` drops what was handled from the front, when at most what is in use was.
  pub shift_left-Shifted : Shifted (shift_left b count)
  unfolding shift_left contents drop
  shift_left-Shifted = ground (
    arith,
    take_kept,
    length-memcpy b.bytes (take left (drop count b.bytes)) 0 kept_fits,
    drop_zero count (take b.in_use b.bytes),
  )

-- A valid buffer from which no more is shifted than is in use passes the assertion: it keeps its size,
-- and holds what it held without its first `count` bytes.
pub shift_left_ok :
    (b : Buffer) (count : ℕ)
    → IsValid b
    → count ≤ b.in_use
    → (c : Buffer) × (shift_left b count ≡ some c)
      × (c.in_use ≡ b.in_use - count)
      × (size c ≡ size b)
      × (contents c ≡ drop count (contents b))
shift_left_ok b count v h = elim (Option-cases (shift_left b count)) [
  | inl e ↦ absurd (subst (Shifted b count v h) e (shift_left-Shifted b count v h))
  | inr (c, e) ↦
      (let (u, s, k) = subst (Shifted b count v h) e (shift_left-Shifted b count v h) in
        (c, e, u, s, k))
]

pub create-IsValid : (n : ℕ) → IsValid (create n)
unfolding create
create-IsValid n = omega arith

pub size-create : (n : ℕ) → size (create n) ≡ n
unfolding create
size-create n = length-replicate n 0

pub contents-create : (n : ℕ) → contents (create n) ≡ []
unfolding create contents take
contents-create n = refl

pub contents-drain : (b : Buffer) → contents (drain b) ≡ []
unfolding drain contents take
contents-drain b = refl

pub shift_left_empty : (b : Buffer) (count : ℕ) → b.in_use ≡ 0 → shift_left b count ≡ some b
unfolding shift_left
shift_left_empty b count e = ground arith

pub contents_empty : (b : Buffer) → b.in_use ≡ 0 → contents b ≡ []
unfolding contents take
contents_empty b e = rw e

-- The assertion: no more is shifted than is in use.
pub shift_left_too_far :
    (b : Buffer) (count : ℕ) → 0 < b.in_use → b.in_use < count → shift_left b count ≡ none
unfolding shift_left
shift_left_too_far b count some_left far = ground arith
