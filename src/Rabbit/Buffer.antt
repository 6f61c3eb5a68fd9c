-- ===== src/Rabbit/Buffer.antt =====
-- pipelineutils/modules/rabbitmq/src/buffer.h and buffer.cpp. The vector is the list of its bytes;
-- a pointer and a size, as arguments, are the list of the bytes that they delimit.
pub mod Laws
pub mod Refinement
use pipelinerunner.Base.{
  ℕ, ◌+◌, ◌-◌, ◌^◌, ◌≤◌, min, ltb, Bool, ◌||◌, List, ◌++◌, Option, none, some, leb, ◌=ℕ=◌,
  if◌then◌else◌, length, take, drop, replicate,
}

pub record Buffer : Type 0 where
  pub bytes : List ℕ
  pub in_use : ℕ

-- `Buffer(size)`
pub create : ℕ → Buffer
create size = record { bytes = replicate size 0; in_use = 0 }

abbrev pub size : Buffer → ℕ
size b = length b.bytes

abbrev pub data_size : Buffer → ℕ
data_size b = b.in_use

-- The bytes from `data()` on, `dataSize()` of them.
unfoldable pub contents : Buffer → List ℕ
contents b = take b.in_use b.bytes

-- `size_t` wraps where more is in use than there is, which `resize` can leave.
abbrev pub available_size : Buffer → ℕ
available_size b = if ltb (size b) b.in_use then 2 ^ 64 + size b - b.in_use else size b - b.in_use

-- `memcpy(target + at, source, source's length)`, inside the target.
pub memcpy : List ℕ → ℕ → List ℕ → List ℕ
memcpy target at source = take at target ++ (source ++ drop (at + length source) target)

-- `write`: the new buffer, and how many bytes were taken.
pub write : Buffer → List ℕ → Buffer × ℕ
write b source =
    if b.in_use =ℕ= size b
    then (b, 0)
    else (let taken = min (length source) (available_size b) in
        (
          record { bytes = memcpy b.bytes b.in_use (take taken source); in_use = b.in_use + taken },
          taken,
        ))

-- `std::vector::resize`: cuts off, or fills up with zeros. `_use` is not looked at.
pub resize : Buffer → ℕ → Buffer
resize b n = record b { bytes = take n b.bytes ++ replicate (n - size b) 0 }

unfoldable pub drain : Buffer → Buffer
drain b = record b { in_use = 0 }

-- `shiftLeft`; `none` is the failed assertion.
pub shift_left : Buffer → ℕ → Option Buffer
shift_left b count =
    if count =ℕ= 0 || b.in_use =ℕ= 0
    then some b
    else if leb count b.in_use
    then some (
        let left = b.in_use - count in
        record { bytes = memcpy b.bytes 0 (take left (drop count b.bytes)); in_use = left })
    else none
