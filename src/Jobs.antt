-- ===== src/Jobs.antt =====
-- core/jobs/jobs.go: `tailStore`, the bounded output of a background job. Its mutex makes each method
-- one step. Bytes are numbers; `int` and `int64` are unbounded, and `total` is never negative.
pub mod Tail
pub mod Registry
mod Tests
use gocel.Prelude.{ℕ, ◌+◌, ◌-◌, List, [], ◌∷◌, ◌++◌, length, drop, ltb, if◌then◌else◌}
use gocel.Prelude.Int.{ℤ, pos, pos_part, ◌-ℤ◌, leb_ℤ, ltb_ℤ}

pub record TailStore : Type 0 where
  pub buf : List ℕ
  pub cap : ℤ
  pub total : ℕ

abbrev pub default_store_cap : ℤ
default_store_cap = pos 1_048_576

pub new_tail_store : ℤ → TailStore
new_tail_store cap = record {
  buf = [];
  cap = if leb_ℤ cap (pos 0) then default_store_cap else cap;
  total = 0;
}

-- The test after the bytes are appended.
trim : TailStore → TailStore
trim s =
    if ltb_ℤ s.cap (pos (length s.buf))
    then record s { buf = drop (pos_part (pos (length s.buf) -ℤ s.cap)) s.buf }
    else s

pub write : List ℕ → TailStore → TailStore
unfolding trim
write p s = trim (record s { buf = s.buf ++ p; total = s.total + length p })

-- The bounds that `read` puts on its first index.
clamp : ℤ → ℕ → ℕ
clamp start n = if ltb_ℤ start (pos 0) then 0 else if ltb_ℤ (pos n) start then n else pos_part start

pub read : ℤ → TailStore → List ℕ × ℕ
unfolding clamp
read since s =
    let n = length s.buf in (drop (clamp (since -ℤ (pos s.total -ℤ pos n)) n) s.buf, s.total)

pub write_all : List (List ℕ) → TailStore → TailStore
write_all [] s = s
write_all (p ∷ ps) s = write_all ps (write p s)
