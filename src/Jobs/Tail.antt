-- ===== src/Jobs/Tail.antt =====
-- The output store of core/jobs/jobs.go beside all that was written to it.
use gocel.Prelude.{
  subst, ℕ, ◌+◌, ◌-◌, ◌≤◌, ◌≡◌, refl, sym, ap, ◌∙◌, inl, inr, List, [], ◌∷◌, ◌++◌, arith, length,
  length-append, drop, length-drop, drop-append, drop-drop, drop-all, if◌then◌else◌, Bool-cases,
}
use Prim.Native.Nat.{min, max}
use mathlib.Core.List.{append_assoc, append-nil}
use gocel.Prelude.Int.{ℤ, pos, pos_part, ◌-ℤ◌, leb_ℤ, ltb_ℤ}
use gocel.Jobs.{TailStore, new_tail_store, trim, write, clamp, read, write_all}

-- All bytes that were written, one after the other.
abbrev pub joined : List (List ℕ) → List ℕ
joined [] = []
joined (p ∷ ps) = p ++ joined ps

-- How many bytes a store made with `cap` holds at most.
abbrev pub capacity : ℤ → ℕ
capacity cap = if leb_ℤ cap (pos 0) then 1_048_576 else pos_part cap

-- The store `s` stands for the whole output `all`.
pub record Holds (n : ℕ) (all : List ℕ) (s : TailStore) : Type 0 where
  pub capped : s.cap ≡ pos n
  pub counted : s.total ≡ length all
  pub ending : s.buf ≡ drop (length all - n) all

new-Holds : (cap : ℤ) → Holds (capacity cap) [] (new_tail_store cap)
unfolding new_tail_store
new-Holds cap = record {
  capped = ground arith;
  counted = refl;
  ending = sym (drop-all _ [] (omega arith));
}

append-ending :
    (n : ℕ) (all p : List ℕ) → drop (length all - n) all ++ p ≡ drop (length all - n) (all ++ p)
append-ending n all p = sym (drop-append (length all - n) all p (omega arith))

-- A store that is not over its capacity has nothing to drop.
excess : {a b : ℕ} → a ≤ b → 0 ≡ a - b
excess h = omega arith

trim-buf : (n : ℕ) (s : TailStore) → s.cap ≡ pos n → (trim s).buf ≡ drop (length s.buf - n) s.buf
unfolding trim ◌-ℤ◌
trim-buf n s c = elim (Bool-cases (ltb_ℤ s.cap (pos (length s.buf)))) [
  | inl over ↦
      let cut : (trim s).buf ≡ drop (pos_part (pos (length s.buf) -ℤ s.cap)) s.buf =
        rw (over, trim) refl in
      cut ∙ ap (λ k. drop k s.buf) (ground (arith, c))
  | inr fits ↦
      let whole : (trim s).buf ≡ s.buf = rw (fits, trim) refl in
      whole ∙ ap (λ k. drop k s.buf) (excess (ground (arith, c)))
]

trim-keeps : (s : TailStore) → ((trim s).cap ≡ s.cap) × ((trim s).total ≡ s.total)
unfolding trim
trim-keeps s = ground arith

write-Holds :
    (n : ℕ) (all p : List ℕ) (s : TailStore) → Holds n all s → Holds n (all ++ p) (write p s)
unfolding write
write-Holds n all p s h =
    let grown = record s { buf = s.buf ++ p; total = s.total + length p } in
    let (same_cap, same_total) = trim-keeps grown in
    let k = length all - n in
    let whole : s.buf ++ p ≡ drop k (all ++ p) =
      ap (λ b. b ++ p) h.ending ∙ append-ending n all p in
    record {
      capped = same_cap ∙ h.capped;
      counted = same_total ∙ omega (arith, h.counted, length-append all p);
      ending =
          trim-buf n grown h.capped
          ∙ ap (λ (b : List ℕ). drop (length b - n) b) whole
          ∙ drop-drop (length (drop k (all ++ p)) - n) k (all ++ p)
          ∙ ap (λ j. drop j (all ++ p))
              (omega (arith, length-drop k (all ++ p), length-append all p));
    }

write_all-Holds :
    (n : ℕ) (ps : List (List ℕ)) (all : List ℕ) (s : TailStore)
    → Holds n all s
    → Holds n (all ++ joined ps) (write_all ps s)
unfolding write_all
write_all-Holds n [] all s h = subst (λ b. Holds n b s) (sym (append-nil all)) h
write_all-Holds n (p ∷ ps) all s h =
    subst (λ b. Holds n b (write_all ps (write p s))) (append_assoc all p (joined ps))
      (write_all-Holds n ps (all ++ p) (write p s) (write-Holds n all p s h))

clamped :
    (since : ℤ) (total held : ℕ)
    → held ≤ total
    → total - held + clamp (since -ℤ (pos total -ℤ pos held)) held
      ≡ max (min (pos_part since) total) (total - held)
unfolding clamp ◌-ℤ◌
clamped since total held h = ground arith

-- After any writes to a new store a read gives the whole output from the offset on, or from where
-- the last `capacity` bytes start if the offset lies before; nothing if it lies behind the end; and
-- it gives the length of the whole output as the next offset.
pub read-write_all :
    (cap since : ℤ) (ps : List (List ℕ))
    → let all = joined ps in
      read since (write_all ps (new_tail_store cap))
      ≡ (drop (max (min (pos_part since) (length all)) (length all - capacity cap)) all, length all)
unfolding read
read-write_all cap since ps =
    let s = write_all ps (new_tail_store cap) in
    let all = joined ps in
    let h = write_all-Holds (capacity cap) ps [] (new_tail_store cap) (new-Holds cap) in
    let k = length all - capacity cap in
    let b = drop k all in
    let text =
      ap (λ (b : List ℕ). drop (clamp (since -ℤ (pos s.total -ℤ pos (length b))) (length b)) b)
        h.ending
      ∙ drop-drop (clamp (since -ℤ (pos s.total -ℤ pos (length b))) (length b)) k all
      ∙ ap (λ j. drop j all)
          (ap (λ t. k + clamp (since -ℤ (pos t -ℤ pos (length b))) (length b)) h.counted
            ∙ omega (
              arith,
              length-drop k all,
              clamped since (length all) (length b) (omega (arith, length-drop k all)),
            )) in
    λ i. (text i, h.counted i)

write_all-append :
    (ps qs : List (List ℕ)) (s : TailStore) → write_all (ps ++ qs) s ≡ write_all qs (write_all ps s)
unfolding write_all
write_all-append [] qs s = refl
write_all-append (p ∷ ps) qs s = write_all-append ps qs (write p s)

joined-append : (ps qs : List (List ℕ)) → joined (ps ++ qs) ≡ joined ps ++ joined qs
joined-append [] qs = refl
joined-append (p ∷ ps) qs =
    ap (λ b. p ++ b) (joined-append ps qs) ∙ sym (append_assoc p (joined ps) (joined qs))

drop-joined : (xs ys : List ℕ) → drop (length xs) (xs ++ ys) ≡ ys
drop-joined xs ys =
    drop-append (length xs) xs ys (omega arith)
    ∙ ap (λ b. b ++ ys) (drop-all (length xs) xs (omega arith))

-- A reader that asks again from the offset which its last read returned is given all bytes that were
-- written in between, each once, as long as they fit into the store.
pub read_continues :
    (cap since : ℤ) (ps qs : List (List ℕ))
    → length (joined qs) ≤ capacity cap
    → let s = write_all ps (new_tail_store cap) in
      (read (pos (read since s).1) (write_all qs s)).0 ≡ joined qs
read_continues cap since ps qs h =
    let s = write_all ps (new_tail_store cap) in
    let all = joined (ps ++ qs) in
    let offset : (read since s).1 ≡ length (joined ps) =
      ap (λ r. r.1) (read-write_all cap since ps) in
    let whole = joined-append ps qs in
    let size = length-append (joined ps) (joined qs) in
    ap (λ o. (read (pos o) (write_all qs s)).0) offset
    ∙ ap (λ t. (read (pos (length (joined ps))) t).0)
        (sym (write_all-append ps qs (new_tail_store cap)))
    ∙ ap (λ r. r.0) (read-write_all cap (pos (length (joined ps))) (ps ++ qs))
    ∙ ap (λ j. drop j all) (omega (arith, ap length whole, size, h))
    ∙ ap (drop (length (joined ps))) whole
    ∙ drop-joined (joined ps) (joined qs)
