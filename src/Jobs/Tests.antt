-- ===== src/Jobs/Tests.antt =====
-- A store of four bytes.
use gocel.Prelude.{ℕ, ◌≡◌, refl, List, [], ◌∷◌}
use gocel.Prelude.Int.{pos, ◌-ℤ◌}
use gocel.Jobs.{new_tail_store, write, write_all, read}
use gocel.Jobs.Tail.{read-write_all}

abbrev chunks : List (List ℕ)
chunks = (1 ∷ 2 ∷ []) ∷ (3 ∷ 4 ∷ 5 ∷ []) ∷ []

abbrev later : List (List ℕ)
later = (6 ∷ []) ∷ (7 ∷ 8 ∷ []) ∷ []

held : (write_all chunks (new_tail_store (pos 4))).buf ≡ 2 ∷ 3 ∷ 4 ∷ 5 ∷ []
unfolding write_all write new_tail_store ◌-ℤ◌
held = refl

read-write_all_example : read (pos 3) (write_all chunks (new_tail_store (pos 4))) ≡ (4 ∷ 5 ∷ [], 5)
read-write_all_example = read-write_all (pos 4) (pos 3) chunks
