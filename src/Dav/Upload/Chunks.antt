-- ===== src/Dav/Upload/Chunks.antt =====
-- core-rs/crates/nc-dav/src/upload.rs: the sizes and the order of the chunks of a session.
use nc_server_rs.Prelude.{
  ℕ, ◌+◌, ◌≡◌, refl, List, [], ◌∷◌, arith, if◌then◌else◌, Bool-cases, inl, inr,
}
use nc_server_rs.Prelude.Int.{ℤ, ◌≤ℤ◌, leb_ℤ}
use nc_server_rs.Dav.Upload.{Chunk, same_part, insert_chunk, total, insert_sorted, sorted_ids}

-- The size that a part has so far.
abbrev pub size_of : ℤ → List Chunk → ℕ
size_of part_id [] = 0
size_of part_id (c ∷ cs) = if same_part c.part_id part_id then c.size else size_of part_id cs

pub total-insert_chunk :
    (part_id : ℤ) (size : ℕ) (cs : List Chunk)
    → total (insert_chunk part_id size cs) + size_of part_id cs ≡ total cs + size
unfolding total insert_chunk
total-insert_chunk part_id size [] = omega arith
total-insert_chunk part_id size (c ∷ cs) = ground (arith, total-insert_chunk part_id size cs)

-- Every id but the last is at most the next.
abbrev pub IsSorted : List ℤ → Type 0
IsSorted [] = Unit
IsSorted (a ∷ []) = Unit
IsSorted (a ∷ b ∷ ids) = (a ≤ℤ b) × IsSorted (b ∷ ids)

abbrev pub IsBelow : ℤ → List ℤ → Type 0
IsBelow a [] = Unit
IsBelow a (b ∷ ids) = a ≤ℤ b

IsSorted-cons : (a : ℤ) (ids : List ℤ) → IsBelow a ids → IsSorted ids → IsSorted (a ∷ ids)
IsSorted-cons a [] h s = tt
IsSorted-cons a (b ∷ ids) h s = (h, s)

IsSorted-tail : (a : ℤ) (ids : List ℤ) → IsSorted (a ∷ ids) → IsBelow a ids × IsSorted ids
IsSorted-tail a [] s = (tt, tt)
IsSorted-tail a (b ∷ ids) s = s

insert-IsBelow :
    (a id : ℤ) (ids : List ℤ) → a ≤ℤ id → IsBelow a ids → IsBelow a (insert_sorted id ids)
unfolding insert_sorted
insert-IsBelow a id [] h k = h
insert-IsBelow a id (b ∷ ids) h k = elim (Bool-cases (leb_ℤ id b)) [
  | inl low ↦ rw low h
  | inr high ↦ rw high k
]

insert_sorted-IsSorted : (id : ℤ) (ids : List ℤ) → IsSorted ids → IsSorted (insert_sorted id ids)
unfolding insert_sorted
insert_sorted-IsSorted id [] s = tt
insert_sorted-IsSorted id (b ∷ ids) s = elim (Bool-cases (leb_ℤ id b)) [
  | inl low ↦ rw low (IsSorted-cons id (b ∷ ids) (ground arith) s)
  | inr high ↦
      let (below, rest) = IsSorted-tail b ids s in
      rw high (
        IsSorted-cons b (insert_sorted id ids) (insert-IsBelow b id ids (ground arith) below)
          (insert_sorted-IsSorted id ids rest))
]

pub sorted_ids-IsSorted : (cs : List Chunk) → IsSorted (sorted_ids cs)
unfolding sorted_ids
sorted_ids-IsSorted [] = tt
sorted_ids-IsSorted (c ∷ cs) =
    insert_sorted-IsSorted c.part_id (sorted_ids cs) (sorted_ids-IsSorted cs)

-- How often an id stands among others, and among the chunks.
abbrev pub times : ℤ → List ℤ → ℕ
times id [] = 0
times id (i ∷ ids) = if same_part i id then 1 + times id ids else times id ids

abbrev pub times_stored : ℤ → List Chunk → ℕ
times_stored id [] = 0
times_stored id (c ∷ cs) =
    if same_part c.part_id id then 1 + times_stored id cs else times_stored id cs

times-insert_sorted :
    (id i : ℤ) (ids : List ℤ) → times id (insert_sorted i ids) ≡ times id (i ∷ ids)
unfolding insert_sorted
times-insert_sorted id i [] = refl
times-insert_sorted id i (j ∷ ids) = ground (arith, times-insert_sorted id i ids)

pub times-sorted_ids : (id : ℤ) (cs : List Chunk) → times id (sorted_ids cs) ≡ times_stored id cs
unfolding sorted_ids
times-sorted_ids id [] = refl
times-sorted_ids id (c ∷ cs) =
    ground (arith, times-insert_sorted id c.part_id (sorted_ids cs), times-sorted_ids id cs)
