-- ===== src/Dav/Paths/Parents.antt =====
-- core-rs/crates/nc-dav/src/propagator.rs, path_utils.rs: the ancestors whose rows a change reaches.
use nc_server_rs.Prelude.{
  ◌≡◌, refl, ◌≢◌, false, ◌++◌, List, [], ◌∷◌, arith, Bool-cases, inl, inr, append-nil, append_assoc,
  ◌==◌, All,
}
use nc_server_rs.Prelude.Text.{Text, split, split_parts, contains}
use nc_server_rs.Prelude.Splits.{rsplit_once-none, rsplit_once-append, split_clean}
use nc_server_rs.Dav.Paths.{parent_fc_path, parents_from, get_parents}

-- The parts of a path under their common parent, joined again.
abbrev pub joined : Text → List Text → Text
joined parent [] = parent
joined parent (part ∷ parts) = joined (parent ++ b'/' ∷ part) parts

pub joined-split_parts :
    (s parent : Text)
    → joined (parent ++ (split_parts b'/' s).0) (split_parts b'/' s).1 ≡ parent ++ s
unfolding split_parts
joined-split_parts [] parent = refl
joined-split_parts (c ∷ s) parent = elim (Bool-cases (c == b'/')) [
  | inl cut ↦
      let e : c ≡ b'/' = ground arith in
      rw (cut, append-nil parent, e)
        (simp append_assoc at (joined-split_parts s (parent ++ b'/' ∷ [])))
  | inr on ↦ rw on (simp append_assoc at (joined-split_parts s (parent ++ c ∷ [])))
]

-- An entry of the chain and the next one.
abbrev pub IsChain : List Text → Type 0
IsChain [] = Unit
IsChain (a ∷ []) = Unit
IsChain (a ∷ b ∷ rest) = (parent_fc_path b ≡ a) × IsChain (b ∷ rest)

pub parent_fc_path-join :
    (parent part : Text)
    → contains b'/' part ≡ false
    → parent_fc_path (parent ++ b'/' ∷ part) ≡ parent
unfolding parent_fc_path
parent_fc_path-join parent part h = rw (rsplit_once-append b'/' parent part h, parent_fc_path)

parent_fc_path_root : (part : Text) → contains b'/' part ≡ false → parent_fc_path part ≡ []
unfolding parent_fc_path
parent_fc_path_root part h = rw (rsplit_once-none b'/' part h, parent_fc_path)

IsChain-cons :
    (a b : Text) (parts : List Text)
    → b ≢ []
    → parent_fc_path b ≡ a
    → IsChain (parents_from b parts ++ joined b parts ∷ [])
    → IsChain (a ∷ parents_from b parts ++ joined b parts ∷ [])
unfolding parents_from
IsChain-cons a b [] ne e c = (e, tt)
IsChain-cons a b (part ∷ parts) ne e c = (e, c)

parents_from-IsChain :
    (parent : Text) (parts : List Text)
    → parent ≢ []
    → All (λ p. contains b'/' p ≡ false) parts
    → IsChain (parents_from parent parts ++ joined parent parts ∷ [])
unfolding parents_from
parents_from-IsChain parent [] ne h = tt
parents_from-IsChain [] (part ∷ parts) ne h = absurd (ne refl)
parents_from-IsChain (c ∷ s) (part ∷ parts) ne (p, h) =
    IsChain-cons (c ∷ s) ((c ∷ s) ++ b'/' ∷ part) parts (cc) (parent_fc_path-join (c ∷ s) part p)
      (parents_from-IsChain ((c ∷ s) ++ b'/' ∷ part) parts (cc) h)

-- A path that is not empty and does not begin with a slash.
abbrev pub IsRelative : Text → Type 0
IsRelative [] = ⊥
IsRelative (c ∷ s) = c ≢ b'/'

first-ne-nil : (path : Text) → IsRelative path → (split_parts b'/' path).0 ≢ []
unfolding split_parts
first-ne-nil [] h = absurd h
first-ne-nil (c ∷ s) h = ground arith

-- For a path that is not empty and does not begin with a slash, the ancestors begin at the storage's root, each is
-- the parent of the next, and the last is the parent of the path: none is left out or repeated.
pub get_parents-IsChain :
    (path : Text)
    → IsRelative path
    → (rest : List Text) × (get_parents path ≡ [] ∷ rest) × IsChain ([] ∷ rest ++ path ∷ [])
unfolding get_parents parents_from split
get_parents-IsChain path h =
    let ne = first-ne-nil path h in
    let first = (split_parts b'/' path).0 in
    let others = (split_parts b'/' path).1 in
    let clean = split_clean b'/' path in
    (
      parents_from first others,
      refl,
      rw (joined-split_parts path []) at (
          IsChain-cons [] first others ne (parent_fc_path_root first clean.0)
            (parents_from-IsChain first others ne clean.1)),
    )
