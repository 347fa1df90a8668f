-- ===== src/Dav/Paths/Prefix.antt =====
-- core-rs/crates/nc-dav/src/handler.rs: the prefix that is stripped from a request path.
use nc_server_rs.Prelude.{
  ◌≡◌, refl, true, ◌++◌, arith, Bool-cases, inl, inr, Option-cases, if◌then◌else◌,
}
use nc_server_rs.Prelude.Text.{
  Text, codes, starts_with, strip_prefix, strip_prefix_sound, strip_prefix-append,
}
use nc_server_rs.Dav.Paths.{determine_prefix}

-- A text goes on from a prefix.
abbrev pub StartsWith : Text → Text → Type 0
StartsWith p s = (rest : Text) × (s ≡ p ++ rest)

starts_with_sound : (p s : Text) → starts_with p s ≡ true → StartsWith p s
unfolding starts_with
starts_with_sound p s h = elim (Option-cases (strip_prefix p s)) [
  | inl missed ↦ ground arith
  | inr (rest, found) ↦ (rest, strip_prefix_sound p s found)
]

starts_with-append : (p s : Text) → starts_with p (p ++ s) ≡ true
unfolding starts_with
starts_with-append p s = rw (strip_prefix-append p s, starts_with)

choose : (p s rest : Text) → StartsWith rest s → StartsWith (if starts_with p s then p else rest) s
choose p s rest h = elim (Bool-cases (starts_with p s)) [
  | inl yes' ↦ rw yes' (starts_with_sound p s yes')
  | inr no' ↦ rw no' h
]

-- The prefix chosen for a request is a prefix of its path, so stripping it never fails.
determine_prefix-StartsWith : (path uid : Text) → StartsWith (determine_prefix path uid) path
unfolding determine_prefix
determine_prefix-StartsWith path uid =
    choose _ path _
      (choose _ path _ (choose _ path _ (choose _ path _ (choose _ path _ (path, refl)))))

-- Under a user's tree, whatever follows the user's name, the whole of the tree's name is stripped,
-- at both mount points: the file system sees the rest alone.
determine_prefix_user :
    (uid rest : Text)
    → (determine_prefix (codes "/remote.php/dav/files/" ++ (uid ++ rest)) uid
        ≡ codes "/remote.php/dav/files/" ++ uid)
      × (determine_prefix (codes "/dav/files/" ++ (uid ++ rest)) uid ≡ codes "/dav/files/" ++ uid)
unfolding determine_prefix starts_with
determine_prefix_user uid rest = (
  rw (strip_prefix-append uid rest, strip_prefix),
  rw (strip_prefix-append uid rest, strip_prefix),
)
