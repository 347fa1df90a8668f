-- ===== src/Dav/Rekey/Tests.antt =====
-- Runs of core-rs/crates/nc-dav/src/row/rekey.rs, and its law at a directory beside another. `LIKE`
-- here has both wildcards and no escape, and the hash of a path is the path.
use mathlib.Core.List.{map-append}
use nc_server_rs.Prelude.{
  ℕ, ◌<◌, ◌≡◌, refl, ap, sym, ◌∙◌, ◌==◌, ◌⊎◌, inl, inr, Bool, true, false, ◌&&◌, ◌||◌, List, [],
  ◌∷◌, ◌++◌, arith, map, if◌then◌else◌,
}
use nc_server_rs.Prelude.Text.{Text, codes, starts_with, strip_prefix, contains, to_ascii_lower}
use nc_server_rs.Dav.Propagator.{Backend, postgres, sqlite}
use nc_server_rs.Dav.Rekey.{
  Entry, ok, panics, below, slice_from, fetch_below, rekey_entry, rekey_fetched,
  rekey_subtree_paths,
}
use nc_server_rs.Dav.Rekey.Subtree.{IsPlain, MatchesPrefixes, Rekeyed, rekey_subtree_paths-Rekeyed}

unfoldable matches : Text → Text → Bool
matches [] [] = true
matches [] (c ∷ s) = false
matches (p ∷ ps) [] = p == b'%' && matches ps []
matches (p ∷ ps) (c ∷ s) =
    let here = matches ps (c ∷ s) in
    let later = matches (p ∷ ps) s in
    let one = matches ps s in if p == b'%' then here || later else (p == b'_' || p == c) && one

matches-all : (s : Text) → matches (b'%' ∷ []) s ≡ true
unfolding matches
matches-all [] = refl
matches-all (c ∷ s) = ground (arith, matches-all s)

matches_prefix :
    (prefix s : Text)
    → IsPlain prefix
    → matches (below prefix) s ≡ starts_with (prefix ++ codes "/") s
unfolding matches starts_with strip_prefix contains
matches_prefix [] [] plain = refl
matches_prefix [] (c ∷ s) plain = ground (arith, matches-all s)
matches_prefix (p ∷ ps) [] (percent, underscore, escape) = ground arith
matches_prefix (p ∷ ps) (c ∷ s) (percent, underscore, escape) =
    let rest = matches_prefix ps s (ground arith, ground arith, ground arith) in
    ground (arith, rest)

-- SQLite compares the ASCII letters without their case.
abbrev folded : Backend → Text → Text
folded postgres s = s
folded sqlite s = map to_ascii_lower s

abbrev like : Backend → Text → Text → Bool
like backend pattern s = matches (folded backend pattern) (folded backend s)

contains-lower :
    (c : ℕ) (s : Text)
    → (c < 65) ⊎ ((90 < c) × (c < 97))
    → contains c s ≡ false
    → contains c (map to_ascii_lower s) ≡ false
unfolding contains
contains-lower c [] h k = refl
contains-lower c (d ∷ s) h k = ground (arith, contains-lower c s h)

like-MatchesPrefixes : MatchesPrefixes like
like-MatchesPrefixes postgres prefix s plain = matches_prefix prefix s plain
like-MatchesPrefixes sqlite prefix s (percent, underscore, escape) =
    ap (λ (p : Text). matches p (map to_ascii_lower s))
      (map-append to_ascii_lower prefix (codes "/%"))
    ∙ matches_prefix (map to_ascii_lower prefix) (map to_ascii_lower s) (
      contains-lower b'%' prefix (inl (omega arith)) percent,
      contains-lower b'_' prefix (inr (omega arith)) underscore,
      contains-lower b'\\' prefix (inr (omega arith)) escape,
    )
    ∙ ap (λ (p : Text). starts_with p (map to_ascii_lower s))
        (sym (map-append to_ascii_lower prefix (codes "/")))

abbrev hash : Text → Text
hash path = path

abbrev entry_at : ℕ → Text → Entry
entry_at fileid path = record { fileid = fileid; storage = 1; path = path; path_hash = path }

abbrev rows : List Entry
rows =
    entry_at 1 (codes "files/a_b/x")
    ∷ entry_at 2 (codes "files/ab")
    ∷ entry_at 3 (codes "files/axb/y")
    ∷ []

-- The sibling's row moves too, and loses its place.
sibling_moves :
    rekey_subtree_paths hash like postgres true
      (λ _. false)
      1
      (codes "files/a_b")
      (codes "files/n")
      rows
    ≡ (
      ok,
      entry_at 1 (codes "files/n/x")
          ∷ entry_at 2 (codes "files/ab")
          ∷ entry_at 3 (codes "files/n/y")
          ∷ [],
    )
unfolding rekey_subtree_paths rekey_entry matches
sibling_moves = refl

-- On SQLite also a sibling in capital letters.
capitals_move :
    rekey_subtree_paths hash like sqlite true
      (λ _. false)
      1
      (codes "files/a")
      (codes "files/n")
      (entry_at 1 (codes "files/A/x") ∷ [])
    ≡ (ok, entry_at 1 (codes "files/n/x") ∷ [])
unfolding rekey_subtree_paths rekey_fetched fetch_below slice_from matches
capitals_move = refl

-- A sibling with a character of two bytes in place of the underscore stops the loop in a panic,
-- with the directory's own rows moved before it.
sibling_panics :
    rekey_subtree_paths hash like sqlite true
      (λ _. false)
      1
      (codes "files/a_")
      (codes "files/n")
      (entry_at 1 (codes "files/a_/x") ∷ entry_at 2 (codes "files/aé/y") ∷ [])
    ≡ (panics, entry_at 1 (codes "files/n/x") ∷ entry_at 2 (codes "files/aé/y") ∷ [])
unfolding rekey_subtree_paths rekey_fetched fetch_below slice_from matches
sibling_panics = refl

rekey_subtree_paths-Rekeyed_example :
    Rekeyed hash like like-MatchesPrefixes 1 (codes "files/axb") (codes "files/n") rows (
      rekey_subtree_paths hash like sqlite true
        (λ _. false)
        1
        (codes "files/axb")
        (codes "files/n")
        rows)
unfolding starts_with strip_prefix contains
rekey_subtree_paths-Rekeyed_example =
    rekey_subtree_paths-Rekeyed hash like like-MatchesPrefixes 1 (codes "files/axb")
      (codes "files/n") (refl, refl, refl) sqlite (λ _. false) rows (λ _. refl)
      (refl, (refl, (refl, tt))) ((λ _ e. absurd (cc)), ((λ _ e. absurd (cc)), ((λ _ _. refl), tt)))
