-- ===== src/Prelude/Search.antt =====
-- The first place of a text in another, `windows(n).position`.
use Prim.Native.Nat.{ℕ, suc, ◌+◌, ◌≤◌}
use mathlib.Core.Path.{◌≡◌, refl, sym, ◌∙◌, ap}
use mathlib.Core.Logic.{inl, inr}
use mathlib.Core.Bool.{true}
use mathlib.Core.Option.{Option, none, some}
use mathlib.Core.List.{[], ◌∷◌, ◌++◌, append_assoc}
use native.Mathlib.Omega.{arith}
use nc_server_rs.Prelude.Tests.{if◌then◌else◌, Option-cases}
use nc_server_rs.Prelude.Lists.{length, length-append, drop, take, drop-append}
use nc_server_rs.Prelude.Text.{Text, strip_prefix, starts_with, strip_prefix-append}

-- For a needle that is not empty.
unfoldable pub find_subsequence : Text → Text → Option ℕ
find_subsequence needle [] = none
find_subsequence needle (c ∷ s) =
    let rest = find_subsequence needle s in
    if starts_with needle (c ∷ s) then some 0 else elim rest [ some i ↦ some (suc i) | none ↦ none ]

starts-append : (m s : Text) → starts_with m (m ++ s) ≡ true
unfolding starts_with
starts-append m s = ground (arith, strip_prefix-append m s)

-- A text at least as long as the marker decides by itself whether it starts with it.
starts-longer : (m s t : Text) → length m ≤ length s → starts_with m (s ++ t) ≡ starts_with m s
unfolding starts_with strip_prefix
starts-longer [] s t h = refl
starts-longer (p ∷ m) [] t h = absurd (omega arith)
starts-longer (p ∷ m) (c ∷ s) t h = ground (arith, starts-longer m s t)

starts_length : (m s : Text) → starts_with m s ≡ true → length m ≤ length s
unfolding starts_with strip_prefix
starts_length [] s h = omega arith
starts_length (p ∷ m) [] h = ground arith
starts_length (p ∷ m) (c ∷ s) h = ground (arith, starts_length m s)

pub found_length : (m s : Text) (i : ℕ) → find_subsequence m s ≡ some i → i + length m ≤ length s
unfolding find_subsequence
found_length m [] i e = absurd (cc)
found_length m (c ∷ s) i e = elim (Option-cases (find_subsequence m s)) [
  | inl missed ↦ ground (arith, starts_length m (c ∷ s))
  | inr (j, found) ↦ ground (arith, starts_length m (c ∷ s), found_length m s j found)
]

-- What follows does not change where a marker is found first.
pub found-append :
    (m s t : Text) (i : ℕ) → find_subsequence m s ≡ some i → find_subsequence m (s ++ t) ≡ some i
unfolding find_subsequence
found-append m [] t i e = absurd (cc)
found-append m (c ∷ s) t i e = elim (Option-cases (find_subsequence m s)) [
  | inl missed ↦
      let here : starts_with m (c ∷ s) ≡ true = ground arith in
      let fits = starts_length m (c ∷ s) here in ground (arith, starts-longer m (c ∷ s) t fits)
  | inr (j, found) ↦
      let fits = found_length m s j found in
      let long : length m ≤ length (c ∷ s) = omega arith in
      ground (arith, starts-longer m (c ∷ s) t long, found-append m s t j found)
]

pub found_at_once : (c : ℕ) (m t : Text) → find_subsequence (c ∷ m) ((c ∷ m) ++ t) ≡ some 0
unfolding find_subsequence
found_at_once c m t = ground (arith, starts-append (c ∷ m) t)

pub drop-length : (s t : Text) → drop (length s) (s ++ t) ≡ t
drop-length s t = drop-append s t

pub take-length : (s t : Text) → take (length s) (s ++ t) ≡ s
take-length [] t = refl
take-length (c ∷ s) t = ap (λ (r : Text). c ∷ r) (take-length s t)

pub drop-both : (s m t : Text) → drop (length s + length m) (s ++ (m ++ t)) ≡ t
drop-both s m t =
    let whole : s ++ (m ++ t) ≡ (s ++ m) ++ t = sym (append_assoc s m t) in
    let size : length s + length m ≡ length (s ++ m) = sym (length-append s m) in
    rw (whole, size) (drop-append (s ++ m) t)

pub found_before :
    (m s t : Text) (i : ℕ)
    → find_subsequence m (s ++ m) ≡ some i
    → find_subsequence m (s ++ (m ++ t)) ≡ some i
found_before m s t i e =
    ap (find_subsequence m) (sym (append_assoc s m t)) ∙ found-append m (s ++ m) t i e
