-- ===== src/Prelude/Splits.antt =====
-- What the splits of a text give: the parts spell the text, and hold no separator where promised.
use Prim.Native.Nat.{ℕ}
use mathlib.Core.Path.{◌≡◌, refl}
use mathlib.Core.Bool.{false}
use mathlib.Core.Logic.{inl, inr}
use mathlib.Core.Option.{none, some}
use mathlib.Core.List.{[], ◌∷◌, ◌++◌}
use native.Mathlib.Omega.{arith}
use nc_server_rs.Prelude.Tests.{Option-cases}
use nc_server_rs.Prelude.Lists.{All}
use nc_server_rs.Prelude.Text.{Text, contains, split_once, rsplit_once, split_parts, split}

pub contains-append_none :
    (d : ℕ) (s t : Text) → contains d s ≡ false → contains d t ≡ false → contains d (s ++ t) ≡ false
unfolding contains
contains-append_none d [] t p q = q
contains-append_none d (c ∷ s) t p q = ground (arith, contains-append_none d s t)

module _ (sep : ℕ) where
  pub split_once_sound :
      (s a b : Text)
      → split_once sep s ≡ some (a, b)
      → (s ≡ a ++ sep ∷ b) × (contains sep a ≡ false)
  unfolding split_once contains
  split_once_sound [] a b h = ground arith
  split_once_sound (c ∷ s) a b h = elim (Option-cases (split_once sep s)) [
    | inl missed ↦ ground arith
    | inr ((a', b'), found) ↦ ground (arith, split_once_sound s a' b' found)
  ]

  pub split_once-append :
      (a b : Text) → contains sep a ≡ false → split_once sep (a ++ sep ∷ b) ≡ some (a, b)
  unfolding split_once contains
  split_once-append [] b h = ground arith
  split_once-append (c ∷ a) b h = ground (arith, split_once-append a b)

  pub rsplit_once-none : (s : Text) → contains sep s ≡ false → rsplit_once sep s ≡ none
  unfolding rsplit_once contains
  rsplit_once-none [] h = refl
  rsplit_once-none (c ∷ s) h = ground (arith, rsplit_once-none s)

  pub rsplit_once-append :
      (a b : Text) → contains sep b ≡ false → rsplit_once sep (a ++ sep ∷ b) ≡ some (a, b)
  unfolding rsplit_once
  rsplit_once-append [] b h = rw (rsplit_once-none b h) (ground arith)
  rsplit_once-append (c ∷ a) b h = ground (arith, rsplit_once-append a b h)

  pub rsplit_once-none_clean : (s : Text) → rsplit_once sep s ≡ none → contains sep s ≡ false
  unfolding rsplit_once contains
  rsplit_once-none_clean [] h = refl
  rsplit_once-none_clean (c ∷ s) h = ground (arith, rsplit_once-none_clean s)

  pub rsplit_once_sound :
      (s a b : Text)
      → rsplit_once sep s ≡ some (a, b)
      → (s ≡ a ++ sep ∷ b) × (contains sep b ≡ false)
  unfolding rsplit_once
  rsplit_once_sound [] a b h = ground arith
  rsplit_once_sound (c ∷ s) a b h = elim (Option-cases (rsplit_once sep s)) [
    | inl missed ↦ ground (arith, rsplit_once-none_clean s missed)
    | inr ((a', b'), found) ↦ ground (arith, rsplit_once_sound s a' b' found)
  ]

  split_parts_clean :
      (s : Text)
      → (contains sep (split_parts sep s).0 ≡ false)
        × All (λ p. contains sep p ≡ false) (split_parts sep s).1
  unfolding split_parts contains
  split_parts_clean [] = (refl, tt)
  split_parts_clean (c ∷ s) = ground (arith, split_parts_clean s)

  -- No part of a split holds the separator.
  pub split_clean : (s : Text) → All (λ p. contains sep p ≡ false) (split sep s)
  unfolding split
  split_clean s = split_parts_clean s
