-- ===== src/Db/Filename/Rules.antt =====
-- core-rs/crates/nc-db/src/filename_validator.rs: exactly which names pass, and which panic.
use nc_server_rs.Prelude.{
  ℕ, ◌≡◌, refl, ◌≢◌, ◌↔◌, inl, inr, Bool, true, false, none, List, [], ◌∷◌, ◌++◌, ◌==◌, map, any,
  All, All-append, arith, Bool-cases, ==_iff,
}
use nc_server_rs.Prelude.Text.{Text, text_eq, text_eq_sound, text_eq_refl, contains}
use nc_server_rs.Db.Filename.{push_new, push_all, with_extension, find_forbidden}

pub text_ne : (s t : Text) → (text_eq s t ≡ false) ↔ (s ≢ t)
text_ne s t = (
  λ h e. ground (arith, text_eq_refl t),
  λ h. elim (Bool-cases (text_eq s t)) [
    | inl same ↦ absurd (h (text_eq_sound s t same))
    | inr other ↦ other
  ],
)

pub any-false {ℓ} :
    {A : Type ℓ} (p : A → Bool) (l : List A) → (any p l ≡ false) ↔ All (λ x. p x ≡ false) l
any-false p [] = (λ _. tt, λ _. refl)
any-false p (x ∷ l) = ground (arith, any-false p l)

pub All-imp {ℓ κ} :
    {A : Type ℓ} {P Q : A → Type κ} → ((x : A) → P x → Q x) → (l : List A) → All P l → All Q l
All-imp f [] h = tt
All-imp f (x ∷ l) (p, h) = (f x p, All-imp f l h)

pub All-map {ℓ κ} :
    {A : Type ℓ} (P : A → Type κ) (f : A → A) (l : List A) → All P (map f l) ↔ All (λ x. P (f x)) l
All-map P f [] = (λ h. h, λ h. h)
All-map P f (x ∷ l) =
    let (to, from) = All-map P f l in ((λ h. (h.0, to h.1)), (λ h. (h.0, from h.1)))

All-append_left {ℓ κ} :
    {A : Type ℓ} (P : A → Type κ) (xs ys : List A) → All P (xs ++ ys) → All P xs × All P ys
All-append_left P [] ys h = (tt, h)
All-append_left P (x ∷ xs) ys (p, h) = let (a, b) = All-append_left P xs ys h in ((p, a), b)

-- What the lists of the validator require, in terms of the configuration's.
module _ {κ} (P : ℕ → Type κ) where
  known_holds : (c : ℕ) (l : List ℕ) → any (λ k. k == c) l ≡ true → All P l → P c
  known_holds c [] e h = absurd (cc)
  known_holds c (k ∷ l) e (p, h) = elim (Bool-cases (k == c)) [
    | inl same ↦ rw ((==_iff k c).0 same) at p
    | inr other ↦ known_holds c l (ground arith) h
  ]

  push_new-All : (known : List ℕ) (s : Text) → All P (push_new known s) ↔ (All P known × All P s)
  unfolding push_new
  push_new-All known [] = (λ h. (h, tt), λ h. h.0)
  push_new-All known (c ∷ s) = elim (Bool-cases (any (λ k. k == c) known)) [
    | inl old ↦
        let (to, from) = push_new-All known s in
        rw old
          (λ h. ((to h).0, (known_holds c known old (to h).0, (to h).1)), λ h. from (h.0, h.1.1))
    | inr new ↦
        let (to, from) = push_new-All (known ++ (c ∷ [])) s in
        rw new (
          λ h. let (a, b) = All-append_left P known (c ∷ []) (to h).0 in (a, (b.0, (to h).1)),
          λ h. from (All-append P known (c ∷ []) h.0 (h.1.0, tt), h.1.1),
        )
  ]

  pub push_all-All :
      (known : List ℕ) (l : List Text) → All P (push_all known l) ↔ (All P known × All (All P) l)
  unfolding push_all
  push_all-All known [] = (λ h. (h, tt), λ h. h.0)
  push_all-All known (s ∷ l) =
      let (to, from) = push_all-All (push_new known s) l in
      let (to', from') = push_new-All known s in
      (λ h. ((to' (to h).0).0, ((to' (to h).0).1, (to h).1)), λ h. from (from' (h.0, h.1.0), h.1.1))

module _ (P : Text → Type 0) where
  listed_holds : (ext : Text) (l : List Text) → any (λ e. text_eq e ext) l ≡ true → All P l → P ext
  listed_holds ext [] e h = absurd (cc)
  listed_holds ext (k ∷ l) e (p, h) = elim (Bool-cases (text_eq k ext)) [
    | inl same ↦ rw (text_eq_sound k ext same) at p
    | inr other ↦ listed_holds ext l (ground arith) h
  ]

  pub with_extension-All :
      (l : List Text) (ext : Text) → All P (with_extension l ext) ↔ (All P l × P ext)
  unfolding with_extension
  with_extension-All l ext = elim (Bool-cases (any (λ e. text_eq e ext) l)) [
    | inl old ↦ rw old (λ h. (h, listed_holds ext l old h), λ h. h.0)
    | inr new ↦ rw new (
      λ h. let (a, b) = All-append_left P l (ext ∷ []) h in (a, b.0),
      λ h. All-append P l (ext ∷ []) h.0 (h.1, tt),
    )
  ]

pub find_forbidden-none :
    (cs : List ℕ) (name : Text)
    → (find_forbidden cs name ≡ none) ↔ All (λ c. contains c name ≡ false) cs
unfolding find_forbidden
find_forbidden-none [] name = (λ _. tt, λ _. refl)
find_forbidden-none (c ∷ cs) name = ground (arith, find_forbidden-none cs name)
