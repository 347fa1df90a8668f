-- ===== src/Preview/Store/Names.antt =====
-- core-rs/crates/nc-preview/src/store.rs: no two previews of a file have one file name.
use nc_server_rs.Prelude.{
  ℕ, ◌==◌, ◌≡◌, ◌≢◌, refl, sym, ◌∙◌, ap, Bool, true, false, Option, none, some, [], ◌∷◌, ◌++◌,
  arith, if◌then◌else◌, length, ◌||◌, append-nil, append_assoc,
}
use nc_server_rs.Prelude.Int.{ℤ, pos, negsuc}
use nc_server_rs.Prelude.Decimal.{
  decimal, value_from, decimal-IsDigits, value_from-decimal, decimal-ne-nil, digits-lack, IsDigits,
}
use nc_server_rs.Prelude.Text.{Text, codes, contains, split_once, is_digit, text_eq}
use nc_server_rs.Prelude.Splits.{split_once-append, contains-append_none}
use nc_server_rs.Preview.Store.{extension_for_mime, version_part, flag_part, preview_name}

abbrev first_part : Option (Text × Text) → Text
first_part none = []
first_part (some (a, b)) = a

abbrev second_part : Option (Text × Text) → Text
second_part none = []
second_part (some (a, b)) = b

-- Texts without the separator in front of it.
cut_unique :
    (sep : ℕ) (a a' b b' : Text)
    → contains sep a ≡ false
    → contains sep a' ≡ false
    → a ++ sep ∷ b ≡ a' ++ sep ∷ b'
    → (a ≡ a') × (b ≡ b')
cut_unique sep a a' b b' clean clean' e =
    let both : some (a, b) ≡ some (a', b') =
      sym (split_once-append sep a b clean)
      ∙ (ap (split_once sep) e ∙ split_once-append sep a' b' clean') in
    (ap first_part both, ap second_part both)

decimal-lacks : (sep n : ℕ) → is_digit sep ≡ false → contains sep (decimal n) ≡ false
decimal-lacks sep n h = digits-lack sep (decimal n) h (decimal-IsDigits n)

decimal_unique : (m n : ℕ) → decimal m ≡ decimal n → m ≡ n
decimal_unique m n e = sym (value_from-decimal m) ∙ (ap (value_from 0) e ∙ value_from-decimal n)

contains-there : (sep : ℕ) (a b : Text) → contains sep (a ++ sep ∷ b) ≡ true
unfolding contains
contains-there sep [] b = ground arith
contains-there sep (c ∷ a) b = ground (arith, contains-there sep a b)

-- What stands between the sizes and the extension.
abbrev mark : Bool → Bool → Option Text
mark true true = some (codes "crop-max")
mark true false = some (codes "crop")
mark false true = some (codes "max")
mark false false = none

abbrev shown : Option Text → Text
shown none = []
shown (some t) = b'-' ∷ t

abbrev unmark : Option Text → Bool × Bool
unmark none = (false, false)
unmark (some t) = (length t == 8 || length t == 4, length t == 8 || length t == 3)

unmark-mark : (cropped max : Bool) → unmark (mark cropped max) ≡ (cropped, max)
unmark-mark true true = refl
unmark-mark true false = refl
unmark-mark false true = refl
unmark-mark false false = refl

flags-shown :
    (cropped max : Bool) (rest : Text)
    → flag_part cropped (codes "-crop") ++ (flag_part max (codes "-max") ++ rest)
      ≡ shown (mark cropped max) ++ rest
flags-shown true true rest = refl
flags-shown true false rest = refl
flags-shown false true rest = refl
flags-shown false false rest = refl

shown-lack : (cropped max : Bool) → contains b'.' (shown (mark cropped max)) ≡ false
unfolding contains
shown-lack true true = refl
shown-lack true false = refl
shown-lack false true = refl
shown-lack false false = refl

dash_apart : (a b t : Text) → contains b'-' a ≡ false → a ++ [] ≡ b ++ b'-' ∷ t → ⊥
dash_apart a b t clean e =
    let none_there : contains b'-' (b ++ b'-' ∷ t) ≡ false =
      ap (contains b'-') (sym e ∙ append-nil a) ∙ clean in
    let there = contains-there b'-' b t in absurd (cc)

shown_unique :
    (a b : Text) (x y : Option Text)
    → contains b'-' a ≡ false
    → contains b'-' b ≡ false
    → a ++ shown x ≡ b ++ shown y
    → (a ≡ b) × (x ≡ y)
shown_unique a b none none clean clean' e = (sym (append-nil a) ∙ (e ∙ append-nil b), refl)
shown_unique a b none (some t) clean clean' e = absurd (dash_apart a b t clean e)
shown_unique a b (some t) none clean clean' e = absurd (dash_apart b a t clean' (sym e))
shown_unique a b (some t) (some u) clean clean' e =
    let (same, rest) = cut_unique b'-' a b t u clean clean' e in (same, ap some rest)

abbrev tail_of : ℕ → Bool → Bool → Text → Text
tail_of height cropped max extension =
    decimal height
    ++ (flag_part cropped (codes "-crop") ++ (flag_part max (codes "-max") ++ (b'.' ∷ extension)))

tail_shape :
    (h : ℕ) (c m : Bool) (ext : Text)
    → tail_of h c m ext ≡ (decimal h ++ shown (mark c m)) ++ b'.' ∷ ext
tail_shape h c m ext =
    ap (λ (t : Text). decimal h ++ t) (flags-shown c m (b'.' ∷ ext))
    ∙ sym (append_assoc (decimal h) (shown (mark c m)) (b'.' ∷ ext))

tail_unique :
    (h h' : ℕ) (c m c' m' : Bool) (ext ext' : Text)
    → tail_of h c m ext ≡ tail_of h' c' m' ext'
    → (h ≡ h') × (◌≡◌ {A = Bool × Bool} (c, m) (c', m')) × (ext ≡ ext')
tail_unique h h' c m c' m' ext ext' e =
    let dotted : (decimal h ++ shown (mark c m)) ++ b'.' ∷ ext
        ≡ (decimal h' ++ shown (mark c' m')) ++ b'.' ∷ ext' =
      sym (tail_shape h c m ext) ∙ (e ∙ tail_shape h' c' m' ext') in
    let (front, extension) =
      cut_unique b'.' (decimal h ++ shown (mark c m)) (decimal h' ++ shown (mark c' m')) ext ext'
        (contains-append_none b'.' (decimal h) (shown (mark c m)) (decimal-lacks b'.' h refl)
          (shown-lack c m))
        (contains-append_none b'.' (decimal h') (shown (mark c' m')) (decimal-lacks b'.' h' refl)
          (shown-lack c' m'))
        dotted in
    let (height, marks) =
      shown_unique (decimal h) (decimal h') (mark c m) (mark c' m') (decimal-lacks b'-' h refl)
        (decimal-lacks b'-' h' refl) front in
    (
      decimal_unique h h' height,
      sym (unmark-mark c m) ∙ (ap unmark marks ∙ unmark-mark c' m'),
      extension,
    )

digit_first :
    (s rest r : Text) (k : ℕ) → IsDigits s → s ≢ [] → is_digit k ≡ false → s ++ rest ≡ k ∷ r → ⊥
digit_first [] rest r k digits ne other e = ne refl
digit_first (c ∷ s) rest r k (d, digits) ne other e =
    let same : c ≡ k = cc in
    let is_one : is_digit k ≡ true = ap is_digit (sym same) ∙ d in absurd (cc)

letter_apart :
    (w h h' : ℕ) (rest t : Text) (k : ℕ)
    → is_digit k ≡ false
    → decimal w ++ b'-' ∷ (decimal h ++ rest) ≡ decimal h' ++ b'-' ∷ k ∷ t
    → ⊥
letter_apart w h h' rest t k other e =
    let (same, after) =
      cut_unique b'-' (decimal w) (decimal h') (decimal h ++ rest) (k ∷ t)
        (decimal-lacks b'-' w refl) (decimal-lacks b'-' h' refl) e in
    digit_first (decimal h) rest t k (decimal-IsDigits h) (decimal-ne-nil h) other after

-- A name with a version is none without.
version_apart :
    (w h h' : ℕ) (c m c' m' : Bool) (ext ext' : Text)
    → contains b'-' ext' ≡ false
    → decimal w ++ b'-' ∷ tail_of h c m ext ≡ tail_of h' c' m' ext'
    → ⊥
unfolding contains
version_apart w h h' c m false false ext ext' plain e =
    let clean : contains b'-' (decimal h' ++ b'.' ∷ ext') ≡ false =
      contains-append_none b'-' (decimal h') (b'.' ∷ ext') (decimal-lacks b'-' h' refl) plain in
    let there = contains-there b'-' (decimal w) (tail_of h c m ext) in
    let both : true ≡ false = sym there ∙ (ap (contains b'-') e ∙ clean) in absurd (cc)
version_apart w h h' c m true true ext ext' plain e =
    letter_apart w h h'
      (flag_part c (codes "-crop") ++ (flag_part m (codes "-max") ++ (b'.' ∷ ext)))
      (codes "rop-max" ++ (b'.' ∷ ext')) b'c' refl e
version_apart w h h' c m true false ext ext' plain e =
    letter_apart w h h'
      (flag_part c (codes "-crop") ++ (flag_part m (codes "-max") ++ (b'.' ∷ ext)))
      (codes "rop" ++ (b'.' ∷ ext')) b'c' refl e
version_apart w h h' c m false true ext ext' plain e =
    letter_apart w h h'
      (flag_part c (codes "-crop") ++ (flag_part m (codes "-max") ++ (b'.' ∷ ext)))
      (codes "ax" ++ (b'.' ∷ ext')) b'm' refl e

plain_choice :
    (png gif jpg webp : Bool)
    → contains b'-' (
        if png
        then codes "png"
        else if gif
        then codes "gif"
        else if jpg
        then codes "jpg"
        else if webp
        then codes "webp"
        else codes "png")
      ≡ false
unfolding contains
plain_choice true gif jpg webp = refl
plain_choice false true jpg webp = refl
plain_choice false false true webp = refl
plain_choice false false false true = refl
plain_choice false false false false = refl

extension-plain : (mime : Text) → contains b'-' (extension_for_mime mime) ≡ false
unfolding extension_for_mime
extension-plain mime =
    plain_choice (text_eq mime (codes "image/png")) (text_eq mime (codes "image/gif"))
      (text_eq mime (codes "image/jpeg")) (text_eq mime (codes "image/webp"))

-- What a file name says of a preview; every version below 0 is none.
abbrev pub Same : ℤ → ℤ → Type 0
Same (pos m) (pos n) = m ≡ n
Same (pos m) (negsuc n) = ⊥
Same (negsuc m) (pos n) = ⊥
Same (negsuc m) (negsuc n) = Unit

sized_unique :
    (w w' h h' : ℕ) (c m c' m' : Bool) (ext ext' : Text)
    → decimal w ++ b'-' ∷ tail_of h c m ext ≡ decimal w' ++ b'-' ∷ tail_of h' c' m' ext'
    → (w ≡ w') × (h ≡ h') × (◌≡◌ {A = Bool × Bool} (c, m) (c', m')) × (ext ≡ ext')
sized_unique w w' h h' c m c' m' ext ext' e =
    let (width, rest) =
      cut_unique b'-' (decimal w) (decimal w') (tail_of h c m ext) (tail_of h' c' m' ext')
        (decimal-lacks b'-' w refl) (decimal-lacks b'-' w' refl) e in
    let (height, marks, extension) = tail_unique h h' c m c' m' ext ext' rest in
    (decimal_unique w w' width, height, marks, extension)

versioned_apart :
    (v w w' h h' : ℕ) (c m c' m' : Bool) (mime mime' : Text)
    → (decimal v ++ b'-' ∷ []) ++ (decimal w ++ b'-' ∷ tail_of h c m (extension_for_mime mime))
      ≡ decimal w' ++ b'-' ∷ tail_of h' c' m' (extension_for_mime mime')
    → ⊥
versioned_apart v w w' h h' c m c' m' mime mime' e =
    let sized = decimal w ++ b'-' ∷ tail_of h c m (extension_for_mime mime) in
    let after = tail_of h' c' m' (extension_for_mime mime') in
    let (same, rest) =
      cut_unique b'-' (decimal v) (decimal w') sized after (decimal-lacks b'-' v refl)
        (decimal-lacks b'-' w' refl) (sym (append_assoc (decimal v) (b'-' ∷ []) sized) ∙ e) in
    version_apart w h h' c m c' m' (extension_for_mime mime) (extension_for_mime mime')
      (extension-plain mime') rest

-- Two previews have one file name only if they agree in version (with all below 0 as none), width,
-- height, crop, being the largest, and the extension of their format.
pub preview_name_unique :
    (v v' : ℤ) (w w' h h' : ℕ) (c m c' m' : Bool) (mime mime' : Text)
    → preview_name v w h c m mime ≡ preview_name v' w' h' c' m' mime'
    → Same v v'
      × (w ≡ w')
      × (h ≡ h')
      × (◌≡◌ {A = Bool × Bool} (c, m) (c', m'))
      × (extension_for_mime mime ≡ extension_for_mime mime')
unfolding preview_name version_part
preview_name_unique (negsuc v) (negsuc v') w w' h h' c m c' m' mime mime' e =
    let (width, height, marks, extension) =
      sized_unique w w' h h' c m c' m' (extension_for_mime mime) (extension_for_mime mime') e in
    (tt, width, height, marks, extension)
preview_name_unique (pos v) (pos v') w w' h h' c m c' m' mime mime' e =
    let sized = decimal w ++ b'-' ∷ tail_of h c m (extension_for_mime mime) in
    let sized' = decimal w' ++ b'-' ∷ tail_of h' c' m' (extension_for_mime mime') in
    let (version, rest) =
      cut_unique b'-' (decimal v) (decimal v') sized sized' (decimal-lacks b'-' v refl)
        (decimal-lacks b'-' v' refl)
        (sym (append_assoc (decimal v) (b'-' ∷ []) sized)
          ∙ (e ∙ append_assoc (decimal v') (b'-' ∷ []) sized')) in
    let (width, height, marks, extension) =
      sized_unique w w' h h' c m c' m' (extension_for_mime mime) (extension_for_mime mime') rest in
    (decimal_unique v v' version, width, height, marks, extension)
preview_name_unique (pos v) (negsuc v') w w' h h' c m c' m' mime mime' e =
    absurd (versioned_apart v w w' h h' c m c' m' mime mime' e)
preview_name_unique (negsuc v) (pos v') w w' h h' c m c' m' mime mime' e =
    absurd (versioned_apart v' w' w h' h c' m' c m mime' mime (sym e))
