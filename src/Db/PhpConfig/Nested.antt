-- ===== src/Db/PhpConfig/Nested.antt =====
-- core-rs/crates/nc-db/src/config.rs: an array whose brackets and literals are closed is read to its
-- end, if it is ASCII.
use nc_server_rs.Prelude.{
  ℕ, zero, suc, ◌+◌, ◌-◌, ◌≤◌, ◌==◌, ◌≡◌, refl, ◌<◌, sym, ◌∙◌, ap, Bool, true, false, not, ◌&&◌,
  ◌||◌, none, some, List, [], ◌∷◌, ◌++◌, arith, leb, ltb, all, drop, length, length-append,
  append_assoc, Bool-cases, Option-cases, inl, inr,
}
use nc_server_rs.Prelude.Search.{find_subsequence, drop-both}
use nc_server_rs.Prelude.Text.{Text, codes, contains}
use nc_server_rs.Prelude.Splits.{split_once-append}
use nc_server_rs.Db.PhpConfig.{
  Mode, code, quoted, escaped, is_quote, step, scan, slice_to, utf8_width, body, panics, array_body,
  extract_config_body,
}

-- What a literal is made of, and an array's text.
pub data Part : Type 0 where
  char : ℕ → Part
  pair : ℕ → Part

pub data Token : Type 0 where
  plain : ℕ → Token
  literal : ℕ → List Part → Token
  opening : Token
  closing : Token

abbrev pub show_parts : List Part → Text
show_parts [] = []
show_parts (char c ∷ parts) = c ∷ show_parts parts
show_parts (pair c ∷ parts) = b'\\' ∷ c ∷ show_parts parts

abbrev pub show : List Token → Text
show [] = []
show (plain c ∷ tokens) = c ∷ show tokens
show (literal q parts ∷ tokens) = (q ∷ show_parts parts) ++ q ∷ show tokens
show (opening ∷ tokens) = b'[' ∷ show tokens
show (closing ∷ tokens) = b']' ∷ show tokens

abbrev pub fits : ℕ → List Part → Bool
fits q [] = true
fits q (char c ∷ parts) = not (c == q) && not (c == b'\\') && fits q parts
fits q (pair c ∷ parts) = fits q parts

-- With so many brackets open, every bracket is closed at the end, and no other.
abbrev pub is_nested : ℕ → List Token → Bool
is_nested d [] = d == 0
is_nested d (plain c ∷ tokens) = not (c == b'[' || c == b']' || is_quote c) && is_nested d tokens
is_nested d (literal q parts ∷ tokens) = is_quote q && fits q parts && is_nested d tokens
is_nested d (opening ∷ tokens) = is_nested (suc d) tokens
is_nested zero (closing ∷ tokens) = false
is_nested (suc d) (closing ∷ tokens) = is_nested d tokens

scan_on :
    (m n : Mode) (d e i c : ℕ) (s : Text)
    → step m d c ≡ some (n, e)
    → scan m d i (c ∷ s) ≡ scan n e (i + 1) s
unfolding scan
scan_on m n d e i c s h = rw (h, scan) refl

step-ends : (q d : ℕ) → is_quote q ≡ true → step (quoted q) d q ≡ some (code, d)
unfolding step
step-ends q d h = ground arith

step-char :
    (q d c : ℕ) → (c == q) ≡ false → (c == b'\\') ≡ false → step (quoted q) d c ≡ some (quoted q, d)
unfolding step
step-char q d c other no_slash = rw (no_slash, other) refl

step-quote : (q d : ℕ) → is_quote q ≡ true → step code d q ≡ some (quoted q, d)
unfolding step
step-quote q d h = ground arith

step-plain :
    (c d : ℕ) → (c == b'[' || c == b']' || is_quote c) ≡ false → step code d c ≡ some (code, d)
unfolding step
step-plain c d h = ground arith

step-close : (d : ℕ) → step code (suc (suc d)) b']' ≡ some (code, suc d)
unfolding step
step-close d =
    let e : suc (suc d) - 1 ≡ suc d = omega arith in
    let more : (suc d == 0) ≡ false = ground arith in rw e (rw more refl)

scan-closed : (i : ℕ) (t : Text) → scan code 1 i (b']' ∷ t) ≡ i
unfolding scan step
scan-closed i t = refl

move : (a b : ℕ) (m : Mode) (d : ℕ) (t : Text) → a ≡ b → scan m d a t ≡ scan m d b t
move a b m d t e = ap (λ (i : ℕ). scan m d i t) e

scan-literal :
    (q d i : ℕ) (parts : List Part) (t : Text)
    → is_quote q ≡ true
    → fits q parts ≡ true
    → scan (quoted q) d i (show_parts parts ++ q ∷ t)
      ≡ scan code d (i + length (show_parts parts) + 1) t
scan-literal q d i [] t quote ok =
    scan_on (quoted q) code d d i q t (step-ends q d quote)
    ∙ move (i + 1) (i + 0 + 1) code d t (omega arith)
scan-literal q d i (char c ∷ parts) t quote ok =
    scan_on (quoted q) (quoted q) d d i c (show_parts parts ++ q ∷ t)
      (step-char q d c (ground arith) (ground arith))
    ∙ (scan-literal q d (i + 1) parts t quote (ground arith)
        ∙ move (i + 1 + length (show_parts parts) + 1) (i + suc (length (show_parts parts)) + 1)
            code d t (omega arith))
scan-literal q d i (pair c ∷ parts) t quote ok =
    scan_on (quoted q) (escaped q) d d i b'\\' (c ∷ show_parts parts ++ q ∷ t) (unfold step in refl)
    ∙ (scan_on (escaped q) (quoted q) d d (i + 1) c (show_parts parts ++ q ∷ t)
          (unfold step in refl)
        ∙ (scan-literal q d (i + 1 + 1) parts t quote ok
            ∙ move (i + 1 + 1 + length (show_parts parts) + 1)
                (i + suc (suc (length (show_parts parts))) + 1) code d t (omega arith)))

three : (a b c : Bool) → (a && b && c) ≡ true → (a ≡ true) × (b ≡ true) × (c ≡ true)
three a b c h = ground arith

scan-nested :
    (d i : ℕ) (tokens : List Token) (t : Text)
    → is_nested d tokens ≡ true
    → scan code (suc d) i (show tokens ++ t) ≡ scan code 1 (i + length (show tokens)) t
scan-nested d i [] t ok =
    let none_open : d ≡ 0 = ground arith in
    ap (λ (n : ℕ). scan code (suc n) i t) none_open ∙ move i (i + 0) code 1 t (omega arith)
scan-nested d i (plain c ∷ tokens) t ok =
    scan_on code code (suc d) (suc d) i c (show tokens ++ t) (step-plain c (suc d) (ground arith))
    ∙ (scan-nested d (i + 1) tokens t (ground arith)
        ∙ move (i + 1 + length (show tokens)) (i + suc (length (show tokens))) code 1 t
            (omega arith))
scan-nested d i (literal q parts ∷ tokens) t ok =
    let (quote, ok_parts, ok_rest) = three (is_quote q) (fits q parts) (is_nested d tokens) ok in
    let size = length-append (show_parts parts) (q ∷ show tokens) in
    ap (scan code (suc d) i)
      (ap (λ (r : Text). q ∷ r) (append_assoc (show_parts parts) (q ∷ show tokens) t))
    ∙ (scan_on code (quoted q) (suc d) (suc d) i q (show_parts parts ++ q ∷ (show tokens ++ t))
          (step-quote q (suc d) quote)
        ∙ (scan-literal q (suc d) (i + 1) parts (show tokens ++ t) quote ok_parts
            ∙ (scan-nested d (i + 1 + length (show_parts parts) + 1) tokens t ok_rest
                ∙ move (i + 1 + length (show_parts parts) + 1 + length (show tokens))
                    (i + suc (length (show_parts parts ++ q ∷ show tokens))) code 1 t
                    (omega arith))))
scan-nested d i (opening ∷ tokens) t ok =
    scan_on code code (suc d) (suc (suc d)) i b'[' (show tokens ++ t) (unfold step in refl)
    ∙ (scan-nested (suc d) (i + 1) tokens t ok
        ∙ move (i + 1 + length (show tokens)) (i + suc (length (show tokens))) code 1 t
            (omega arith))
scan-nested zero i (closing ∷ tokens) t ok = absurd (cc)
scan-nested (suc d) i (closing ∷ tokens) t ok =
    scan_on code code (suc (suc d)) (suc d) i b']' (show tokens ++ t) (step-close d)
    ∙ (scan-nested d (i + 1) tokens t ok
        ∙ move (i + 1 + length (show tokens)) (i + suc (length (show tokens))) code 1 t
            (omega arith))

-- ASCII.
abbrev pub is_ascii : Text → Bool
is_ascii s = all (λ c. ltb c 128) s

slice_to-ascii : (s t : Text) → is_ascii s ≡ true → slice_to (length s) (s ++ t) ≡ some s
unfolding slice_to
slice_to-ascii [] t ok = refl
slice_to-ascii (c ∷ s) t ok =
    let low : ltb c 128 ≡ true = ground arith in
    let rest_ok : is_ascii s ≡ true = ground arith in
    let one : utf8_width c ≡ 1 = rw low refl in
    let fits_in : leb 1 (suc (length s)) ≡ true = ground arith in
    let less : suc (length s) - 1 ≡ length s = omega arith in
    rw one (rw (fits_in, less) (rw (slice_to-ascii s t rest_ok) refl))

array_body-nested :
    (behind : Text) (tokens : List Token)
    → is_nested 0 tokens ≡ true
    → is_ascii (show tokens) ≡ true
    → array_body (show tokens ++ b']' ∷ behind) ≡ body (show tokens)
unfolding array_body
array_body-nested behind tokens nested ascii =
    let last : scan code 1 0 (show tokens ++ b']' ∷ behind) ≡ length (show tokens) =
      scan-nested 0 0 tokens (b']' ∷ behind) nested
      ∙ (scan-closed (0 + length (show tokens)) behind ∙ (omega arith)) in
    rw (last, array_body) (rw (slice_to-ascii (show tokens) (b']' ∷ behind) ascii) refl)

-- The array's text is the one up to its bracket: if all its own brackets are closed, but for those
-- in literals, and it is ASCII, it is read whole, whatever stands behind it.
pub extract_config_body-nested :
    (before between behind : Text) (tokens : List Token)
    → find_subsequence
        (codes "$CONFIG")
        (before ++ (codes "$CONFIG" ++ (between ++ b'[' ∷ (show tokens ++ b']' ∷ behind))))
      ≡ some (length before)
    → contains b'[' between ≡ false
    → is_nested 0 tokens ≡ true
    → is_ascii (show tokens) ≡ true
    → extract_config_body
        (before ++ (codes "$CONFIG" ++ (between ++ b'[' ∷ (show tokens ++ b']' ∷ behind))))
      ≡ body (show tokens)
unfolding extract_config_body
extract_config_body-nested before between behind tokens found clean nested ascii =
    let text = show tokens ++ b']' ∷ behind in
    let after : drop (length before + 7) (before ++ (codes "$CONFIG" ++ (between ++ b'[' ∷ text)))
        ≡ between ++ b'[' ∷ text =
      drop-both before (codes "$CONFIG") (between ++ b'[' ∷ text) in
    rw (found, extract_config_body)
      (rw after (
        rw (split_once-append b'[' between text clean)
          (array_body-nested behind tokens nested ascii)))

-- The length in bytes.
abbrev pub bytes : Text → ℕ
bytes [] = 0
bytes (c ∷ s) = utf8_width c + bytes s

added : (a b n : ℕ) → b ≡ n - a → leb a n ≡ true → a + b ≡ n
added a b n e h = ground arith

slice_to-bytes : (s r : Text) (n : ℕ) → slice_to n s ≡ some r → bytes r ≡ n
unfolding slice_to
slice_to-bytes s r zero e = let same : [] ≡ r = cc in ap bytes (sym same)
slice_to-bytes [] r (suc n) e = absurd (cc)
slice_to-bytes (c ∷ s) r (suc n) e = elim (Bool-cases (leb (utf8_width c) (suc n))) [
  | inr over ↦ let stuck : none ≡ some r = (rw over at e) in absurd (cc)
  | inl fits_in ↦ elim (Option-cases (slice_to (suc n - utf8_width c) s)) [
    | inl stopped ↦ let stuck : none ≡ some r = (rw (fits_in, stopped) at e) in absurd (cc)
    | inr (t, cut) ↦
        let ih = slice_to-bytes s t (suc n - utf8_width c) cut in
        let whole : some (c ∷ t) ≡ some r = (rw (fits_in, cut) at e) in
        let same : c ∷ t ≡ r = cc in
        let size : utf8_width c + bytes t ≡ suc n =
          added (utf8_width c) (bytes t) (suc n) ih fits_in in
        ap bytes (sym same) ∙ size
  ]
]

length-le-bytes : (s : Text) → length s ≤ bytes s
length-le-bytes [] = omega arith
length-le-bytes (c ∷ s) = let rest = length-le-bytes s in ground arith

length-lt-bytes : (s : Text) → is_ascii s ≡ false → length s < bytes s
length-lt-bytes [] h = absurd (cc)
length-lt-bytes (c ∷ s) h =
    let rest = length-le-bytes s in
    elim (Bool-cases (is_ascii s)) [
      | inl low ↦ ground arith
      | inr high ↦ let more = length-lt-bytes s high in ground arith
    ]

-- The same array with a character outside ASCII in it: the index of the bracket, counted in
-- characters, is too small in bytes, so the text is never read whole. It is cut short, or the slice
-- panics.
pub array_body-short :
    (behind : Text) (tokens : List Token)
    → is_nested 0 tokens ≡ true
    → is_ascii (show tokens) ≡ false
    → (text : Text) → array_body (show tokens ++ b']' ∷ behind) ≡ body text
    → bytes text < bytes (show tokens)
unfolding array_body
array_body-short behind tokens nested wide text read =
    let whole = show tokens ++ b']' ∷ behind in
    let last : scan code 1 0 whole ≡ length (show tokens) =
      scan-nested 0 0 tokens (b']' ∷ behind) nested
      ∙ (scan-closed (0 + length (show tokens)) behind ∙ (omega arith)) in
    let more = length-lt-bytes (show tokens) wide in
    elim (Option-cases (slice_to (length (show tokens)) whole)) [
      | inl panic ↦
          let stuck : array_body whole ≡ panics = rw (last, array_body) (rw panic refl) in
          let both : panics ≡ body text = sym stuck ∙ read in absurd (cc)
      | inr (t, cut) ↦
          let size = slice_to-bytes whole t (length (show tokens)) cut in
          let given : array_body whole ≡ body t = rw (last, array_body) (rw cut refl) in
          let both : body t ≡ body text = sym given ∙ read in
          let same : t ≡ text = cc in
          let bytes_same : bytes t ≡ bytes text = ap bytes same in omega arith
    ]
