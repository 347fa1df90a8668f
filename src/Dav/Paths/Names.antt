-- ===== src/Dav/Paths/Names.antt =====
-- core-rs/crates/nc-dav/src/path_utils.rs, handler.rs, trashbin.rs, row/paths.rs: the names that
-- the server derives from paths and ids.
use nc_server_rs.Prelude.{
  ℕ, ◌+◌, ◌-◌, ◌≤◌, ◌≡◌, refl, sym, ap, ◌∙◌, ◌≢◌, Bool, true, false, some, none, Option, ◌++◌, [],
  ◌∷◌, arith, Option-cases, inl, inr, zero, suc, all, length, if◌then◌else◌, length-append, ◌>>=◌,
  ◌||◌, ◌↔◌,
}
use mathlib.Core.List.{append_cancel_right, cons-ne-nil}
use nc_server_rs.Prelude.Int.{pos}
use nc_server_rs.Prelude.Decimal.{
  decimal, signed_decimal, IsDigits, decimal-IsDigits, decimal-ne-nil, value_from,
  value_from-decimal, digits-lack,
}
use nc_server_rs.Prelude.Text.{Text, codes, text_eq, contains, rsplit_once, is_digit, trim_end_by}
use nc_server_rs.Prelude.Splits.{rsplit_once-append, rsplit_once_sound, rsplit_once-none_clean}
use nc_server_rs.Dav.Percent.{percent_decode_path, is_alphanumeric}
use nc_server_rs.Dav.Paths.{
  extension, is_trash_extension, trash_fc_name, dav_file_id, last_part, zeros, decoded_name,
  write_target_name, named, is_slash, build_download_started_cookie, url_to_path, dav_path_of,
}

all_digits : (s : Text) → IsDigits s → all is_digit s ≡ true
all_digits [] h = refl
all_digits (c ∷ s) (p, h) = rw p (all_digits s h)

is_trash_extension-digits : (s : Text) → IsDigits s → s ≢ [] → is_trash_extension (b'd' ∷ s) ≡ true
unfolding is_trash_extension
is_trash_extension-digits [] h ne = absurd (ne refl)
is_trash_extension-digits (c ∷ s) h ne = all_digits (c ∷ s) h

trash_fc_name-split :
    (basename : Text) (timestamp : ℕ)
    → trash_fc_name basename (pos timestamp)
      ≡ (codes "files_trashbin/files/" ++ basename) ++ b'.' ∷ (b'd' ∷ decimal timestamp)
unfolding trash_fc_name signed_decimal
trash_fc_name-split basename timestamp = refl

-- The trash name of any base name, at a time since 1970, has a trash extension, also where the
-- base name holds dots or ends in a trash extension itself.
is_trash_extension-trash_fc_name :
    (basename : Text) (timestamp : ℕ)
    → is_trash_extension (extension (trash_fc_name basename (pos timestamp))) ≡ true
unfolding extension
is_trash_extension-trash_fc_name basename timestamp =
    let digits = decimal-IsDigits timestamp in
    let lack : contains b'.' (b'd' ∷ decimal timestamp) ≡ false =
      unfold contains in digits-lack b'.' (decimal timestamp) refl digits in
    rw
      (
        trash_fc_name-split basename timestamp,
        rsplit_once-append b'.' (codes "files_trashbin/files/" ++ basename)
            (b'd' ∷ decimal timestamp) lack,
        last_part,
      )
      (is_trash_extension-digits (decimal timestamp) digits (decimal-ne-nil timestamp))

value-zeros : (n : ℕ) (s : Text) → value_from 0 (zeros n ++ s) ≡ value_from 0 s
value-zeros zero s = refl
value-zeros (suc n) s = value-zeros n s

-- Within one instance two files with the same DAV id are the same file.
dav_file_id_injective :
    (a b : ℕ) (instance_id : Text)
    → dav_file_id (pos a) instance_id ≡ dav_file_id (pos b) instance_id
    → a ≡ b
unfolding dav_file_id
dav_file_id_injective a b instance_id e =
    let same = append_cancel_right _ _ instance_id e in
    let left = value-zeros (8 - length (decimal a)) (decimal a) ∙ value_from-decimal a in
    let right = value-zeros (8 - length (decimal b)) (decimal b) ∙ value_from-decimal b in
    sym left ∙ ap (value_from 0) same ∙ right

length-zeros : (n : ℕ) → length (zeros n) ≡ n
length-zeros zero = refl
length-zeros (suc n) = ap suc (length-zeros n)

-- The DAV id of a file has at least eight digits in front of the instance id.
pub length-dav_file_id :
    (a : ℕ) (instance_id : Text) → 8 + length instance_id ≤ length (dav_file_id (pos a) instance_id)
unfolding dav_file_id
length-dav_file_id a instance_id = omega (
  arith,
  length-append (zeros (8 - length (decimal a)) ++ decimal a) instance_id,
  length-append (zeros (8 - length (decimal a))) (decimal a),
  length-zeros (8 - length (decimal a)),
)

last_part_clean : (c : ℕ) (s : Text) → contains c (last_part c s) ≡ false
last_part_clean c s = elim (Option-cases (rsplit_once c s)) [
  | inl missed ↦ rw (missed, last_part) (rsplit_once-none_clean c s missed)
  | inr ((a, b), found) ↦ rw (found, last_part) ((rsplit_once_sound c s a b found).1)
]

-- What a derived file name is: not empty, and without a slash.
abbrev pub IsName : Text → Type 0
IsName name = (name ≢ []) × (contains b'/' name ≡ false)

named-IsName : (s name : Text) → contains b'/' s ≡ false → named s ≡ some name → IsName name
named-IsName [] name h e = cc
named-IsName (c ∷ s) name h e =
    let same : c ∷ s ≡ name = ground arith in (rw (← same) (cons-ne-nil c s), rw (← same) h)

decoded_name-IsName :
    (lossy : Text → Text) (path name : Text) → decoded_name lossy path ≡ some name → IsName name
unfolding decoded_name
decoded_name-IsName lossy path name e =
    named-IsName (last_part b'/' (percent_decode_path lossy (trim_end_by is_slash path))) name
      (last_part_clean b'/' (percent_decode_path lossy (trim_end_by is_slash path))) e

bind-IsName :
    (lossy : Text → Text) (destination : Option Text) (name : Text)
    → (destination >>= λ dest. decoded_name lossy (url_to_path dest)) ≡ some name
    → IsName name
bind-IsName lossy none name e = cc
bind-IsName lossy (some dest) name e = decoded_name-IsName lossy (url_to_path dest) name e

branch-IsName :
    (b : Bool) (x y : Option Text) (name : Text)
    → (x ≡ some name → IsName name)
    → (y ≡ some name → IsName name)
    → (if b then x else y) ≡ some name
    → IsName name
branch-IsName true x y name f g e = f e
branch-IsName false x y name f g e = g e

no-IsName : (name : Text) → none ≡ some name → IsName name
no-IsName name e = cc

-- The name that a write is validated under is not empty and holds no slash, whatever the request
-- path and the Destination header escape: "%2F" cannot smuggle a separator into it.
pub write_target_name-IsName :
    (lossy : Text → Text) (method req_path prefix : Text) (destination : Option Text) (name : Text)
    → write_target_name lossy method req_path prefix destination ≡ some name
    → IsName name
unfolding write_target_name
write_target_name-IsName lossy method req_path prefix destination name e =
    branch-IsName (text_eq method (codes "PUT") || text_eq method (codes "MKCOL"))
      (decoded_name lossy (dav_path_of prefix req_path))
      (if text_eq method (codes "MOVE") || text_eq method (codes "COPY")
        then (destination >>= λ dest. decoded_name lossy (url_to_path dest))
        else none)
      name (λ p. decoded_name-IsName lossy (dav_path_of prefix req_path) name p)
      (λ p.
        branch-IsName (text_eq method (codes "MOVE") || text_eq method (codes "COPY"))
          (destination >>= λ dest. decoded_name lossy (url_to_path dest)) none name
          (bind-IsName lossy destination name) (no-IsName name) p)
      e

-- The cookie's token is one to 32 letters and digits, or there is no cookie.
pub build_download_started_cookie_iff :
    (token : Text) (cookie : Text)
    → (build_download_started_cookie token ≡ some cookie) ↔ (
        (token ≢ [])
        × (length token ≤ 32)
        × (all is_alphanumeric token ≡ true)
        × (cookie ≡ codes "ocDownloadStarted=" ++ (token ++ codes "; Max-Age=20; Path=/")))
unfolding build_download_started_cookie
build_download_started_cookie_iff [] cookie = (λ e. cc, λ h. absurd (h.0 refl))
build_download_started_cookie_iff (c ∷ s) cookie = ground (arith, cons-ne-nil c s)
