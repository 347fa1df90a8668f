-- ===== src/Dav/Checksum/Valid.antt =====
-- core-rs/crates/nc-dav/src/bulk_handler.rs: which parts pass the check of their hash.
use nc_server_rs.Prelude.{
  ℕ, ◌≡◌, ◌↔◌, Option, none, some, [], ◌∷◌, arith, length, Option-cases, inl, inr,
}
use nc_server_rs.Prelude.Text.{Text, codes, text_eq_sound, text_eq_refl, split_once}
use nc_server_rs.Dav.Checksum.{
  Algorithm, valid, compute_hash, compare_hash, check_md5, check_headers, validate_part_hash,
}

-- The name of the algorithm and the hash that the headers declare: those of a checksum that is not
-- empty, else the hash of `X-File-MD5`.
pub data Declares : Option Text → Option Text → Text → Text → Type 0 where
  by_checksum :
      (x_file_md5 : Option Text) (c : ℕ) (cs name hash : Text)
      → split_once b':' (c ∷ cs) ≡ some (name, hash)
      → Declares x_file_md5 (some (c ∷ cs)) name hash
  by_md5_alone : (c : ℕ) (hash : Text) → Declares (some (c ∷ hash)) none (codes "md5") (c ∷ hash)
  by_md5_beside :
      (c : ℕ) (hash : Text) → Declares (some (c ∷ hash)) (some []) (codes "md5") (c ∷ hash)

module _ (digest : Algorithm → Text → Text) (lower : Text → Text) where
  compare_hash-valid :
      (content name hash : Text)
      → compare_hash digest lower content name hash ≡ valid
      → compute_hash digest lower name content ≡ some hash
  unfolding compare_hash
  compare_hash-valid content name hash e =
      elim (Option-cases (compute_hash digest lower name content)) [
        | inl unknown ↦ absurd (ground arith)
        | inr (computed, found) ↦ ground (arith, text_eq_sound hash computed)
      ]

  compare_hash-found :
      (content name hash : Text)
      → compute_hash digest lower name content ≡ some hash
      → compare_hash digest lower content name hash ≡ valid
  unfolding compare_hash
  compare_hash-found content name hash e = ground (arith, text_eq_refl hash)

  abbrev pub IsHashed : Text → Option Text → Option Text → Type 0
  IsHashed content x_file_md5 oc_checksum =
      (name : Text) × (hash : Text) × Declares x_file_md5 oc_checksum name hash
      × (compute_hash digest lower name content ≡ some hash)

  check_headers-valid :
      (content : Text) (x_file_md5 oc_checksum : Option Text)
      → check_headers digest lower content x_file_md5 oc_checksum ≡ valid
      → IsHashed content x_file_md5 oc_checksum
  unfolding check_headers check_md5
  check_headers-valid content none none e = absurd (cc)
  check_headers-valid content (some []) none e = absurd (cc)
  check_headers-valid content (some (c ∷ hash)) none e = (
    codes "md5",
    c ∷ hash,
    by_md5_alone c hash,
    compare_hash-valid content (codes "md5") (c ∷ hash) e,
  )
  check_headers-valid content none (some []) e = absurd (cc)
  check_headers-valid content (some []) (some []) e = absurd (cc)
  check_headers-valid content (some (c ∷ hash)) (some []) e = (
    codes "md5",
    c ∷ hash,
    by_md5_beside c hash,
    compare_hash-valid content (codes "md5") (c ∷ hash) e,
  )
  check_headers-valid content x_file_md5 (some (c ∷ cs)) e =
      elim (Option-cases (split_once b':' (c ∷ cs))) [
        | inl plain ↦ absurd (ground arith)
        | inr ((name, hash), parts) ↦ (
          name,
          hash,
          by_checksum x_file_md5 c cs name hash parts,
          compare_hash-valid content name hash (ground arith),
        )
      ]

  check_headers-declared :
      (content : Text) (x_file_md5 oc_checksum : Option Text) (name hash : Text)
      → Declares x_file_md5 oc_checksum name hash
      → compute_hash digest lower name content ≡ some hash
      → check_headers digest lower content x_file_md5 oc_checksum ≡ valid
  unfolding check_headers check_md5
  check_headers-declared content x_file_md5 oc_checksum name hash (by_checksum _ c cs _ _ parts) e =
      let same = compare_hash-found content name hash e in ground arith
  check_headers-declared content x_file_md5 oc_checksum name hash (by_md5_alone c h) e =
      compare_hash-found content (codes "md5") (c ∷ h) e
  check_headers-declared content x_file_md5 oc_checksum name hash (by_md5_beside c h) e =
      compare_hash-found content (codes "md5") (c ∷ h) e

  -- A part passes exactly if its body has the declared length and the declared hash is the digest
  -- of the body under the declared algorithm, which is known. Declared are the algorithm and the
  -- hash around the first colon of `OC-Checksum`, if it is not empty, and md5 with
  -- `X-File-MD5`, if only that is not empty.
  pub validate_part_hash-valid_iff :
      (content : Text) (content_length : ℕ) (x_file_md5 oc_checksum : Option Text)
      → (validate_part_hash digest lower content content_length x_file_md5 oc_checksum ≡ valid)
        ↔ ((length content ≡ content_length) × IsHashed content x_file_md5 oc_checksum)
  unfolding validate_part_hash
  validate_part_hash-valid_iff content content_length x_file_md5 oc_checksum =
      let passed = check_headers-valid content x_file_md5 oc_checksum in
      (
        (λ e. (ground arith, passed (ground arith))),
        (λ (sized, (name, hash, declared, hashed)).
            let same =
              check_headers-declared content x_file_md5 oc_checksum name hash declared hashed in
            ground arith),
      )
