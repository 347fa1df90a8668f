-- ===== src/Db/Mime/Tests.antt =====
-- Runs of core-rs/crates/nc-db/src/mime.rs, and the laws there.
use nc_server_rs.Prelude.{◌≡◌, refl, true, false, none, some, [], ◌∷◌}
use nc_server_rs.Prelude.Text.{codes, text_eq}
use nc_server_rs.Db.Mime.{
  MimeCache, MimeTable, get_id, get_name, insert, fill, load_mime_cache, get_or_insert_mime_id,
}
use nc_server_rs.Db.Mime.Faithful.{
  IsKnown, load_mime_cache-IsFaithful, get_or_insert_mime_id-IsKnown,
  get_or_insert_mime_id-poisoned,
}

abbrev table : MimeTable
table = (1, codes "application/octet-stream") ∷ (7, codes "image/jpeg") ∷ []

abbrev cache : MimeCache
cache = load_mime_cache table

get_or_insert_mime_id-IsKnown_example :
    IsKnown (codes "text/x") (get_or_insert_mime_id true true 8 cache (codes "text/x") table)
get_or_insert_mime_id-IsKnown_example =
    get_or_insert_mime_id-IsKnown 8 cache (codes "text/x") table (load_mime_cache-IsFaithful table)

unknown : get_id cache (codes "text/x") ≡ none
unfolding get_id load_mime_cache fill insert text_eq
unknown = refl

named_before : get_name cache 1 ≡ some (codes "application/octet-stream")
unfolding get_name load_mime_cache fill insert
named_before = refl

get_or_insert_mime_id-poisoned_example :
    let (id, after, rows) = get_or_insert_mime_id true false 8 cache (codes "text/x") table in
    (id ≡ 1) × (get_name after 1 ≡ some (codes "text/x")) × (get_id after (codes "text/x") ≡ some 1)
get_or_insert_mime_id-poisoned_example =
    get_or_insert_mime_id-poisoned true 8 cache (codes "text/x") table unknown
