-- ===== src/Preview/Store/Tests.antt =====
-- Runs of core-rs/crates/nc-preview/src/store.rs, and the law of the file names.
use nc_server_rs.Prelude.{ℕ, ◌≡◌, refl, Bool, true, false}
use nc_server_rs.Prelude.Int.{negsuc}
use nc_server_rs.Prelude.Text.{codes, text_eq}
use nc_server_rs.Prelude.Decimal.{decimal}
use nc_server_rs.Preview.Store.{preview_name, version_part, extension_for_mime}
use nc_server_rs.Preview.Store.Names.{Same, preview_name_unique}

abbrev wide : ℕ
wide = 256

abbrev high : ℕ
high = 64

spelled :
    preview_name (negsuc 0) wide high true false (codes "image/svg+xml") ≡ codes "256-64-crop.png"
unfolding preview_name version_part extension_for_mime text_eq decimal
spelled = refl

same_name :
    preview_name (negsuc 0) wide high true false (codes "image/svg+xml")
    ≡ preview_name (negsuc 4) wide high true false (codes "image/png")
unfolding preview_name version_part extension_for_mime text_eq decimal
same_name = refl

preview_name_unique_example :
    Same (negsuc 0) (negsuc 4)
    × (wide ≡ wide)
    × (high ≡ high)
    × (◌≡◌ {A = Bool × Bool} (true, false) (true, false))
    × (extension_for_mime (codes "image/svg+xml") ≡ extension_for_mime (codes "image/png"))
preview_name_unique_example =
    preview_name_unique (negsuc 0) (negsuc 4) wide wide high high true false true false
      (codes "image/svg+xml") (codes "image/png") same_name
