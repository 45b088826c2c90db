-- ===== src/Paths/Tests.antt =====
-- The keys of packages/storage-paths/src/index.ts on concrete paths.
use planisfy.Common.{String, true, some, none, ◌≡◌, refl, ◌↔◌}
use planisfy.Common.Text.{append, split_on}
use planisfy.Paths.{
  pmtiles, mbtiles, tileset_build_artifact, png, unsafe, path, rendered, StoragePath, storage_path,
  ParsedStoragePath, parse_storage_path,
}
use planisfy.Paths.Segments.{is_safe_segment}
use planisfy.Paths.RoundTrip.{to_path, storage_path-parse}
use planisfy.Paths.Containment.{storage_path-account_prefix}

abbrev build : ParsedStoragePath
build = tileset_build_artifact "org_a" "rivers" "job.7" pmtiles

abbrev account : String
account = "org_a"

abbrev build_key : String
build_key = "accounts/org_a/tilesets/rivers/builds/job.7/tiles.pmtiles"

printed :
    storage_path (to_path build) ≡ path "accounts/org_a/tilesets/rivers/builds/job.7/tiles.pmtiles"
unfolding storage_path is_safe_segment rendered
printed = refl

sprite : storage_path (StoragePath.sprite_asset "maki" png true) ≡ path "sprites/maki@2x.png"
unfolding storage_path is_safe_segment rendered
sprite = refl

parent_folder : storage_path (StoragePath.upload_original "org_a" ".." "x/y") ≡ unsafe ".."
unfolding storage_path is_safe_segment rendered
parent_folder = refl

-- Reading does not ask for a safe segment, and drops a version's leading zeros.
lenient :
    parse_storage_path "accounts/a b/tilesets/../v007/tiles.mbtiles"
    ≡ some (ParsedStoragePath.tileset_version "a b" ".." 7 mbtiles)
unfolding parse_storage_path split_on
lenient = refl

no_digits : parse_storage_path "accounts/a/tilesets/t/v/tiles.mbtiles" ≡ none
unfolding parse_storage_path split_on
no_digits = refl

storage_path-parse_example :
    parse_storage_path "accounts/org_a/tilesets/rivers/builds/job.7/tiles.pmtiles" ≡ some build
storage_path-parse_example =
    storage_path-parse build "accounts/org_a/tilesets/rivers/builds/job.7/tiles.pmtiles" printed

prefix_printed : storage_path (StoragePath.account_prefix "org_a") ≡ path "accounts/org_a/"
unfolding storage_path is_safe_segment rendered
prefix_printed = refl

storage_path-account_prefix_example :
    ((t : String) × (build_key ≡ append "accounts/org_a/" t)) ↔ (account ≡ account)
storage_path-account_prefix_example =
    storage_path-account_prefix (to_path build) account account build_key "accounts/org_a/" refl
      printed prefix_printed
