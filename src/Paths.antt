-- ===== src/Paths.antt =====
-- The keys of stored objects: packages/storage-paths/src/index.ts.
pub mod Segments
pub mod RoundTrip
pub mod Containment
mod Tests
use Prim.Native.Char.{Char, code}
use text.Mathlib.Text.{◌==◌ as str_eq}
use planisfy.Common.{
  ℕ, String, Bool, true, false, not, ◌&&◌, ◌||◌, Option, none, some, List, [], ◌∷◌, if◌then◌else◌,
  ◌==◌, leb, or_else,
}
use planisfy.Common.Text.{append, split_on, after_prefix}
use planisfy.Common.Decimal.{decimal, digits_value, all_digits}
use planisfy.Paths.Segments.{is_safe_segment}

pub data TilesetArtifactFormat : Type 0 where
  pmtiles mbtiles directory : TilesetArtifactFormat

pub data BasemapArtifactName : Type 0 where
  manifest_json tiles_pmtiles style_json : BasemapArtifactName

abbrev pub format_name : TilesetArtifactFormat → String
format_name pmtiles = "pmtiles"
format_name mbtiles = "mbtiles"
format_name directory = "directory"

abbrev pub artifact_name : BasemapArtifactName → String
artifact_name manifest_json = "manifest.json"
artifact_name tiles_pmtiles = "tiles.pmtiles"
artifact_name style_json = "style.json"

pub data SpriteAssetKind : Type 0 where
  json png : SpriteAssetKind

abbrev pub kind_name : SpriteAssetKind → String
kind_name json = "json"
kind_name png = "png"

-- A template's literal text, or an argument that goes through `safeSegment`.
pub data Part : Type 0 where
  literal : String → Part
  safe : String → Part

abbrev pub concat : List Part → String
concat [] = ""
concat (literal s ∷ parts) = append s (concat parts)
concat (safe s ∷ parts) = append s (concat parts)

-- The segment at which `safeSegment` throws first; a template's arguments are evaluated in order.
abbrev pub first_unsafe : List Part → Option String
first_unsafe [] = none
first_unsafe (literal s ∷ parts) = first_unsafe parts
first_unsafe (safe s ∷ parts) =
    let rest = first_unsafe parts in if is_safe_segment s then rest else some s

-- A path, or the segment of an `UnsafeStoragePathSegmentError`.
pub data Rendered : Type 0 where
  unsafe : String → Rendered
  path : String → Rendered

unfoldable pub rendered : Option String → String → Rendered
rendered none s = path s
rendered (some segment) s = unsafe segment

abbrev pub render : List Part → Rendered
render parts = rendered (first_unsafe parts) (concat parts)

-- The functions of `StoragePaths`. A file name and a scale are given where the source has a default.
pub data StoragePath : Type 0 where
  upload_original : (account_id upload_id file_name : String) → StoragePath
  dataset_version : (account_id dataset_id : String) → ℕ → (file_name : String) → StoragePath
  tileset_version : (account_id tileset_id : String) → ℕ → TilesetArtifactFormat → StoragePath
  tileset_build_artifact :
      (account_id tileset_id processing_job_id : String) → TilesetArtifactFormat → StoragePath
  tileset_source_artifact : (account_id source_id file_name : String) → StoragePath
  style_version style_thumbnail : (account_id style_id : String) → ℕ → StoragePath
  account_sprite_asset profile_avatar : (account_id asset_id file_name : String) → StoragePath
  basemap_release : (name version : String) → BasemapArtifactName → StoragePath
  sprite_asset : String → SpriteAssetKind → (double : Bool) → StoragePath
  glyph_range : (font_stack range : String) → StoragePath
  account_prefix : String → StoragePath
  upload_prefix tileset_prefix tileset_source_prefix : (account_id id : String) → StoragePath

abbrev pub parts_of : StoragePath → List Part
parts_of (upload_original a u f) =
    literal "accounts/" ∷ safe a ∷ literal "/uploads/" ∷ safe u ∷ literal "/original/" ∷ safe f ∷ []
parts_of (dataset_version a d v f) =
    literal "accounts/"
    ∷ safe a
    ∷ literal "/datasets/"
    ∷ safe d
    ∷ literal "/v"
    ∷ literal (decimal v)
    ∷ literal "/"
    ∷ safe f
    ∷ []
parts_of (tileset_version a t v format) =
    literal "accounts/"
    ∷ safe a
    ∷ literal "/tilesets/"
    ∷ safe t
    ∷ literal "/v"
    ∷ literal (decimal v)
    ∷ literal "/tiles."
    ∷ literal (format_name format)
    ∷ []
parts_of (tileset_build_artifact a t j format) =
    literal "accounts/"
    ∷ safe a
    ∷ literal "/tilesets/"
    ∷ safe t
    ∷ literal "/builds/"
    ∷ safe j
    ∷ literal "/tiles."
    ∷ literal (format_name format)
    ∷ []
parts_of (tileset_source_artifact a s f) =
    literal "accounts/" ∷ safe a ∷ literal "/tileset-sources/" ∷ safe s ∷ literal "/" ∷ safe f ∷ []
parts_of (style_version a s v) =
    literal "accounts/"
    ∷ safe a
    ∷ literal "/styles/"
    ∷ safe s
    ∷ literal "/v"
    ∷ literal (decimal v)
    ∷ literal "/style.json"
    ∷ []
parts_of (style_thumbnail a s v) =
    literal "accounts/"
    ∷ safe a
    ∷ literal "/styles/"
    ∷ safe s
    ∷ literal "/v"
    ∷ literal (decimal v)
    ∷ literal "/thumbnail.png"
    ∷ []
parts_of (account_sprite_asset a s f) =
    literal "accounts/" ∷ safe a ∷ literal "/sprite-assets/" ∷ safe s ∷ literal "/" ∷ safe f ∷ []
parts_of (profile_avatar a s f) =
    literal "accounts/" ∷ safe a ∷ literal "/profile/avatar/" ∷ safe s ∷ literal "/" ∷ safe f ∷ []
parts_of (basemap_release n v artifact) =
    literal "basemaps/"
    ∷ safe n
    ∷ literal "/"
    ∷ safe v
    ∷ literal "/"
    ∷ safe (artifact_name artifact)
    ∷ []
parts_of (sprite_asset s kind double) =
    literal "sprites/"
    ∷ safe s
    ∷ literal (if double then "@2x" else "")
    ∷ literal "."
    ∷ literal (kind_name kind)
    ∷ []
parts_of (glyph_range font_stack range) =
    literal "glyphs/" ∷ safe font_stack ∷ literal "/" ∷ safe range ∷ literal ".pbf" ∷ []
parts_of (account_prefix a) = literal "accounts/" ∷ safe a ∷ literal "/" ∷ []
parts_of (upload_prefix a u) =
    literal "accounts/" ∷ safe a ∷ literal "/uploads/" ∷ safe u ∷ literal "/" ∷ []
parts_of (tileset_prefix a t) =
    literal "accounts/" ∷ safe a ∷ literal "/tilesets/" ∷ safe t ∷ literal "/" ∷ []
parts_of (tileset_source_prefix a s) =
    literal "accounts/" ∷ safe a ∷ literal "/tileset-sources/" ∷ safe s ∷ literal "/" ∷ []

unfoldable pub storage_path : StoragePath → Rendered
unfolding rendered
storage_path p = render (parts_of p)

pub data ParsedStoragePath : Type 0 where
  upload_original : (account_id upload_id file_name : String) → ParsedStoragePath
  tileset_version : (account_id tileset_id : String) → ℕ → TilesetArtifactFormat → ParsedStoragePath
  tileset_build_artifact :
      (account_id tileset_id processing_job_id : String) → TilesetArtifactFormat → ParsedStoragePath
  tileset_source_artifact : (account_id source_id file_name : String) → ParsedStoragePath
  basemap_release : (name version : String) → BasemapArtifactName → ParsedStoragePath

-- `tiles\.(pmtiles|mbtiles|directory)`
abbrev pub read_format : String → Option TilesetArtifactFormat
read_format s =
    if str_eq s "tiles.pmtiles"
    then some pmtiles
    else if str_eq s "tiles.mbtiles"
    then some mbtiles
    else if str_eq s "tiles.directory"
    then some directory
    else none

abbrev pub read_artifact : String → Option BasemapArtifactName
read_artifact s =
    if str_eq s "manifest.json"
    then some manifest_json
    else if str_eq s "tiles.pmtiles"
    then some tiles_pmtiles
    else if str_eq s "style.json"
    then some style_json
    else none

-- `v([0-9]+)`
abbrev digits_number : Option String → Option ℕ
digits_number none = none
digits_number (some s) = if not (str_eq s "") && all_digits s then some (digits_value 0 s) else none

abbrev pub read_version : String → Option ℕ
read_version s = digits_number (after_prefix "v" s)

-- `[^/]+`, of a segment
abbrev pub filled : String → Bool
filled s = not (str_eq s "")

abbrev versioned :
    (account_id tileset_id : String)
    → Option ℕ
    → Option TilesetArtifactFormat
    → Option ParsedStoragePath
versioned a t (some v) (some format) = some (ParsedStoragePath.tileset_version a t v format)
versioned a t _ _ = none

abbrev built :
    (account_id tileset_id processing_job_id : String)
    → Option TilesetArtifactFormat
    → Option ParsedStoragePath
built a t j (some format) = some (ParsedStoragePath.tileset_build_artifact a t j format)
built a t j none = none

abbrev released : (name version : String) → Option BasemapArtifactName → Option ParsedStoragePath
released n v (some artifact) = some (ParsedStoragePath.basemap_release n v artifact)
released n v none = none

-- The patterns, each of which fixes the number of segments between slashes.
abbrev pub parse_segments : List String → Option ParsedStoragePath
parse_segments (k ∷ n ∷ v ∷ artifact ∷ []) =
    if str_eq k "basemaps" && (filled n && filled v)
    then released n v (read_artifact artifact)
    else none
parse_segments (k ∷ a ∷ l ∷ s ∷ f ∷ []) =
    if str_eq k "accounts" && (str_eq l "tileset-sources" && (filled a && (filled s && filled f)))
    then some (ParsedStoragePath.tileset_source_artifact a s f)
    else none
parse_segments (k ∷ a ∷ l ∷ t ∷ m ∷ f ∷ []) =
    if str_eq k "accounts"
      && (str_eq l "uploads" && (str_eq m "original" && (filled a && (filled t && filled f))))
    then some (ParsedStoragePath.upload_original a t f)
    else if str_eq k "accounts" && (str_eq l "tilesets" && (filled a && filled t))
    then versioned a t (read_version m) (read_format f)
    else none
parse_segments (k ∷ a ∷ l ∷ t ∷ m ∷ j ∷ f ∷ []) =
    if str_eq k "accounts"
      && (str_eq l "tilesets" && (str_eq m "builds" && (filled a && (filled t && filled j))))
    then built a t j (read_format f)
    else none
parse_segments _ = none

unfoldable pub parse_storage_path : String → Option ParsedStoragePath
unfolding split_on
parse_storage_path key = let (first, rest) = split_on 47 key in parse_segments (first ∷ rest)
