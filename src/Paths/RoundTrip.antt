-- ===== src/Paths/RoundTrip.antt =====
-- Reading a key back: `parseStoragePath` after `StoragePaths` of packages/storage-paths/src/index.ts.
use planisfy.Common.{
  ℕ, String, Bool, true, ◌&&◌, none, some, List, [], ◌∷◌, ◌≡◌, refl, ap, ◌∙◌, subst, inl, inr,
  Bool-cases, arith, Option-cases,
}
use planisfy.Common.Text.{append, split_on}
use planisfy.Common.Decimal.{
  decimal, all_digits, decimal-filled, digits_value-decimal, all_digits-decimal,
}
use planisfy.Paths.{
  TilesetArtifactFormat, pmtiles, mbtiles, directory, BasemapArtifactName, manifest_json,
  tiles_pmtiles, style_json, Part, literal, safe, concat, first_unsafe, path, rendered, render,
  StoragePath, parts_of, storage_path, ParsedStoragePath, parse_segments, parse_storage_path,
  format_name, artifact_name, read_format, read_artifact, read_version, upload_original,
  tileset_version, tileset_build_artifact, tileset_source_artifact, basemap_release,
}
use planisfy.Paths.Segments.{
  is_safe_segment, slash, no_slash, is_safe_segment-no_slash, is_safe_segment-filled,
  split_on-append, split_on-last, append-empty,
}

-- Every argument of a template is a safe segment.
abbrev pub AllSafe : List Part → Type 0
AllSafe [] = Unit
AllSafe (literal s ∷ parts) = AllSafe parts
AllSafe (safe s ∷ parts) = (is_safe_segment s ≡ true) × AllSafe parts

first_unsafe-AllSafe : (parts : List Part) → first_unsafe parts ≡ none → AllSafe parts
first_unsafe-AllSafe [] h = tt
first_unsafe-AllSafe (literal s ∷ parts) h = first_unsafe-AllSafe parts h
first_unsafe-AllSafe (safe s ∷ parts) h = elim (Bool-cases (is_safe_segment s)) [
  | inl e ↦ (e, first_unsafe-AllSafe parts (rw e at h))
  | inr e ↦ cc (rw e at h)
]

-- What a template that does not throw gives.
pub render-path :
    (parts : List Part) (s : String) → render parts ≡ path s → AllSafe parts × (concat parts ≡ s)
unfolding rendered
render-path parts s h = elim (Option-cases (first_unsafe parts)) [
  | inl e ↦ (first_unsafe-AllSafe parts e, cc (rw e at h))
  | inr (u, e) ↦ cc (rw e at h)
]

all_digits-no_slash : (s : String) → all_digits s ≡ true → no_slash s ≡ true
all_digits-no_slash String.[] h = refl
all_digits-no_slash (String.◌∷◌ c s) h = ground (arith, all_digits-no_slash s)

-- The path's segments, of a text that is split at each slash.
abbrev pub segments : String → List String
segments s = (split_on 47 s).0 ∷ (split_on 47 s).1

-- Segments with a slash between them.
abbrev slashed : String → List String → String
slashed s [] = append s ""
slashed s (t ∷ ts) = append s (String.◌∷◌ slash (slashed t ts))

abbrev no_slashes : List String → Bool
no_slashes [] = true
no_slashes (s ∷ ts) = no_slash s && no_slashes ts

unfoldable pub first_rest : String × List String → List String
first_rest p = p.0 ∷ p.1

segments-slashed :
    (s : String) (ts : List String) → no_slashes (s ∷ ts) ≡ true → segments (slashed s ts) ≡ s ∷ ts
unfolding first_rest
segments-slashed s [] h =
    ap segments (append-empty s) ∙ ap first_rest (split_on-last s (ground (arith, h)))
segments-slashed s (t ∷ ts) h =
    ap first_rest (split_on-append s (slashed t ts) (ground (arith, h)))
    ∙ ap (λ l. s ∷ l) (segments-slashed t ts (ground (arith, h)))

-- What `parse_storage_path` reads of a text with known segments.
parse-slashed :
    (s : String) (ts : List String)
    → no_slashes (s ∷ ts) ≡ true
    → parse_storage_path (slashed s ts) ≡ parse_segments (s ∷ ts)
unfolding parse_storage_path
parse-slashed s ts h = ap parse_segments (segments-slashed s ts h)

-- The path whose key is parsed.
abbrev pub to_path : ParsedStoragePath → StoragePath
to_path (upload_original a u f) = StoragePath.upload_original a u f
to_path (tileset_version a t v format) = StoragePath.tileset_version a t v format
to_path (tileset_build_artifact a t j format) = StoragePath.tileset_build_artifact a t j format
to_path (tileset_source_artifact a s f) = StoragePath.tileset_source_artifact a s f
to_path (basemap_release n v artifact) = StoragePath.basemap_release n v artifact

format-no_slash :
    (format : TilesetArtifactFormat) → no_slash (append "tiles." (format_name format)) ≡ true
format-no_slash pmtiles = refl
format-no_slash mbtiles = refl
format-no_slash directory = refl

format-read :
    (format : TilesetArtifactFormat)
    → read_format (append "tiles." (format_name format)) ≡ some format
format-read pmtiles = refl
format-read mbtiles = refl
format-read directory = refl

artifact-no_slash : (artifact : BasemapArtifactName) → no_slash (artifact_name artifact) ≡ true
artifact-no_slash manifest_json = refl
artifact-no_slash tiles_pmtiles = refl
artifact-no_slash style_json = refl

artifact-read :
    (artifact : BasemapArtifactName) → read_artifact (artifact_name artifact) ≡ some artifact
artifact-read manifest_json = refl
artifact-read tiles_pmtiles = refl
artifact-read style_json = refl

version-read : (v : ℕ) → read_version (append "v" (decimal v)) ≡ some v
version-read v = rw (decimal-filled v, all_digits-decimal v) (ap some (digits_value-decimal v))

parse-concat :
    (p : ParsedStoragePath)
    → AllSafe (parts_of (to_path p))
    → parse_storage_path (concat (parts_of (to_path p))) ≡ some p
parse-concat (upload_original a u f) (ha, (hu, (hf, _))) =
    parse-slashed "accounts" (a ∷ "uploads" ∷ u ∷ "original" ∷ f ∷ []) (
      rw
        (
          is_safe_segment-no_slash a ha,
          is_safe_segment-no_slash u hu,
          is_safe_segment-no_slash f hf,
        )
        refl)
    ∙ rw (is_safe_segment-filled a ha, is_safe_segment-filled u hu, is_safe_segment-filled f hf)
        refl
parse-concat (tileset_version a t v format) (ha, (ht, _)) =
    parse-slashed "accounts"
      (a ∷ "tilesets" ∷ t ∷ append "v" (decimal v) ∷ append "tiles." (format_name format) ∷ [])
      (rw
        (
          is_safe_segment-no_slash a ha,
          is_safe_segment-no_slash t ht,
          all_digits-no_slash (decimal v) (all_digits-decimal v),
          format-no_slash format,
        )
        refl)
    ∙ rw
        (
          is_safe_segment-filled a ha,
          is_safe_segment-filled t ht,
          version-read v,
          format-read format,
        )
        refl
parse-concat (tileset_build_artifact a t j format) (ha, (ht, (hj, _))) =
    parse-slashed "accounts"
      (a ∷ "tilesets" ∷ t ∷ "builds" ∷ j ∷ append "tiles." (format_name format) ∷ [])
      (rw
        (
          is_safe_segment-no_slash a ha,
          is_safe_segment-no_slash t ht,
          is_safe_segment-no_slash j hj,
          format-no_slash format,
        )
        refl)
    ∙ rw
        (
          is_safe_segment-filled a ha,
          is_safe_segment-filled t ht,
          is_safe_segment-filled j hj,
          format-read format,
        )
        refl
parse-concat (tileset_source_artifact a s f) (ha, (hs, (hf, _))) =
    parse-slashed "accounts" (a ∷ "tileset-sources" ∷ s ∷ f ∷ []) (
      rw
        (
          is_safe_segment-no_slash a ha,
          is_safe_segment-no_slash s hs,
          is_safe_segment-no_slash f hf,
        )
        refl)
    ∙ rw (is_safe_segment-filled a ha, is_safe_segment-filled s hs, is_safe_segment-filled f hf)
        refl
parse-concat (basemap_release n v artifact) (hn, (hv, (_, _))) =
    parse-slashed "basemaps" (n ∷ v ∷ artifact_name artifact ∷ []) (
      rw (is_safe_segment-no_slash n hn, is_safe_segment-no_slash v hv, artifact-no_slash artifact)
        refl)
    ∙ rw (is_safe_segment-filled n hn, is_safe_segment-filled v hv, artifact-read artifact) refl

-- A key that is built for one of the five kinds that `parseStoragePath` knows is read back as the
-- same kind with the same ids, file name, version, format and artifact.
pub storage_path-parse :
    (p : ParsedStoragePath) (s : String)
    → storage_path (to_path p) ≡ path s
    → parse_storage_path s ≡ some p
unfolding storage_path
storage_path-parse p s h =
    let (ok, e) = render-path (parts_of (to_path p)) s h in
    subst (λ x. parse_storage_path x ≡ some p) e (parse-concat p ok)
