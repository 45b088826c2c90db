-- ===== src/Paths/Containment.antt =====
-- Whose a key is: the account prefixes of `StoragePaths` in packages/storage-paths/src/index.ts,
-- under which an account's objects are listed and deleted.
use mathlib.Core.Option.{some-injective}
use planisfy.Common.{
  String, true, Option, none, some, List, ◌∷◌, ◌≡◌, refl, sym, ap, ◌∙◌, subst, ◌↔◌,
}
use planisfy.Common.Text.{append}
use planisfy.Paths.{
  concat, path, StoragePath, upload_original, dataset_version, tileset_version,
  tileset_build_artifact, tileset_source_artifact, style_version, style_thumbnail,
  account_sprite_asset, profile_avatar, basemap_release, sprite_asset, glyph_range, account_prefix,
  upload_prefix, tileset_prefix, tileset_source_prefix, parts_of, storage_path,
}
use planisfy.Paths.Segments.{
  is_safe_segment, slash, is_safe_segment-no_slash, no_slash, split_on-append,
}
use planisfy.Paths.RoundTrip.{AllSafe, render-path, segments, first_rest}

-- The account whose id a template takes.
abbrev pub owner : StoragePath → Option String
owner (upload_original a u f) = some a
owner (dataset_version a d v f) = some a
owner (tileset_version a t v format) = some a
owner (tileset_build_artifact a t j format) = some a
owner (tileset_source_artifact a s f) = some a
owner (style_version a s v) = some a
owner (style_thumbnail a s v) = some a
owner (account_sprite_asset a s f) = some a
owner (profile_avatar a s f) = some a
owner (account_prefix a) = some a
owner (upload_prefix a u) = some a
owner (tileset_prefix a t) = some a
owner (tileset_source_prefix a s) = some a
owner (basemap_release n v artifact) = none
owner (sprite_asset s kind double) = none
owner (glyph_range font_stack range) = none

-- A text behind an account's prefix.
abbrev behind : String → String → String
behind a t = append "accounts/" (append a (String.◌∷◌ slash t))

segments-append :
    (s t : String) → no_slash s ≡ true → segments (append s (String.◌∷◌ slash t)) ≡ s ∷ segments t
unfolding first_rest
segments-append s t h = ap first_rest (split_on-append s t h)

segments-behind :
    (a t : String) → is_safe_segment a ≡ true → segments (behind a t) ≡ "accounts" ∷ a ∷ segments t
segments-behind a t h =
    segments-append "accounts" (append a (String.◌∷◌ slash t)) refl
    ∙ ap (λ l. "accounts" ∷ l) (segments-append a t (is_safe_segment-no_slash a h))

append_assoc : (a b c : String) → append (append a b) c ≡ append a (append b c)
append_assoc String.[] b c = refl
append_assoc (String.◌∷◌ x a) b c = ap (String.◌∷◌ x) (append_assoc a b c)

BehindOwner : String → String → Type 0
BehindOwner a s = (is_safe_segment a ≡ true) × ((t : String) × (s ≡ behind a t))

to_owner :
    {x a : String} (t : String)
    → some x ≡ some a
    → is_safe_segment x ≡ true
    → BehindOwner a (behind x t)
unfolding BehindOwner
to_owner {x} {a} t h ok =
    subst (λ y. BehindOwner y (behind x t)) (some-injective x a h) (ok, (t, refl))

-- Every key of an account stands behind that account's prefix.
owned_behind :
    (p : StoragePath) (a : String)
    → owner p ≡ some a
    → AllSafe (parts_of p)
    → BehindOwner a (concat (parts_of p))
owned_behind (upload_original x u f) a h (ok, _) = to_owner _ h ok
owned_behind (dataset_version x d v f) a h (ok, _) = to_owner _ h ok
owned_behind (tileset_version x t v format) a h (ok, _) = to_owner _ h ok
owned_behind (tileset_build_artifact x t j format) a h (ok, _) = to_owner _ h ok
owned_behind (tileset_source_artifact x s f) a h (ok, _) = to_owner _ h ok
owned_behind (style_version x s v) a h (ok, _) = to_owner _ h ok
owned_behind (style_thumbnail x s v) a h (ok, _) = to_owner _ h ok
owned_behind (account_sprite_asset x s f) a h (ok, _) = to_owner _ h ok
owned_behind (profile_avatar x s f) a h (ok, _) = to_owner _ h ok
owned_behind (account_prefix x) a h (ok, _) = to_owner _ h ok
owned_behind (upload_prefix x u) a h (ok, _) = to_owner _ h ok
owned_behind (tileset_prefix x t) a h (ok, _) = to_owner _ h ok
owned_behind (tileset_source_prefix x s) a h (ok, _) = to_owner _ h ok
owned_behind (basemap_release n v artifact) a h ok = absurd (cc h)
owned_behind (sprite_asset s kind double) a h ok = absurd (cc h)
owned_behind (glyph_range font_stack range) a h ok = absurd (cc h)

second : List String → String
second (_ ∷ a ∷ _) = a
second _ = ""

behind-injective :
    (a b t u : String)
    → is_safe_segment a ≡ true
    → is_safe_segment b ≡ true
    → behind a t ≡ behind b u
    → a ≡ b
unfolding second
behind-injective a b t u ha hb e =
    ap second (sym (segments-behind a t ha) ∙ ap segments e ∙ segments-behind b u hb)

prefix_behind : (b t : String) → append (concat (parts_of (account_prefix b))) t ≡ behind b t
prefix_behind b t =
    append_assoc "accounts/" (append b "/") t ∙ ap (append "accounts/") (append_assoc b "/" t)

-- For a path of account `a` whose key is built, and the prefix that is built for account `b`: the
-- key begins with the prefix if and only if `a` and `b` are the same account id. So what is listed
-- or deleted under an account's prefix is that account's keys and no other's.
pub storage_path-account_prefix :
    (p : StoragePath) (a b key prefix : String)
    → owner p ≡ some a
    → storage_path p ≡ path key
    → storage_path (account_prefix b) ≡ path prefix
    → ((t : String) × (key ≡ append prefix t)) ↔ (a ≡ b)
unfolding storage_path BehindOwner
storage_path-account_prefix p a b key prefix h hp hb =
    let (okp, ep) = render-path (parts_of p) key hp in
    let ((okb, _), eb) = render-path (parts_of (account_prefix b)) prefix hb in
    let (oka, (t, et)) = owned_behind p a h okp in
    let at : (u : String) → append prefix u ≡ behind b u =
      λ u. subst (λ x. append x u ≡ behind b u) eb (prefix_behind b u) in
    (
      λ (u, e). behind-injective a b t u oka okb (sym et ∙ ep ∙ e ∙ at u),
      λ e. (t, sym ep ∙ et ∙ ap (λ x. behind x t) e ∙ sym (at t)),
    )
