-- ===== src/Paths/Segments.antt =====
-- Segments of a path, between slashes: `safeSegment` of packages/storage-paths/src/index.ts, and
-- what the patterns of `parseStoragePath` see.
use Prim.Native.Char.{Char, char, code}
use text.Mathlib.Text.{◌==◌ as str_eq}
use planisfy.Common.{
  String, Bool, true, false, not, ◌&&◌, ◌||◌, [], ◌∷◌, ◌≡◌, refl, ap, inl, inr, Bool-cases, ◌==◌,
  leb, arith,
}
use planisfy.Common.Text.{append, split_on}

-- `[A-Za-z0-9._-]`
abbrev pub is_safe_char : Char → Bool
is_safe_char c =
    (leb 97 (code c) && leb (code c) 122)
    || ((leb 65 (code c) && leb (code c) 90)
        || ((leb 48 (code c) && leb (code c) 57)
            || (code c == 46 || (code c == 95 || code c == 45))))

abbrev pub all_safe_chars : String → Bool
all_safe_chars String.[] = true
all_safe_chars (String.◌∷◌ c s) = is_safe_char c && all_safe_chars s

-- Whether `safeSegment` returns its argument.
unfoldable pub is_safe_segment : String → Bool
is_safe_segment s =
    not (str_eq s "") && (not (str_eq s ".") && (not (str_eq s "..") && all_safe_chars s))

abbrev pub slash : Char
slash = char 47 tt

abbrev pub no_slash : String → Bool
no_slash String.[] = true
no_slash (String.◌∷◌ c s) = not (code c == 47) && no_slash s

pub all_safe_chars-no_slash : (s : String) → all_safe_chars s ≡ true → no_slash s ≡ true
all_safe_chars-no_slash String.[] h = refl
all_safe_chars-no_slash (String.◌∷◌ c s) h = ground (arith, all_safe_chars-no_slash s)

pub is_safe_segment-no_slash : (s : String) → is_safe_segment s ≡ true → no_slash s ≡ true
unfolding is_safe_segment
is_safe_segment-no_slash s h = all_safe_chars-no_slash s (ground (arith, h))

pub is_safe_segment-filled : (s : String) → is_safe_segment s ≡ true → str_eq s "" ≡ false
unfolding is_safe_segment
is_safe_segment-filled s h = ground (arith, h)

-- A segment without a slash ends at the first one.
pub split_on-append :
    (s t : String)
    → no_slash s ≡ true
    → split_on 47 (append s (String.◌∷◌ slash t)) ≡ (s, (split_on 47 t).0 ∷ (split_on 47 t).1)
unfolding split_on
split_on-append String.[] t h = refl
split_on-append (String.◌∷◌ c s) t h = elim (Bool-cases (code c == 47)) [
  | inl e ↦ cc (rw e at h)
  | inr e ↦ rw (e, split_on-append s t (rw e at h)) refl
]

pub split_on-last : (s : String) → no_slash s ≡ true → split_on 47 s ≡ (s, [])
unfolding split_on
split_on-last String.[] h = refl
split_on-last (String.◌∷◌ c s) h = elim (Bool-cases (code c == 47)) [
  | inl e ↦ cc (rw e at h)
  | inr e ↦ rw (e, split_on-last s (rw e at h)) refl
]

pub append-empty : (s : String) → append s "" ≡ s
append-empty String.[] = refl
append-empty (String.◌∷◌ c s) = ap (String.◌∷◌ c) (append-empty s)
