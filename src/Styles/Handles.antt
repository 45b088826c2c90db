-- ===== src/Styles/Handles.antt =====
-- Handles of styles: `slugifyStyleName`, `normalizeCustomStyleHandle` and `styleHandleCandidate` of
-- packages/database/src/styles/service.ts. `toLowerCase` is an argument. Texts are measured by
-- characters; the handles that are kept are ASCII.
use Prim.Native.Char.{Char, code}
use text.Mathlib.Text.{◌==◌ as str_eq}
use planisfy.Common.{
  ℕ, zero, suc, ◌-◌, ◌≤◌, String, Bool, true, false, not, ◌&&◌, ◌||◌, Option, none, some, ◌≡◌, refl,
  arith, ◌==◌, leb, leb→le, if◌then◌else◌,
}
use planisfy.Common.Text.{trim, string_length, append, string_length-append}
use planisfy.Common.Json.{truncate}
use planisfy.Common.Decimal.{decimal, every_number, every_number-holds}

-- `[a-z0-9]`
abbrev pub is_slug_char : Char → Bool
is_slug_char c = (leb 97 (code c) && leb (code c) 122) || (leb 48 (code c) && leb (code c) 57)

-- `replace(/[^a-z0-9]+/g, "-")`; the first argument says whether a run has begun.
dash_runs : Bool → String → String
dash_runs in_run String.[] = String.[]
dash_runs in_run (String.◌∷◌ c s) =
    let kept = String.◌∷◌ c (dash_runs false s) in
    let skipped = dash_runs true s in
    let dashed = String.◌∷◌ "-" (dash_runs true s) in
    if is_slug_char c then kept else if in_run then skipped else dashed

-- `replace(/^-|-$/g, "")`
drop_leading_dash : String → String
drop_leading_dash String.[] = String.[]
drop_leading_dash (String.◌∷◌ c s) = if code c == 45 then s else String.◌∷◌ c s

drop_trailing_dash : String → String
drop_trailing_dash String.[] = String.[]
drop_trailing_dash (String.◌∷◌ c s) =
    let rest = drop_trailing_dash s in if code c == 45 && str_eq s "" then "" else String.◌∷◌ c rest

-- `STYLE_HANDLE_PATTERN`; the first argument says whether a group begins here.
unfoldable pub is_handle_from : Bool → String → Bool
is_handle_from begins String.[] = not begins
is_handle_from begins (String.◌∷◌ c s) =
    let in_group = is_handle_from false s in
    let next_group = is_handle_from true s in
    if is_slug_char c then in_group else (code c == 45 && (not begins && next_group))

abbrev pub style_handle_max_length : ℕ
style_handle_max_length = 64

abbrev or_untitled : String → String
or_untitled base = if str_eq base "" then "untitled" else base

abbrev pub candidate_suffix : ℕ → String
candidate_suffix attempt = if attempt == 0 then "" else String.◌∷◌ "-" (decimal attempt)

unfoldable pub style_handle_candidate : String → ℕ → String
unfolding decimal truncate
style_handle_candidate base attempt =
    append
      (truncate (style_handle_max_length - string_length (candidate_suffix attempt))
        (or_untitled base))
      (candidate_suffix attempt)

module _ (to_lower_case : String → String) where
  unfoldable pub slugify_style_name : String → String
  unfolding dash_runs drop_leading_dash drop_trailing_dash truncate
  slugify_style_name name =
      truncate 60 (drop_trailing_dash (drop_leading_dash (dash_runs false (to_lower_case name))))

  unfoldable pub normalize_custom_style_handle : String → Option String
  unfolding is_handle_from
  normalize_custom_style_handle handle =
      let normalized = to_lower_case (trim handle) in
      if leb (string_length normalized) style_handle_max_length && is_handle_from true normalized
      then some normalized
      else none

string_length-truncate : (n : ℕ) (s : String) → string_length (truncate n s) ≤ n
unfolding truncate
string_length-truncate zero s = omega arith
string_length-truncate (suc n) String.[] = omega arith
string_length-truncate (suc n) (String.◌∷◌ c s) = omega (arith, string_length-truncate n s)

suffix_table : every_number (λ n. leb (string_length (candidate_suffix n)) 4) 101 ≡ true
unfolding every_number decimal
suffix_table = refl

-- Each of the 101 candidates fits the column, whatever the base is.
pub style_handle_candidate-length :
    (base : String) (attempt : ℕ)
    → attempt ≤ 100
    → string_length (style_handle_candidate base attempt) ≤ 64
unfolding style_handle_candidate
style_handle_candidate-length base attempt h =
    let short = leb→le _ 4 (
      every_number-holds (λ n. leb (string_length (candidate_suffix n)) 4) 101 attempt (omega arith)
        suffix_table) in
    omega (
      arith,
      string_length-append
          (truncate (64 - string_length (candidate_suffix attempt)) (or_untitled base))
          (candidate_suffix attempt),
      string_length-truncate (64 - string_length (candidate_suffix attempt)) (or_untitled base),
    )
