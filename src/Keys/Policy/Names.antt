-- ===== src/Keys/Policy/Names.antt =====
-- The texts that the metadata and the permissions of an API key name, described without the code's
-- tests: `permissionsToScopes` and `metadataAllowedDomains` of apps/api/src/domains/keys/api-key.ts.
use planisfy.Common.{String, Option, none, some, List, [], ◌∷◌, ◌≡◌, ◌≢◌, refl, sym, ap, ◌∙◌}
use planisfy.Common.Json.{
  Json, null, boolean, number, str, array, object, Items, nil, cons, Fields, get_field,
}
use planisfy.Keys.Policy.{strings, strings_of, strings_at}

-- The texts of an array in their order; what is no text is left out.
pub data Texts : Items → List String → Type 0 where
  no_texts : Texts nil []
  a_text :
      (s : String) (rest : Items) (ss : List String)
      → Texts rest ss
      → Texts (cons (str s) rest) (s ∷ ss)
  no_text :
      (v : Json) (rest : Items) (ss : List String)
      → ((s : String) → v ≢ str s)
      → Texts rest ss
      → Texts (cons v rest) ss

-- The texts that a value names under a key: those of the array that the object has there, or none.
pub data Names (key : String) (v : Json) : List String → Type 0 where
  listed :
      (fields : Fields) (items : Items) (ss : List String)
      → v ≡ object fields
      → get_field key fields ≡ some (array items)
      → Texts items ss
      → Names key v ss
  unlisted :
      ((fields : Fields) (items : Items)
        → v ≡ object fields
        → get_field key fields ≢ some (array items))
      → Names key v []

strings-Texts : (items : Items) → Texts items (strings items)
strings-Texts nil = no_texts
strings-Texts (cons (str s) rest) = a_text s rest (strings rest) (strings-Texts rest)
strings-Texts (cons null rest) = no_text null rest _ (λ s e. cc) (strings-Texts rest)
strings-Texts (cons (boolean b) rest) = no_text (boolean b) rest _ (λ s e. cc) (strings-Texts rest)
strings-Texts (cons (number n) rest) = no_text (number n) rest _ (λ s e. cc) (strings-Texts rest)
strings-Texts (cons (array a) rest) = no_text (array a) rest _ (λ s e. cc) (strings-Texts rest)
strings-Texts (cons (object o) rest) = no_text (object o) rest _ (λ s e. cc) (strings-Texts rest)

skip_one :
    (v : Json) (rest : Items) → ((s : String) → v ≢ str s) → strings (cons v rest) ≡ strings rest
skip_one (str s) rest n = absurd (n s refl)
skip_one null rest n = refl
skip_one (boolean b) rest n = refl
skip_one (number m) rest n = refl
skip_one (array a) rest n = refl
skip_one (object o) rest n = refl

Texts-strings : (items : Items) (ss : List String) → Texts items ss → strings items ≡ ss
Texts-strings _ _ no_texts = refl
Texts-strings _ _ (a_text s rest ss k) = ap (λ l. s ∷ l) (Texts-strings rest ss k)
Texts-strings _ _ (no_text v rest ss n k) = skip_one v rest n ∙ Texts-strings rest ss k

no_array :
    (key : String) (fields : Fields) (w : Option Json)
    → get_field key fields ≡ w
    → ((items : Items) → w ≢ some (array items))
    → (fields' : Fields) (items : Items) → object fields ≡ object fields'
    → get_field key fields' ≢ some (array items)
no_array key fields w e n fields' items same f =
    let there : fields ≡ fields' = cc same in n items (sym e ∙ ap (get_field key) there ∙ f)

strings_of-Names :
    (key : String) (fields : Fields) (w : Option Json)
    → get_field key fields ≡ w
    → Names key (object fields) (strings_of w)
strings_of-Names key fields (some (array items)) e =
    listed fields items (strings items) refl e (strings-Texts items)
strings_of-Names key fields none e = unlisted (no_array key fields none e (λ items f. cc))
strings_of-Names key fields (some null) e = unlisted (no_array key fields _ e (λ items f. cc))
strings_of-Names key fields (some (boolean b)) e =
    unlisted (no_array key fields _ e (λ items f. cc))
strings_of-Names key fields (some (number n)) e = unlisted (no_array key fields _ e (λ items f. cc))
strings_of-Names key fields (some (str s)) e = unlisted (no_array key fields _ e (λ items f. cc))
strings_of-Names key fields (some (object o)) e = unlisted (no_array key fields _ e (λ items f. cc))

pub strings_at-Names : (key : String) (v : Json) → Names key v (strings_at key v)
strings_at-Names key (object fields) = strings_of-Names key fields (get_field key fields) refl
strings_at-Names key null = unlisted (λ fields items e f. cc)
strings_at-Names key (boolean b) = unlisted (λ fields items e f. cc)
strings_at-Names key (number n) = unlisted (λ fields items e f. cc)
strings_at-Names key (str s) = unlisted (λ fields items e f. cc)
strings_at-Names key (array a) = unlisted (λ fields items e f. cc)

unlisted_field : (w : Option Json) → ((items : Items) → w ≢ some (array items)) → strings_of w ≡ []
unlisted_field (some (array items)) n = absurd (n items refl)
unlisted_field none n = refl
unlisted_field (some null) n = refl
unlisted_field (some (boolean b)) n = refl
unlisted_field (some (number m)) n = refl
unlisted_field (some (str s)) n = refl
unlisted_field (some (object o)) n = refl

unlisted_value :
    (key : String) (v : Json)
    → ((fields : Fields) (items : Items)
        → v ≡ object fields
        → get_field key fields ≢ some (array items))
    → strings_at key v ≡ []
unlisted_value key (object fields) n =
    unlisted_field (get_field key fields) (λ items. n fields items refl)
unlisted_value key null n = refl
unlisted_value key (boolean b) n = refl
unlisted_value key (number m) n = refl
unlisted_value key (str s) n = refl
unlisted_value key (array a) n = refl

pub Names-strings_at :
    (key : String) (v : Json) (ss : List String) → Names key v ss → strings_at key v ≡ ss
Names-strings_at key v _ (listed fields items ss e f k) =
    ap (strings_at key) e ∙ ap strings_of f ∙ Texts-strings items ss k
Names-strings_at key v _ (unlisted n) = unlisted_value key v n
