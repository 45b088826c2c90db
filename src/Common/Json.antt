-- ===== src/Common/Json.antt =====
-- Parsed JSON, as the code reads it: jsonb columns, stored payloads and request bodies. Numbers are
-- natural: no modelled code computes with a JSON number.
use Prim.Native.Nat.{ℕ, zero, suc}
use Prim.Native.String.{String}
use mathlib.Core.Bool.{Bool}
use mathlib.Core.Option.{Option, none, some}
use mathlib.Core.List.{List, [], ◌∷◌}
use text.Mathlib.Text.{◌==◌ as str_eq}
use planisfy.Common.Tests.{if◌then◌else◌}

mutual
  pub data Json : Type 0 where
    null : Json
    boolean : Bool → Json
    number : ℕ → Json
    str : String → Json
    array : Items → Json
    object : Fields → Json

  pub data Items : Type 0 where
    nil : Items
    cons : Json → Items → Items

  pub data Fields : Type 0 where
    end : Fields
    field : String → Json → Fields → Fields

-- `record[key]`, where `none` is undefined
unfoldable pub get_field : String → Fields → Option Json
get_field k end = none
get_field k (field j v rest) = if str_eq k j then some v else get_field k rest

-- `message.slice(0, n)`, by characters
unfoldable pub truncate : ℕ → String → String
truncate zero s = String.[]
truncate (suc n) String.[] = String.[]
truncate (suc n) (String.◌∷◌ c s) = String.◌∷◌ c (truncate n s)

-- `object[key]` for an object that the source writes out, where `none` is undefined
abbrev pub own_property {ℓ} : {A : Type ℓ} → String → List (String × A) → Option A
own_property k [] = none
own_property k ((j, a) ∷ rest) =
    let other = own_property k rest in if str_eq k j then some a else other
