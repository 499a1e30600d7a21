-- ===== src/Transfer/Json.antt =====
-- JSON values as `serde_json::Value` holds them, and the lookups that the import uses. An object
-- has each key once, in the order in which its map is iterated.
use tinytop.Prelude.{◌+◌, ◌&&◌, Bool, Option, none, some, List, [], ◌∷◌, if◌then◌else◌, leb}
use tinytop.Prelude.Int.{ℤ, pos_part, neg_part, i64_top}
use tinytop.Prelude.Text.{Text, text_eq}

-- `number` is one that is written with a fraction or an exponent, in code points
mutual
  pub data Json : Type 0 where
    null : Json
    boolean : Bool → Json
    integer : ℤ → Json
    number : Text → Json
    text : Text → Json
    array : Items → Json
    object : Members → Json

  pub data Items : Type 0 where
    no_items : Items
    item : Json → Items → Items

  pub data Members : Type 0 where
    no_members : Members
    member : Text → Json → Members → Members

unfoldable pub get : Members → Text → Option Json
unfolding text_eq
get no_members key = none
get (member k v rest) key = if text_eq k key then some v else get rest key

unfoldable pub keys : Members → List Text
keys no_members = []
keys (member k v rest) = k ∷ keys rest

unfoldable pub as_object : Json → Option Members
as_object (object members) = some members
as_object other = none

-- `Value::get` with a key: nothing in a value that is no object
unfoldable pub get_in : Json → Text → Option Json
unfolding get
get_in (object members) key = get members key
get_in other key = none

unfoldable pub as_i64 : Json → Option ℤ
as_i64 (integer z) =
    if leb (pos_part z) i64_top && leb (neg_part z) (i64_top + 1) then some z else none
as_i64 other = none
