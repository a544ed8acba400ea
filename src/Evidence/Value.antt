-- ===== src/Evidence/Value.antt =====
-- The values that the evidence package handles (`any` in Go): what canon.go and tree.go tell apart.
use compliance_gateway.Common.{
  ℕ, Bool, true, false, Option, none, some, List, if◌then◌else◌, List, [], ◌∷◌,
}
use compliance_gateway.Text.{Text, text_eq, codes}

mutual
  pub data Value : Type 0 where
    null : Value
    boolean : Bool → Value
    number : Text → Value  -- json.Number
    int : ℕ → Value  -- int, int64 and uint64; the program has none below 0
    text : Text → Value
    array : Items → Value
    strings : List Text → Value  -- []string
    object : Fields → Value
    unsupported : Value  -- any other Go type

  pub data Items : Type 0 where
    nil : Items
    cons : Value → Items → Items

  -- A map holds each key once. The order of the fields stands for the order of a `range`.
  pub data Fields : Type 0 where
    end : Fields
    field : Text → Value → Fields → Fields

-- m[k]
unfoldable pub get : Text → Fields → Option Value
get k end = none
get k (field j v fs) = let rest = get k fs in if text_eq j k then some v else rest

-- m[k] = v
unfoldable pub set : Text → Value → Fields → Fields
set k v end = field k v end
set k v (field j w fs) =
    let rest = set k v fs in if text_eq j k then field j v fs else field j w rest

-- The type assertion `v.(string)`.
abbrev pub as_text : Value → Option Text
as_text (text s) = some s
as_text _ = none

-- `isWithheld` of a map: its one entry is "$withheld" with a text.
unfoldable pub withheld : Fields → Option Text
withheld end = none
withheld (field k v end) = if text_eq k (codes "$withheld") then as_text v else none
withheld (field k v (field l w fs)) = none

abbrev pub is_end : Fields → Bool
is_end end = true
is_end (field k v fs) = false

abbrev pub is_nil : Items → Bool
is_nil nil = true
is_nil (cons v vs) = false

-- A map literal.
abbrev pub fields_of : List (Text × Value) → Fields
fields_of [] = end
fields_of ((k, v) ∷ kvs) = field k v (fields_of kvs)

-- A list of texts as []any.
abbrev pub texts : List Text → Items
texts [] = nil
texts (s ∷ ss) = cons (text s) (texts ss)
