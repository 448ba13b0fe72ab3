-- ===== src/Values/Datum.antt =====
-- Nested JavaScript values, as trees: no object is shared and none is inside itself.
use sdcorejs_nestjs.Base.{ℕ, Bool, true, false, List, [], ◌∷◌, Text, text_eq, Option, none, some}

-- A number is its bit pattern. `opaque` is a function, a symbol, a big integer or an object of a
-- class; a property with a getter is an accessor, and a property that is not enumerable is left out.
mutual
  pub data Datum : Type 0 where
    undefined null : Datum
    text : Text → Datum
    number : ℕ → Datum
    boolean : Bool → Datum
    opaque : ℕ → Datum
    array : Data → Datum
    object : Fields → Datum

  pub data Data : Type 0 where
    nil : Data
    cons : Datum → Data → Data

  -- The own properties of an object, each key once.
  pub data Fields : Type 0 where
    none_left : Fields
    property : Text → Datum → Fields → Fields
    accessor : Text → Fields → Fields

-- `Object.keys`, accessors included.
abbrev pub keys : Fields → List Text
keys none_left = []
keys (property k d fields) = k ∷ keys fields
keys (accessor k fields) = k ∷ keys fields

-- The value of a plain property.
unfoldable pub field_of : Text → Fields → Option Datum
unfolding text_eq
field_of k none_left = none
field_of k (property j d fields) = elim (text_eq j k) [ true ↦ some d | false ↦ field_of k fields ]
field_of k (accessor j fields) = elim (text_eq j k) [ true ↦ none | false ↦ field_of k fields ]
