-- ===== src/Value.antt =====
-- Values that cross the program's borders undecoded: Go's `float64`, and `any`, which holds what
-- encoding/json decodes (apps/api/internal/scenario/schema.go) or the metadata of an event.
use wreckr.Prelude.{ℕ, String, Bool, List, ℤ}

-- A float64 is its 64 bits. The program's float arithmetic takes the operations as a parameter.
pub record Float64 : Type 0 where
  pub bits : ℕ

-- What json.Unmarshal stores in an `any`.
mutual
  pub data Json : Type 0 where
    null : Json
    bool : Bool → Json
    num : Float64 → Json
    text : String → Json
    arr : Items → Json
    obj : Fields → Json

  pub data Items : Type 0 where
    nil : Items
    cons : Json → Items → Items

  pub data Fields : Type 0 where
    end : Fields
    field : String → Json → Fields → Fields

-- A value of an event's metadata, a `map[string]any` that the program writes itself.
pub data Meta : Type 0 where
  text : String → Meta
  int : ℤ → Meta
  float : Float64 → Meta
  flag : Bool → Meta
  texts : List String → Meta
  ints : List ℤ → Meta
