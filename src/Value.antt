-- ===== src/Value.antt =====
-- Go's `any`, as far as the program looks into it: what encoding/json makes of a document, and the
-- numeric types. `F` is the type of float64 values; a float32 is given by the float64 of its value.
use manisa_app.Prelude.{ℕ, ℤ, String, Bool, List}

mutual
  pub data Value (F : Type 0) : Type 0 where
    nil : Value F
    bool : Bool → Value F
    str : String → Value F
    float64 float32 : F → Value F
    int int8 int16 int32 int64 : ℤ → Value F
    uint uint8 uint16 uint32 uint64 : ℕ → Value F
    -- json.Number, by its text
    number : String → Value F
    list : Values F → Value F
    object : Entries F → Value F

  pub data Values (F : Type 0) : Type 0 where
    end : Values F
    item : Value F → Values F → Values F

  pub data Entries (F : Type 0) : Type 0 where
    done : Entries F
    entry : String → Value F → Entries F → Entries F

-- map[string]any
abbrev pub Params : Type 0 → Type 0
Params F = List (String × Value F)
