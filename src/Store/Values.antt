-- ===== src/Store/Values.antt =====
-- JSON values, as audit metadata, event payloads and audit data hold them.
use govibe_core.Prelude.{ℕ, String, Bool, List}

pub data Value : Type 0 where
  null : Value
  flag : Bool → Value
  num : ℕ → Value
  text : String → Value
  nums : List ℕ → Value

abbrev pub Json : Type 0
Json = List (String × Value)
