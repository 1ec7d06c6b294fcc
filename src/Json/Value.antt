-- ===== src/Json/Value.antt =====
-- The values of JSON.
use jcode_go.Common.{ℕ, Bool, String}

pub data ℤ : Type 0 where
  pos : ℕ → ℤ
  negsuc : ℕ → ℤ

-- `Fields` keeps the members in the order of the text; a key may come twice.
mutual
  pub data Json : Type 0 where
    null : Json
    boolean : Bool → Json
    number : ℤ → Json
    decimal : String → Json
    text : String → Json
    array : Items → Json
    object : Fields → Json

  pub data Items : Type 0 where
    nil : Items
    cons : Json → Items → Items

  pub data Fields : Type 0 where
    end : Fields
    member : String → Json → Fields → Fields
