-- ===== src/Base/JsonValues.antt =====
-- The values that `JSON.parse` returns and `JSON.stringify` takes.
use Prim.Native.Nat.{ℕ, ◌*◌}
use mathlib.Core.Bool.{Bool, true, false, ◌&&◌, not}
use bab_takehome.Base.Tests.{ltb, ◌==◌}
use bab_takehome.Base.Texts.{Text}

-- A number as an exact fraction; `infinite` is what a literal out of range becomes.
pub data Number : Type 0 where
  fraction : (negative : Bool) → (numerator : ℕ) → (denominator : ℕ) → Number
  infinite : (negative : Bool) → Number

-- `x < 0`, `x > n` and `x <= n`
abbrev pub is_negative : Number → Bool
is_negative (fraction neg a b) = neg && not (a == 0)
is_negative (infinite neg) = neg

abbrev pub exceeds : ℕ → Number → Bool
exceeds n (fraction neg a b) = not neg && ltb (n * b) a
exceeds n (infinite neg) = not neg

abbrev pub is_finite : Number → Bool
is_finite (fraction neg a b) = true
is_finite (infinite neg) = false

mutual
  pub data Json : Type 0 where
    null : Json
    bool : Bool → Json
    num : Number → Json
    str : Text → Json
    arr : Items → Json
    obj : Fields → Json

  pub data Items : Type 0 where
    nil : Items
    cons : Json → Items → Items

  pub data Fields : Type 0 where
    end : Fields
    field : Text → Json → Fields → Fields
