-- ===== src/Common/Partial.antt =====
-- Code that may panic: `none` is a panic, such as an index out of range. (The `do` blocks of a file
-- are of this monad or of `Result`, by the `>>=` that it brings in.)

use mathlib.Core.Option.{Option, none, some}
use mathlib.Core.List.{List}
use Prim.Native.Nat.{ℕ, ◌+◌}
use lab_inventory.Common.Tests.{leb, if◌then◌else◌}
use lab_inventory.Common.Lists.{length, take, drop}

infixl 5 ◌>>=◌
abbrev pub ◌>>=◌ {ℓ κ} : {A : Type ℓ} {B : Type κ} → Option A → (A → Option B) → Option B
none >>= f = none
some a >>= f = f a

-- `&xs[start..start + len]`
abbrev pub slice {ℓ} : {A : Type ℓ} → List A → ℕ → ℕ → Option (List A)
slice xs start len = if leb (start + len) (length xs) then some (take len (drop start xs)) else none
