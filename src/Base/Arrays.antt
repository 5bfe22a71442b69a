-- ===== src/Base/Arrays.antt =====
-- `o3d.removeFromArray` of o3d-webgl/base.js, on arrays of object ids.
use toolbox.Base.Tests.{◌==◌, if◌then◌else◌}
use Prim.Native.Nat.{ℕ, ◌+◌, ◌-◌}
use mathlib.Core.Path.{◌≡◌}
use mathlib.Core.List.{List, [], ◌∷◌, ◌++◌}
use native.Mathlib.Omega.{arith}

-- `indexOf` and `splice`: the first occurrence goes.
unfoldable pub remove_from_array : List ℕ → ℕ → List ℕ
remove_from_array [] x = []
remove_from_array (y ∷ ys) x = if y == x then ys else y ∷ remove_from_array ys x

-- How often an id is there.
abbrev pub count : ℕ → List ℕ → ℕ
count x [] = 0
count x (y ∷ ys) = (if y == x then 1 else 0) + count x ys

pub count-append : (x : ℕ) (xs ys : List ℕ) → count x (xs ++ ys) ≡ count x xs + count x ys
count-append x [] ys = omega arith
count-append x (y ∷ xs) ys = omega (arith, count-append x xs ys)

-- One occurrence less of what is removed, and all else as it was.
pub count-remove_from_array :
    (x y : ℕ) (xs : List ℕ)
    → count y (remove_from_array xs x) ≡ (if x == y then count y xs - 1 else count y xs)
unfolding remove_from_array
count-remove_from_array x y [] = ground arith
count-remove_from_array x y (z ∷ zs) = ground (arith, count-remove_from_array x y zs)
