-- ===== src/Math/Vectors.antt =====
-- The vectors of o3djs/math.js, arrays of any length; `undefined` is what a read outside one gives.
use toolbox.Base.{ℕ, List, length}
use toolbox.Ring.{Numbers, Reals}
use toolbox.Math.Loops.{tabulate, read, accumulate}

module _ (n : Numbers) (undefined : n.Number) where
  open n use {Number, zero, one, add as ◌+◌, sub as ◌-◌, mul as ◌*◌, neg}

  infixl 65 ◌+◌ ◌-◌
  infixl 70 ◌*◌
  abbrev at : List Number → ℕ → Number
  at = read undefined

  unfoldable pub lerp_scalar : Number → Number → Number → Number
  lerp_scalar a b t = (one - t) * a + t * b

  unfoldable pub add_vector : List Number → List Number → List Number
  add_vector a b = tabulate (length a) (λ i. at a i + at b i)

  unfoldable pub sub_vector : List Number → List Number → List Number
  sub_vector a b = tabulate (length a) (λ i. at a i - at b i)

  unfoldable pub lerp_vector : List Number → List Number → Number → List Number
  lerp_vector a b t = tabulate (length a) (λ i. (one - t) * at a i + t * at b i)

  unfoldable pub dot : List Number → List Number → Number
  dot a b = accumulate n zero (length a) (λ i. at a i * at b i)

  unfoldable pub length_squared : List Number → Number
  length_squared a = accumulate n zero (length a) (λ i. at a i * at a i)

  unfoldable pub distance_squared : List Number → List Number → Number
  distance_squared a b = accumulate n zero (length a) (λ i. let t = at a i - at b i in t * t)

  unfoldable pub negative_vector : List Number → List Number
  negative_vector v = tabulate (length v) (λ i. neg (at v i))

  unfoldable pub copy_vector : List Number → List Number
  copy_vector v = tabulate (length v) (at v)

  unfoldable pub mul_scalar_vector : Number → List Number → List Number
  mul_scalar_vector k v = tabulate (length v) (λ i. k * at v i)

  unfoldable pub mul_vector_scalar : List Number → Number → List Number
  mul_vector_scalar v k = mul_scalar_vector k v

  unfoldable pub mul_vector_vector : List Number → List Number → List Number
  mul_vector_vector a b = tabulate (length a) (λ i. at a i * at b i)

module _ (f : Reals) (undefined : f.numbers.Number) where
  open f use {numbers, div as ◌/◌}
  open numbers use {Number}

  infixl 70 ◌/◌
  unfoldable pub distance : List Number → List Number → Number
  distance a b = f.sqrt (distance_squared numbers undefined a b)

  unfoldable pub div_vector_scalar : List Number → Number → List Number
  div_vector_scalar v k = tabulate (length v) (λ i. read undefined v i / k)

  unfoldable pub div_vector_vector : List Number → List Number → List Number
  div_vector_vector a b = tabulate (length a) (λ i. read undefined a i / read undefined b i)
