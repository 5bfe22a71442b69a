-- ===== src/Ring.antt =====
-- The numbers of o3djs/math.js, o3djs/quaternions.js and o3d-webgl/transform.js, taken as exact, and
-- the functions of Math that the code calls on them.
pub mod Expressions
pub mod Solver
pub mod Integers
pub mod Residues
use toolbox.Base.{◌≡◌}

pub record Numbers : Type 1 where
  pub Number : Type 0
  pub zero : Number
  pub one : Number
  pub add : Number → Number → Number
  pub sub : Number → Number → Number
  pub mul : Number → Number → Number
  pub neg : Number → Number

pub record IsRing (n : Numbers) : Type 0 where
  pub add_assoc : (a b c : n.Number) → n.add (n.add a b) c ≡ n.add a (n.add b c)
  pub add_comm : (a b : n.Number) → n.add a b ≡ n.add b a
  pub zero-add : (a : n.Number) → n.add n.zero a ≡ a
  pub add-neg : (a : n.Number) → n.add a (n.neg a) ≡ n.zero
  pub sub_neg : (a b : n.Number) → n.sub a b ≡ n.add a (n.neg b)
  pub mul_assoc : (a b c : n.Number) → n.mul (n.mul a b) c ≡ n.mul a (n.mul b c)
  pub mul_comm : (a b : n.Number) → n.mul a b ≡ n.mul b a
  pub one-mul : (a : n.Number) → n.mul n.one a ≡ a
  pub mul-add : (a b c : n.Number) → n.mul a (n.add b c) ≡ n.add (n.mul a b) (n.mul a c)

pub record Reals : Type 1 where
  pub numbers : Numbers
  pub div : numbers.Number → numbers.Number → numbers.Number
  pub sqrt : numbers.Number → numbers.Number
  pub sin : numbers.Number → numbers.Number
  pub cos : numbers.Number → numbers.Number
  pub tan : numbers.Number → numbers.Number
  pub pi : numbers.Number

-- A quotient is the product by the reciprocal.
abbrev pub DivIsMul : Reals → Type 0
DivIsMul f = (a b : f.numbers.Number) → f.div a b ≡ f.numbers.mul a (f.div f.numbers.one b)
