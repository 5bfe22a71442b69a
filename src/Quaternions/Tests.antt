-- ===== src/Quaternions/Tests.antt =====
-- The code of o3djs/quaternions.js run on integers and on numbers modulo 7.
use toolbox.Base.{◌≡◌, refl, Bool, none, some, ltb}
use toolbox.Base.Int.{ℤ, pos, negsuc, ◌+ℤ◌, ◌-ℤ◌, ◌*ℤ◌}
use toolbox.Ring.Integers.{integers, integers-IsRing, turns, turns-DivIsMul}
use toolbox.Ring.Residues.{
  residues, residues-IsRing, modular, modular-DivIsMul, Residue, r0, r2, digit,
}
use toolbox.Math.{Array4, array4}
use toolbox.Math.Compose.{composition}
use toolbox.Math.Points.{get_upper3x3}
use toolbox.Quaternions.{
  mul_quaternion_quaternion, add_quaternion_quaternion, sub_quaternion_quaternion, length_squared,
  conjugate, inverse, div_quaternion_quaternion, div_scalar_quaternion, mul_scalar_quaternion,
  quaternion_to_rotation,
}
use toolbox.Quaternions.Dispatch.{scalar, quaternion, embed, mul, div, add, sub, operations-embed}
use toolbox.Quaternions.Conversion.{rotation_to_quaternion}
use toolbox.Quaternions.Algebra.{mul_quaternion_quaternion-laws, inverse-laws}
use toolbox.Quaternions.Turning.{quaternion_to_rotation-mul}
use toolbox.Quaternions.RoundTrip.{rotation_to_quaternion-restores}

abbrev i_unit : Array4 ℤ
i_unit = array4 (pos 1) (pos 0) (pos 0) (pos 0)

abbrev j_unit : Array4 ℤ
j_unit = array4 (pos 0) (pos 1) (pos 0) (pos 0)

abbrev k_unit : Array4 ℤ
k_unit = array4 (pos 0) (pos 0) (pos 1) (pos 0)

abbrev mixed : Array4 ℤ
mixed = array4 (pos 1) (pos 2) (negsuc 2) (pos 4)

-- A quarter turn about the x axis, in numbers modulo 7.
abbrev quarter_turn : Array4 Residue
quarter_turn = array4 r2 r0 r0 r2

-- The last entry is the scalar part: i times j is k.
units_test : mul_quaternion_quaternion integers i_unit j_unit ≡ k_unit
unfolding mul_quaternion_quaternion ◌+ℤ◌ ◌-ℤ◌ ◌*ℤ◌
units_test = refl

mul_quaternion_quaternion-laws_example :
    let times = mul_quaternion_quaternion integers in
    (times (times i_unit mixed) k_unit ≡ times i_unit (times mixed k_unit))
    × (length_squared integers (times i_unit mixed)
        ≡ integers.mul (length_squared integers i_unit) (length_squared integers mixed))
    × (conjugate integers (times i_unit mixed)
        ≡ times (conjugate integers mixed) (conjugate integers i_unit))
    × (times i_unit (conjugate integers i_unit)
        ≡ array4 (pos 0) (pos 0) (pos 0) (length_squared integers i_unit))
mul_quaternion_quaternion-laws_example =
    mul_quaternion_quaternion-laws integers integers-IsRing i_unit mixed k_unit

inverse-laws_example :
    (mul_quaternion_quaternion integers j_unit (inverse turns j_unit)
      ≡ array4 (pos 0) (pos 0) (pos 0) (pos 1))
    × (mul_quaternion_quaternion integers (inverse turns j_unit) j_unit
        ≡ array4 (pos 0) (pos 0) (pos 0) (pos 1))
    × (mul_quaternion_quaternion integers (div_quaternion_quaternion turns mixed j_unit) j_unit
        ≡ mixed)
    × (div_quaternion_quaternion turns mixed j_unit
        ≡ mul_quaternion_quaternion integers mixed (inverse turns j_unit))
    × (div_scalar_quaternion turns (pos 3) j_unit
        ≡ mul_scalar_quaternion integers (pos 3) (inverse turns j_unit))
unfolding length_squared ◌+ℤ◌ ◌-ℤ◌ ◌*ℤ◌
inverse-laws_example = inverse-laws turns integers-IsRing mixed j_unit (pos 3) refl

operations-embed_example :
    (mul turns (scalar (pos 3)) (quaternion mixed)
      ≡ some (mul_quaternion_quaternion integers (embed turns (scalar (pos 3))) mixed))
    × (mul turns (quaternion mixed) (scalar (pos 3))
        ≡ some (mul_quaternion_quaternion integers mixed (embed turns (scalar (pos 3)))))
    × (add turns (scalar (pos 3)) (quaternion mixed)
        ≡ some (add_quaternion_quaternion integers (embed turns (scalar (pos 3))) mixed))
    × (add turns (quaternion mixed) (scalar (pos 3))
        ≡ some (add_quaternion_quaternion integers mixed (embed turns (scalar (pos 3)))))
    × (sub turns (scalar (pos 3)) (quaternion mixed)
        ≡ some (sub_quaternion_quaternion integers (embed turns (scalar (pos 3))) mixed))
    × (sub turns (quaternion mixed) (scalar (pos 3))
        ≡ some (sub_quaternion_quaternion integers mixed (embed turns (scalar (pos 3)))))
    × (mul turns (scalar (pos 3)) (scalar (pos 4)) ≡ none)
    × (div turns (scalar (pos 3)) (scalar (pos 4)) ≡ none)
    × (add turns (scalar (pos 3)) (scalar (pos 4)) ≡ none)
    × (sub turns (scalar (pos 3)) (scalar (pos 4)) ≡ none)
operations-embed_example =
    operations-embed turns integers-IsRing (scalar (pos 3)) mixed (pos 3) (pos 4)

quaternion_to_rotation-mul_example :
    quaternion_to_rotation turns (mul_quaternion_quaternion integers i_unit k_unit)
    ≡ composition integers
        (quaternion_to_rotation turns i_unit)
        (quaternion_to_rotation turns k_unit)
unfolding length_squared ◌+ℤ◌ ◌-ℤ◌ ◌*ℤ◌
quaternion_to_rotation-mul_example =
    quaternion_to_rotation-mul turns integers-IsRing turns-DivIsMul i_unit k_unit refl refl refl

abbrev greater : Residue → Residue → Bool
greater a b = ltb (digit b) (digit a)

rotation_to_quaternion-restores_example :
    rotation_to_quaternion modular greater
      (get_upper3x3 residues (quaternion_to_rotation modular quarter_turn))
    ≡ quarter_turn
unfolding length_squared quaternion_to_rotation get_upper3x3
rotation_to_quaternion-restores_example =
    rotation_to_quaternion-restores modular residues-IsRing modular-DivIsMul greater quarter_turn
      refl refl refl (refl, refl)
