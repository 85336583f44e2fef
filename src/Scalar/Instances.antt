-- ===== src/Scalar/Instances.antt =====
-- A type of values that meets the laws: one bit, with `xor` and `and`, false below true. (It stands for
-- a field: the only value other than 0 is 1.)
use fbutils.Prelude.{Bool, true, false, not, ◌&&◌, ◌||◌, arith}
use fbutils.Scalar.{Scalar, IsOrdered, IsRing}
use fbutils.Scalar.Trig.{Trig, IsCircular}

abbrev pub bit_add : Bool → Bool → Bool
bit_add false b = b
bit_add true b = not b

instance abbrev pub bit_scalar : Scalar Bool
bit_scalar = record {
  nought = false;
  unit = true;
  add = bit_add;
  sub = bit_add;
  mul = ◌&&◌;
  div = λ a b. a;
  neg = λ a. a;
  lt = λ a b. not a && b;
  le = λ a b. not a || b;
  same = λ a b. not (bit_add a b);
}

pub bit-IsOrdered : IsOrdered Bool
bit-IsOrdered = ground arith

pub bit-IsRing : IsRing Bool
bit-IsRing = ground arith

-- Two angles: a quarter turn swaps sine and cosine.
instance abbrev pub bit_trig : Trig Bool
bit_trig = record {
  sin = λ a. a;
  cos = not;
  asin = λ a. a;
  acos = not;
  abs = λ a. a;
  atan2 = λ y x. y;
  hypot = ◌||◌;
  copysign = λ a b. a;
  sqrt = λ a. a;
}

pub bit-IsCircular : IsCircular Bool
bit-IsCircular = ground arith
