-- ===== src/Examples/Numbers.antt =====
-- A platform whose numbers are known as far as this: 0, another number, or NaN. A matrix is
-- spoiled once a NaN has entered it, and a spoiled matrix is singular.
use fhmuenster.Base.{
  ap, ◌<◌, ℕ, zero, suc, ◌≡◌, refl, arith, Bool, true, false, ◌&&◌, if◌then◌else◌, Option, none,
  some,
}
use fhmuenster.Platform.{Platform, Vec3}
use fhmuenster.Scenegraph.Motions.{Motions}
use fhmuenster.Main.Frame.Spoiled.{Spoils}

pub data Value : Type 0 where
  nought other undefined : Value

abbrev whole : ℕ → Value
whole zero = nought
whole (suc n) = other

abbrev is_nought : Value → Bool
is_nought nought = true
is_nought _ = false

abbrev is_number : Value → Bool
is_number undefined = false
is_number _ = true

abbrev sum : Value → Value → Value
sum nought b = b
sum other undefined = undefined
sum other _ = other
sum undefined b = undefined

abbrev times : Value → Value → Value
times undefined b = undefined
times a undefined = undefined
times nought b = nought
times a nought = nought
times other other = other

abbrev over : Value → Value → Value
over a other = a
over a _ = undefined

abbrev vec : Value → Value → Value → Vec3 Value
vec a b c = record { x = a; y = b; z = c }

abbrev sum3 : Vec3 Value → Vec3 Value → Vec3 Value
sum3 u v = vec (sum u.x v.x) (sum u.y v.y) (sum u.z v.z)

abbrev regular : Bool → Option Bool
regular m = if m then some m else none

-- A matrix is `true` as long as no NaN has entered it.
abbrev pub numeric : Platform
numeric = record {
  R = Value;
  of_ℕ = whole;
  decimal = λ m k. whole m;
  fround = λ a. a;
  is_zero = is_nought;
  add = sum;
  sub = sum;
  mul = times;
  div = over;
  rem = over;
  neg = λ a. a;
  sin = λ a. a;
  cos = λ a. a;
  pi = other;
  nan = undefined;
  Mat4 = Bool;
  Mat3 = Bool;
  create = true;
  multiply = λ m n. m && n;
  translate = λ m v. m && (is_number v.x && (is_number v.y && is_number v.z));
  rotate_x = λ m a. m && is_number a;
  rotate_y = λ m a. m && is_number a;
  rotate_z = λ m a. m && is_number a;
  perspective = λ a b c d. true;
  invert = regular;
  normal_from_mat4 = regular;
  transform = λ m v. v;
  vec4 = λ a b c d. record { x = a; y = b; z = c; w = d };
  vec3 = vec;
  subtract3 = sum3;
  cross3 = sum3;
  inner_width = other;
  inner_height = other;
  links = true;
}

abbrev IsNumber : Value → Type 0
IsNumber undefined = ⊥
IsNumber _ = Unit

abbrev IsOther : Value → Type 0
IsOther other = Unit
IsOther _ = ⊥

abbrev IsTrue : Bool → Type 0
IsTrue true = Unit
IsTrue false = ⊥

pub both : (a b : Bool) → IsTrue a → IsTrue b → IsTrue (a && b)
both true true h k = tt
both true false h k = k
both false b h k = h

pub number_true : (a : Value) → IsNumber a → IsTrue (is_number a)
number_true nought h = tt
number_true other h = tt
number_true undefined h = h

pub whole-IsNumber : (n : ℕ) → IsNumber (whole n)
whole-IsNumber zero = tt
whole-IsNumber (suc n) = tt

pub whole-IsOther : (n : ℕ) → 0 < n → IsOther (whole n)
whole-IsOther zero h = absurd (omega arith)
whole-IsOther (suc n) h = tt

pub sum-IsNumber : (a b : Value) → IsNumber a → IsNumber b → IsNumber (sum a b)
sum-IsNumber nought b h k = k
sum-IsNumber other nought h k = tt
sum-IsNumber other other h k = tt
sum-IsNumber other undefined h k = k
sum-IsNumber undefined b h k = h

pub times-IsNumber : (a b : Value) → IsNumber a → IsNumber b → IsNumber (times a b)
times-IsNumber nought nought h k = tt
times-IsNumber nought other h k = tt
times-IsNumber nought undefined h k = k
times-IsNumber other nought h k = tt
times-IsNumber other other h k = tt
times-IsNumber other undefined h k = k
times-IsNumber undefined b h k = h

pub over-IsNumber : (a b : Value) → IsNumber a → IsNumber b → IsOther b → IsNumber (over a b)
over-IsNumber a nought h k l = absurd l
over-IsNumber a other h k l = h
over-IsNumber a undefined h k l = absurd l

pub tested-IsOther : (a : Value) → IsNumber a → is_nought a ≡ false → IsOther a
tested-IsOther nought h e = cc
tested-IsOther other h e = tt
tested-IsOther undefined h e = absurd h

pub regular_some : (m : Bool) → IsTrue m → regular m ≡ none → ⊥
regular_some true h e = cc
regular_some false h e = h

abbrev pub numeric-Motions : Motions numeric
numeric-Motions = record {
  IsNumber = IsNumber;
  IsNonZero = IsOther;
  of_ℕ_number = whole-IsNumber;
  decimal_number = λ m k. whole-IsNumber m;
  pi_number = tt;
  neg_number = λ a h. h;
  sub_number = sum-IsNumber;
  mul_number = times-IsNumber;
  div_number = over-IsNumber;
  of_ℕ_non_zero = whole-IsOther;
  decimal_non_zero = λ m k h. whole-IsOther m h;
  tested_non_zero = tested-IsOther;
  IsMotion = IsTrue;
  create_motion = tt;
  multiply_motion = both;
  translate_motion = λ m a b c h i j k.
      both _ _ h (both _ _ (number_true a i) (both _ _ (number_true b j) (number_true c k)));
  rotate_x_motion = λ m a h k. both _ _ h (number_true a k);
  rotate_y_motion = λ m a h k. both _ _ h (number_true a k);
  rotate_z_motion = λ m a h k. both _ _ h (number_true a k);
  Failure = ⊥;
  no_normal = regular_some;
  no_inverse = regular_some;
}

abbrev pub numeric-Spoils : Spoils numeric
numeric-Spoils = record {
  IsSpoiled = λ m. m ≡ false;
  rotate_nan = spoiled_by_nan;
  translate_spoiled = λ m a b c. stays m _;
  rotate_x_spoiled = λ m a. stays m (is_number a);
  rotate_y_spoiled = λ m a. stays m (is_number a);
  rotate_z_spoiled = λ m a. stays m (is_number a);
  spoiled_singular = λ m h. ap regular h;
}
  where
    spoiled_by_nan : (m : Bool) → (m && false) ≡ false
    spoiled_by_nan true = refl
    spoiled_by_nan false = refl

    stays : (m b : Bool) → m ≡ false → (m && b) ≡ false
    stays m b h = ap (λ a. a && b) h
