-- ===== src/Scalar/Fixed.antt =====
-- Signed fixed-point numbers, in millionths: an instance of `FloatOps` that meets `FloatLaws`.
use normeon_german_technical.Prelude.{
  ℕ, suc, ◌+◌, ◌*◌, ◌/◌, ◌-◌, ◌≡◌, Bool, ltb, leb, if◌then◌else◌, arith, not, ◌&&◌,
}
use normeon_german_technical.Scalar.{FloatOps, FloatLaws}

-- `negsuc n` is -(n + 1).
pub data Fixed : Type 0 where
  pos : ℕ → Fixed
  negsuc : ℕ → Fixed

abbrev pos_part : Fixed → ℕ
pos_part (pos n) = n
pos_part (negsuc n) = 0

abbrev neg_part : Fixed → ℕ
neg_part (pos n) = 0
neg_part (negsuc n) = suc n

abbrev sub_ℕ : ℕ → ℕ → Fixed
sub_ℕ a b = if leb b a then pos (a - b) else negsuc (b - a - 1)

abbrev below : Fixed → Fixed → Bool
below a b = ltb (pos_part a + neg_part b) (pos_part b + neg_part a)

abbrev pub fixed : FloatOps Fixed
fixed = record {
  zero = pos 0;
  one = pos 1000000;
  add = λ a b. sub_ℕ (pos_part a + pos_part b) (neg_part a + neg_part b);
  sub = λ a b. sub_ℕ (pos_part a + neg_part b) (neg_part a + pos_part b);
  of_int = λ n. pos (n * 1000000);
  round = λ a digits. a;
  mul = λ a b.
      sub_ℕ ((pos_part a * pos_part b + neg_part a * neg_part b) / 1000000)
        ((pos_part a * neg_part b + neg_part a * pos_part b) / 1000000);
  neg = λ a. sub_ℕ (neg_part a) (pos_part a);
  div_int = λ a n. sub_ℕ (pos_part a / n) (neg_part a / n);
  ratio = λ a n. pos (a * 1000000 / n);
  lt = below;
  eq = λ a b. not (below a b) && not (below b a);
}

below_asymm : (x y : Fixed) → below x y ≡ Bool.true → below y x ≡ Bool.false
below_asymm x y h = ground arith

below_trans :
    (x y z : Fixed) → below y x ≡ Bool.false → below z y ≡ Bool.false → below z x ≡ Bool.false
below_trans x y z h j = ground arith

below-neg : (x y : Fixed) → below (fixed.neg x) (fixed.neg y) ≡ below y x
below-neg x y = ground arith

pub fixed-FloatLaws : FloatLaws fixed
fixed-FloatLaws = record {
  asymm = below_asymm;
  trans = below_trans;
  eq_lem = λ x y. ground arith;
  lt-neg = below-neg;
}
