-- ===== src/Double.antt =====
-- What the code does with `double`: the arithmetic and the comparisons of the C++ implementation are
-- a parameter, an instance of `Double`; `to_price` and `from_price` of src/core/types.hpp use them.
use orderflow_replay_engine.Prelude.{
  ℕ, ◌/◌, Bool, String, ℤ, pos, negsuc, ◌+ℤ◌, ◌-ℤ◌, ◌*ℤ◌, ltb_ℤ, leb_ℤ, neg_ℤ, abs_ℤ,
}

-- `of_int` is the conversion from `int64_t`, `lit n d` the literal whose value is n / d, and `lowest`
-- is `std::numeric_limits<double>::lowest()`. `to_string` and `int_to_string` are `std::to_string`,
-- and `fixed n` writes a number with `std::fixed` and `std::setprecision(n)`.
pub record Double {ℓ} (W : Type ℓ) : Type ℓ where
  pub of_int : ℤ → W
  pub lit : ℤ → ℕ → W
  pub lowest : W
  pub llround : W → ℤ
  pub sqrt : W → W
  pub neg : W → W
  pub abs : W → W
  pub add : W → W → W
  pub sub : W → W → W
  pub mul : W → W → W
  pub div : W → W → W
  pub lt : W → W → Bool
  pub le : W → W → Bool
  pub to_string : W → String
  pub int_to_string : ℤ → String
  pub fixed : ℕ → W → String

abbrev pub price_scale : ℕ
price_scale = 10000

module _ {ℓ} {W : Type ℓ} ⦃d : Double W⦄ where
  open d use {of_int, lit, llround, mul, div}

  abbrev pub nought : W
  nought = lit (pos 0) 1

  unfoldable pub to_price : W → ℤ
  to_price x = llround (mul x (of_int (pos price_scale)))

  unfoldable pub from_price : ℤ → W
  from_price p = div (of_int p) (of_int (pos price_scale))

-- A concrete instance, by which examples run: a value stands for that many ten-thousandths, and
-- products and quotients are taken of whole multiples of it.
abbrev pub scaled : ℤ → ℕ → ℤ
scaled (pos n) k = pos (n / k)
scaled (negsuc n) k = negsuc (n / k)

abbrev pub divided : ℤ → ℤ → ℤ
divided a (pos n) = scaled (a *ℤ pos 10000) n
divided a (negsuc n) = pos 0 -ℤ scaled (a *ℤ pos 10000) (n)

abbrev pub ticks_double : Double ℤ
ticks_double = record {
  of_int = λ n. n *ℤ pos 10000;
  lit = λ n d. scaled (n *ℤ pos 10000) d;
  lowest = negsuc 9223372036854775807;
  llround = λ x. scaled x 10000;
  sqrt = λ x. x;
  neg = neg_ℤ;
  abs = abs_ℤ;
  add = ◌+ℤ◌;
  sub = ◌-ℤ◌;
  mul = λ x y. scaled (x *ℤ y) 10000;
  div = divided;
  lt = ltb_ℤ;
  le = leb_ℤ;
  to_string = λ x. "";
  int_to_string = λ x. "";
  fixed = λ n x. "";
}
