-- ===== src/Utils/ByteStream/Words.antt =====
-- Little-endian words.
use gtproxy.Prelude.{ℕ, zero, suc, ◌*◌, ◌/◌, ◌^◌, ◌<◌, ◌≡◌, refl, ap, arith, length}
use gtproxy.Utils.ByteStream.{to_le, of_le}
use native.Mathlib.Nat.{pow-suc}

pub length-to_le : (w v : ℕ) → length (to_le w v) ≡ w
unfolding to_le
length-to_le zero v = refl
length-to_le (suc w) v = ap suc (length-to_le w (v / 256))

pow_step : (w : ℕ) → 256 ^ suc w ≡ 256 * 256 ^ w
pow_step w = omega (arith, pow-suc 256 w)

quotient_lt : (w v : ℕ) → v < 256 ^ suc w → v / 256 < 256 ^ w
quotient_lt w v h = omega (arith, pow_step w)

pub of_le-to_le : (w v : ℕ) → v < 256 ^ w → of_le (to_le w v) ≡ v
unfolding of_le to_le
of_le-to_le zero v h = omega arith
of_le-to_le (suc w) v h = omega (arith, of_le-to_le w (v / 256) (quotient_lt w v h))

-- The bytes of a word are all that a reader sees: the bits above them are lost.
of_le-to_le_mod : (w v : ℕ) → of_le (to_le w v) < 256 ^ w
unfolding of_le to_le
of_le-to_le_mod zero v = omega arith
of_le-to_le_mod (suc w) v = omega (arith, of_le-to_le_mod w (v / 256), pow_step w)
