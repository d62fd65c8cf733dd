-- ===== src/Trpc/Ints.antt =====
-- `_pack_int` and `_unpack_int` of src/tekmar_482/trpc.py: little-endian unsigned integers of a
-- fixed size, over the values at least 0.
use native.Mathlib.Numerals.{towards_suc}
use native.Mathlib.Nat.{mod-lt, mod-eq_of_lt}
use tekmar.Prelude.{
  ℕ, zero, suc, ◌+◌, ◌*◌, ◌/◌, ◌%◌, ◌^◌, ◌<◌, ◌≡◌, refl, ap, [], ◌∷◌, Bytes, AreBytes, length,
  arith,
}

-- `int.to_bytes_le(size, "little")` of a value that fits.
to_bytes_le : ℕ → ℕ → Bytes
to_bytes_le value zero = []
to_bytes_le value (suc size) = (value % 256) ∷ to_bytes_le (value / 256) size

-- The mask `(1 << (size * 8)) - 1` keeps the remainder by `2 ^ (size * 8)`.
unfoldable pub pack_int : ℕ → ℕ → Bytes
unfolding to_bytes_le
pack_int value size = to_bytes_le (value % 2 ^ (size * 8)) size

-- `int.from_bytes(data, "little")`.
unfoldable pub unpack_int : Bytes → ℕ
unpack_int [] = 0
unpack_int (b ∷ bs) = b + 256 * unpack_int bs

pow_bytes : (n : ℕ) → 2 ^ (suc n * 8) ≡ 256 * 2 ^ (n * 8)
pow_bytes n = let e : suc n * 8 ≡ n * 8 + 8 = omega arith in rw e (simp towards_suc (omega arith))

pow_pos : (n : ℕ) → 0 < 2 ^ (n * 8)
pow_pos zero = omega arith
pow_pos (suc n) = omega (arith, pow_bytes n, pow_pos n)

length-to_bytes_le : (value size : ℕ) → length (to_bytes_le value size) ≡ size
unfolding to_bytes_le
length-to_bytes_le value zero = refl
length-to_bytes_le value (suc size) = ap suc (length-to_bytes_le (value / 256) size)

pub length-pack_int : (value size : ℕ) → length (pack_int value size) ≡ size
unfolding pack_int
length-pack_int value size = length-to_bytes_le (value % 2 ^ (size * 8)) size

to_bytes_le-AreBytes : (value size : ℕ) → AreBytes (to_bytes_le value size)
unfolding to_bytes_le
to_bytes_le-AreBytes value zero = tt
to_bytes_le-AreBytes value (suc size) = (omega arith, to_bytes_le-AreBytes (value / 256) size)

pub pack_int-AreBytes : (value size : ℕ) → AreBytes (pack_int value size)
unfolding pack_int
pack_int-AreBytes value size = to_bytes_le-AreBytes (value % 2 ^ (size * 8)) size

unpack_int-to_bytes_le :
    (value size : ℕ) → value < 2 ^ (size * 8) → unpack_int (to_bytes_le value size) ≡ value
unfolding to_bytes_le unpack_int
unpack_int-to_bytes_le value zero h = omega arith
unpack_int-to_bytes_le value (suc size) h =
    omega (arith, pow_bytes size, unpack_int-to_bytes_le (value / 256) size)

-- Packing and unpacking an integer reduces it to its size, whatever the size.
pub unpack_int-pack_int :
    (value size : ℕ) → unpack_int (pack_int value size) ≡ value % 2 ^ (size * 8)
unfolding pack_int
unpack_int-pack_int value size =
    unpack_int-to_bytes_le (value % 2 ^ (size * 8)) size (mod-lt value (pow_pos size))

pub unpack_int-lt : (bs : Bytes) → AreBytes bs → unpack_int bs < 2 ^ (length bs * 8)
unfolding unpack_int
unpack_int-lt [] h = omega arith
unpack_int-lt (b ∷ bs) h = omega (arith, pow_bytes (length bs), unpack_int-lt bs h.1)

to_bytes_le-unpack_int : (bs : Bytes) → AreBytes bs → to_bytes_le (unpack_int bs) (length bs) ≡ bs
unfolding to_bytes_le unpack_int
to_bytes_le-unpack_int [] h = refl
to_bytes_le-unpack_int (b ∷ bs) h =
    let low : (b + 256 * unpack_int bs) % 256 ≡ b = omega (arith, h.0) in
    let high : (b + 256 * unpack_int bs) / 256 ≡ unpack_int bs = omega (arith, h.0) in
    rw (low, high) (ap (◌∷◌ b) (to_bytes_le-unpack_int bs h.1))

-- Unpacking bytes and packing the value at their number gives the bytes back.
pub pack_int-unpack_int : (bs : Bytes) → AreBytes bs → pack_int (unpack_int bs) (length bs) ≡ bs
unfolding pack_int
pack_int-unpack_int bs h = rw (mod-eq_of_lt (unpack_int-lt bs h)) (to_bytes_le-unpack_int bs h)

-- Packing keeps only the value's remainder.
pub pack_int-mod : (value size : ℕ) → pack_int (value % 2 ^ (size * 8)) size ≡ pack_int value size
unfolding pack_int
pack_int-mod value size = ap (λ v. to_bytes_le v size) (mod-eq_of_lt (mod-lt value (pow_pos size)))
