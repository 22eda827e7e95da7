-- ===== src/Common/Memory.antt =====
-- The representation of an object of type `size_t`: eight bytes, the least significant one first.
use native.Mathlib.Nat.{pow-suc}
use Prim.Native.Nat.{ℕ, zero, suc, ◌+◌, ◌*◌, ◌/◌, ◌%◌, ◌^◌, ◌<◌}
use mathlib.Core.Path.{◌≡◌, refl, ap}
use mathlib.Core.List.{List, [], ◌∷◌}
use native.Mathlib.Omega.{arith}
use mr_lib.Common.Lists.{length}

abbrev pub Bytes : Type 0
Bytes = List ℕ

little_endian : ℕ → ℕ → Bytes
little_endian zero n = []
little_endian (suc k) n = n % 256 ∷ little_endian k (n / 256)

unfoldable pub of_bytes : Bytes → ℕ
of_bytes [] = 0
of_bytes (b ∷ bs) = b + 256 * of_bytes bs

-- `size_t` is a 64-bit word
abbrev pub size_limit : ℕ
size_limit = 2 ^ 64

unfoldable pub size_bytes : ℕ → Bytes
unfolding little_endian
size_bytes n = little_endian 8 n

length-little_endian : (k n : ℕ) → length (little_endian k n) ≡ k
unfolding little_endian
length-little_endian zero n = refl
length-little_endian (suc k) n = ap suc (length-little_endian k (n / 256))

of_bytes-little_endian : (k n : ℕ) → n < 256 ^ k → of_bytes (little_endian k n) ≡ n
unfolding little_endian of_bytes
of_bytes-little_endian zero n h = omega arith
of_bytes-little_endian (suc k) n h =
    let small : n / 256 < 256 ^ k = omega (arith, pow-suc 256 k) in
    omega (arith, of_bytes-little_endian k (n / 256) small)

pub length-size_bytes : (n : ℕ) → length (size_bytes n) ≡ 8
length-size_bytes n = unfold size_bytes in length-little_endian 8 n

pub of_bytes-size_bytes : (n : ℕ) → n < size_limit → of_bytes (size_bytes n) ≡ n
of_bytes-size_bytes n h = unfold size_bytes in of_bytes-little_endian 8 n h
