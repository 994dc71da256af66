-- ===== src/Transport/Words.antt =====
-- The unsigned 32-bit words of `struct.pack`: "!I" is big-endian, "I" has the host's byte order.
-- A "!d" is given by the 64-bit pattern of the float.
use quinkgl_framework.Common.{
  ℕ, ◌+◌, ◌*◌, ◌/◌, ◌%◌, ◌<◌, ◌≡◌, refl, ap₂, List, [], ◌∷◌, ◌++◌, arith, nat_eq, string_eq,
  pair_eq, length, All,
}

abbrev pub Bytes : Type 0
Bytes = List ℕ

abbrev pub word_limit : ℕ
word_limit = 4294967296

-- The four bytes, the most significant first.
unfoldable pub big_endian : ℕ → Bytes
big_endian n = n / 16777216 % 256 ∷ n / 65536 % 256 ∷ n / 256 % 256 ∷ n % 256 ∷ []

unfoldable pub from_big_endian : ℕ → ℕ → ℕ → ℕ → ℕ
from_big_endian a b c d = ((a * 256 + b) * 256 + c) * 256 + d

pub from_big_endian-big_endian :
    (n : ℕ)
    → n < word_limit
    → from_big_endian (n / 16777216 % 256) (n / 65536 % 256) (n / 256 % 256) (n % 256) ≡ n
unfolding from_big_endian
from_big_endian-big_endian n h = omega arith

-- The eight bytes of a float's pattern.
unfoldable pub double_bytes : ℕ → Bytes
unfolding big_endian
double_bytes n = big_endian (n / word_limit) ++ big_endian n

pub data ByteOrder : Type 0 where
  little big : ByteOrder

unfoldable pub native_word : ByteOrder → ℕ → Bytes
unfolding big_endian
native_word big n = big_endian n
native_word little n = n % 256 ∷ n / 256 % 256 ∷ n / 65536 % 256 ∷ n / 16777216 % 256 ∷ []

unfoldable pub from_native : ByteOrder → ℕ → ℕ → ℕ → ℕ → ℕ
unfolding from_big_endian
from_native big a b c d = from_big_endian a b c d
from_native little a b c d = from_big_endian d c b a

-- `struct.pack(f'{len(ns)}I', *ns)`, for numbers of 32 bits.
unfoldable pub pack_native : ByteOrder → List ℕ → Bytes
unfolding native_word
pack_native o [] = []
pack_native o (n ∷ ns) = native_word o n ++ pack_native o ns

-- `struct.unpack(f'{count}I', data)`, of whole words.
unfoldable pub unpack_native : ByteOrder → Bytes → List ℕ
unfolding from_native
unpack_native o (a ∷ b ∷ c ∷ d ∷ rest) = from_native o a b c d ∷ unpack_native o rest
unpack_native o _ = []

pub unpack-pack_native :
    (o : ByteOrder) (ns : List ℕ)
    → All (λ n. n < word_limit) ns
    → unpack_native o (pack_native o ns) ≡ ns
unfolding pack_native unpack_native
unpack-pack_native o [] h = refl
unpack-pack_native big (n ∷ ns) h =
    ap₂ (λ x xs. x ∷ xs) (omega arith) (unpack-pack_native big ns h.1)
unpack-pack_native little (n ∷ ns) h =
    ap₂ (λ x xs. x ∷ xs) (omega arith) (unpack-pack_native little ns h.1)

pub length-pack_native : (o : ByteOrder) (ns : List ℕ) → length (pack_native o ns) ≡ length ns * 4
unfolding pack_native
length-pack_native o [] = omega arith
length-pack_native big (n ∷ ns) = omega (arith, length-pack_native big ns)
length-pack_native little (n ∷ ns) = omega (arith, length-pack_native little ns)

pub length-big_endian : (n : ℕ) → length (big_endian n) ≡ 4
unfolding big_endian
length-big_endian n = omega arith

pub length-double_bytes : (n : ℕ) → length (double_bytes n) ≡ 8
unfolding double_bytes
length-double_bytes n = omega arith

pub big_endian-injective :
    (m n : ℕ) → m < word_limit → n < word_limit → big_endian m ≡ big_endian n → m ≡ n
unfolding big_endian
big_endian-injective m n h k e = grind arith
