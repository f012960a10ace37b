-- ===== src/Tickets/Unpack.antt =====
-- What the letters of a ticket reference say of its bytes.
use Prim.Native.Nat.{◌%◌}
use mathlib.Core.List.{append-nil}
use govibe_core.Prelude.{
  ◌≡◌, refl, sym, ap, ◌∙◌, subst, length, ℕ, zero, suc, ◌+◌, ◌-◌, ◌*◌, ◌/◌, ◌^◌, ◌<◌, List, [], ◌∷◌,
  ◌++◌, arith,
}
use govibe_core.Tickets.Generator.{
  Packing, absorb, emit, emit_all, feed, feed_all, flush, start, letters,
}

-- The number that letters spell in base 32, the last letter at the head.
number : List ℕ → ℕ
number [] = 0
number (d ∷ ds) = number ds * 32 + d

-- The number that bytes spell in base 256 after the number `n`.
big_endian : ℕ → List ℕ → ℕ
big_endian n [] = n
big_endian n (byte ∷ bytes) = big_endian (n * 256 + byte) bytes

abbrev pub AreBytes : List ℕ → Type 0
AreBytes [] = Unit
AreBytes (byte ∷ bytes) = (byte < 256) × AreBytes bytes

-- The last bytes of a number, this many, before the bytes that follow.
last_bytes : ℕ → ℕ → List ℕ → List ℕ
last_bytes zero n following = following
last_bytes (suc count) n following = last_bytes count (n / 256) (n % 256 ∷ following)

-- The bits that fill up the last letter, where this many are left.
filling : ℕ → ℕ
filling bits = (5 - bits) % 5

-- The bytes, this many, that letters stand for.
pub unpack : ℕ → List ℕ → List ℕ
unpack count ds = last_bytes count (number ds / 2 ^ filling ((8 * count) % 5)) []

-- After this many bytes, which spell the number: the letters with the bits that are left spell it.
Reads : ℕ → ℕ → Packing → Type 0
Reads count n p =
    (p.bits ≡ (8 * count) % 5) × (number p.output * 2 ^ p.bits + p.value % 2 ^ p.bits ≡ n)

start_lem : Reads 0 0 start
unfolding Reads number
start_lem = (refl, refl)

feed_lem :
    (count n byte b v : ℕ) (o : List ℕ)
    → byte < 256
    → Reads count n (record { bits = b; value = v; output = o })
    → Reads (suc count) (n * 256 + byte) (feed byte (record { bits = b; value = v; output = o }))
unfolding Reads feed emit_all emit absorb number
feed_lem count n byte zero v o h (l, k) = (omega arith, omega arith)
feed_lem count n byte (suc zero) v o h (l, k) = (omega arith, omega arith)
feed_lem count n byte (suc (suc zero)) v o h (l, k) = (omega arith, omega arith)
feed_lem count n byte (suc (suc (suc zero))) v o h (l, k) = (omega arith, omega arith)
feed_lem count n byte (suc (suc (suc (suc zero)))) v o h (l, k) = (omega arith, omega arith)
feed_lem count n byte (suc (suc (suc (suc (suc b))))) v o h (l, k) = absurd (omega (arith, l))

left_bits : (count n : ℕ) (p : Packing) → Reads (count + 0) n p → p.bits ≡ (8 * count) % 5
unfolding Reads
left_bits count n p (l, _) = omega arith

feed_all_lem :
    (bytes : List ℕ) (count n : ℕ) (p : Packing)
    → AreBytes bytes
    → Reads count n p
    → Reads (length bytes + count) (big_endian n bytes) (feed_all bytes p)
unfolding feed_all big_endian
feed_all_lem [] count n p h k = subst (λ c. Reads c n p) (omega arith) k
feed_all_lem (byte ∷ bytes) count n p (below, h) k =
    subst (λ c. Reads c (big_endian (n * 256 + byte) bytes) (feed_all bytes (feed byte p)))
      (omega arith)
      (feed_all_lem bytes (suc count) (n * 256 + byte) (feed byte p) h
        (feed_lem count n byte p.bits p.value p.output below k))

flush_lem :
    (count n b v : ℕ) (o : List ℕ)
    → Reads count n (record { bits = b; value = v; output = o })
    → number (flush (record { bits = b; value = v; output = o })) / 2 ^ filling b ≡ n
unfolding Reads flush number filling
flush_lem count n zero v o (l, k) = omega arith
flush_lem count n (suc zero) v o (l, k) = omega arith
flush_lem count n (suc (suc zero)) v o (l, k) = omega arith
flush_lem count n (suc (suc (suc zero))) v o (l, k) = omega arith
flush_lem count n (suc (suc (suc (suc zero)))) v o (l, k) = omega arith
flush_lem count n (suc (suc (suc (suc (suc b))))) v o (l, k) = absurd (omega (arith, l))

add_zero : (a : ℕ) → a + 0 ≡ a
add_zero a = omega arith

no_more : (count : ℕ) → 0 + count ≡ count
no_more count = omega arith

one_more : (a b : ℕ) → suc a + b ≡ a + suc b
one_more a b = omega arith

first_digits : (n byte : ℕ) → byte < 256 → (n * 256 + byte) / 256 ≡ n
first_digits n byte h = omega arith

last_digit : (n byte : ℕ) → byte < 256 → (n * 256 + byte) % 256 ≡ byte
last_digit n byte h = omega arith

last_bytes-big_endian :
    (bytes : List ℕ) (count n : ℕ) (following : List ℕ)
    → AreBytes bytes
    → last_bytes (length bytes + count) (big_endian n bytes) following
      ≡ last_bytes count n (bytes ++ following)
unfolding big_endian last_bytes
last_bytes-big_endian [] count n following h = ap (λ c. last_bytes c n following) (no_more count)
last_bytes-big_endian (byte ∷ bytes) count n following (below, h) =
    ap (λ c. last_bytes c (big_endian (n * 256 + byte) bytes) following)
      (one_more (length bytes) count)
    ∙ last_bytes-big_endian bytes (suc count) (n * 256 + byte) following h
    ∙ ap (λ m. last_bytes count m ((n * 256 + byte) % 256 ∷ (bytes ++ following)))
        (first_digits n byte below)
    ∙ ap (λ m. last_bytes count n (m ∷ (bytes ++ following))) (last_digit n byte below)

-- Where the drawn numbers are bytes: they are read back, all of them and in their order, from the
-- letters that a reference writes for them and from how many they are.
pub unpack-letters :
    (bytes : List ℕ) → AreBytes bytes → unpack (length bytes) (letters bytes) ≡ bytes
unfolding unpack letters last_bytes
unpack-letters bytes h =
    ap (λ m. last_bytes (length bytes) m []) spelt
    ∙ ap (λ c. last_bytes c (big_endian 0 bytes) []) (sym (add_zero (length bytes)))
    ∙ last_bytes-big_endian bytes 0 0 [] h
    ∙ append-nil bytes
  where
    last : Packing
    last = feed_all bytes start

    read : Reads (length bytes + 0) (big_endian 0 bytes) last
    read = feed_all_lem bytes 0 0 start h start_lem

    bits : last.bits ≡ (8 * length bytes) % 5
    bits = left_bits (length bytes) (big_endian 0 bytes) last read

    spelt : number (flush last) / 2 ^ filling ((8 * length bytes) % 5) ≡ big_endian 0 bytes
    spelt =
        ap (λ b. number (flush last) / 2 ^ filling b) (sym bits)
        ∙ flush_lem (length bytes + 0) (big_endian 0 bytes) last.bits last.value last.output read
