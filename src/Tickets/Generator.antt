-- ===== src/Tickets/Generator.antt =====
-- The generator of ticket references: src/shared/tickets/ticket-reference-generator.service.ts. The
-- random bytes are an argument. The texts so far are lists of letters' numbers, the last letter at
-- the head.
use Prim.Native.Nat.{◌%◌}
use Prim.Native.String.{slice}
use govibe_core.Prelude.{
  ℕ, zero, suc, ◌+◌, ◌-◌, ◌*◌, ◌/◌, ◌^◌, String, List, [], ◌∷◌, ltb, leb, join, if◌then◌else◌,
}

-- `bits`, `value` and `output`. The source's `value` is a signed number of 32 bits, this one the
-- number from 0 to 2^32 - 1 with the same bits, which is what `>>>` and `& 31` read.
pub record Packing : Type 0 where
  pub bits : ℕ
  pub value : ℕ
  pub output : List ℕ

-- `value = (value << 8) | byte; bits += 8;`
unfoldable pub absorb : ℕ → Packing → Packing
absorb byte p = record {
  bits = p.bits + 8;
  value = (p.value * 256) % 2 ^ 32 + byte;
  output = p.output;
}

-- `output += alphabet[(value >>> (bits - 5)) & 31]; bits -= 5;`
unfoldable pub emit : Packing → Packing
emit p = record {
  bits = p.bits - 5;
  value = p.value;
  output = (p.value / 2 ^ (p.bits - 5)) % 32 ∷ p.output;
}

-- `while (bits >= 5) { … }`, on fuel.
unfoldable pub emit_all : ℕ → Packing → Packing
emit_all zero p = p
emit_all (suc n) p = let rest = emit_all n (emit p) in if leb 5 p.bits then rest else p

-- A round of the loop on the buffer. The `while` ends since `bits` goes down by 5 in each round.
unfoldable pub feed : ℕ → Packing → Packing
feed byte p = let q = absorb byte p in emit_all q.bits q

unfoldable pub feed_all : List ℕ → Packing → Packing
feed_all [] p = p
feed_all (byte ∷ bytes) p = feed_all bytes (feed byte p)

-- `if (bits > 0) { output += alphabet[(value << (5 - bits)) & 31]; }`
unfoldable pub flush : Packing → List ℕ
flush p = if ltb 0 p.bits then ((p.value * 2 ^ (5 - p.bits)) % 2 ^ 32) % 32 ∷ p.output else p.output

abbrev pub start : Packing
start = record { bits = 0; value = 0; output = [] }

unfoldable pub letters : List ℕ → List ℕ
letters bytes = flush (feed_all bytes start)

abbrev pub alphabet : String
alphabet = "ABCDEFGHIJKLMNOPQRSTUVWXYZ234567"

-- The text of the letters.
unfoldable pub spell : List ℕ → String
spell [] = ""
spell (d ∷ ds) = join (spell ds) (slice alphabet d (d + 1))

unfoldable pub base32 : List ℕ → String
base32 bytes = spell (letters bytes)

unfoldable pub generate_serial : List ℕ → String
generate_serial bytes = join "GVS-" (base32 bytes)

unfoldable pub generate_public_reference : List ℕ → String
generate_public_reference bytes = join "GV-" (base32 bytes)
