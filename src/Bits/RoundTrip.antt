-- ===== src/Bits/RoundTrip.antt =====
-- Unpacking and packing are inverse.
use native.Mathlib.Nat.{mod-eq_of_lt, pow-suc, pow-le-pow_right, zero-mul}
use syndrome.Word.Xor.{mul-pow-suc}
use syndrome.Word.Value.{value, value-lt}
use syndrome.Prelude.{
  ℕ, zero, suc, ◌+◌, ◌*◌, ◌/◌, ◌%◌, ◌^◌, ◌≤◌, ◌<◌, false, List, [], ◌∷◌, map, foldl, bit_or, length,
  length-map, length-replicate, chunks_exact, concat, ok, ◌≡◌, refl, ap, ap₂, sym, subst, ◌∙◌, ◌↔◌,
  arith, All, All-append, concat-chunks_exact, chunks_exact-concat, length-concat,
  chunks_exact-sizes, chunks_exact-All,
}
use syndrome.Word.{shl8}
use syndrome.Word.Mask.{and-one, or-shift_one}
use syndrome.Bits.{
  byte_slots, bytes_to_bits, bytes_to_bits_vec, any_above_one, pack_byte, bits_to_bytes,
  bits_to_bytes_vec,
}

abbrev pub IsByte : ℕ → Type 0
IsByte b = b < 256

abbrev pub IsBit : ℕ → Type 0
IsBit b = b < 2

pub length-byte_slots : (byte : ℕ) → length (byte_slots byte) ≡ 8
unfolding byte_slots
length-byte_slots byte = refl

bits_of_byte : ℕ → List ℕ
bits_of_byte b =
    b / 128 % 2
    ∷ b / 64 % 2
    ∷ b / 32 % 2
    ∷ b / 16 % 2
    ∷ b / 8 % 2
    ∷ b / 4 % 2
    ∷ b / 2 % 2
    ∷ b % 2
    ∷ []

byte_slots_lem : (b : ℕ) → byte_slots b ≡ bits_of_byte b
unfolding byte_slots bits_of_byte
byte_slots_lem b = ground (
  arith,
  and-one (b / 128),
  and-one (b / 64),
  and-one (b / 32),
  and-one (b / 16),
  and-one (b / 8),
  and-one (b / 4),
  and-one (b / 2),
  and-one (b / 1),
)

-- Packing spells the chunk as long as no bit leaves the byte.
pack_from :
    (n acc : ℕ) (bs : List ℕ)
    → acc < 2 ^ n
    → n + length bs < 9
    → All IsBit bs
    → foldl (λ byte bit. bit_or (shl8 byte 1) bit) acc bs ≡ acc * 2 ^ length bs + value bs
pack_from n acc [] h k p = omega arith
pack_from n acc (b ∷ bs) h k p =
    ap (λ (t : ℕ). foldl (λ byte bit. bit_or (shl8 byte 1) bit) t bs) joined
    ∙ pack_from (suc n) (acc * 2 + b) bs (omega (arith, pow-suc 2 n)) (omega arith) p.1
    ∙ omega (
      arith,
      mul-pow-suc acc (length bs),
      ap (λ (t : ℕ). t * 2 ^ length bs) (mod-eq_of_lt {n = b} {m = 2} p.0),
    )
  where
    bound : 2 ^ suc n ≤ 2 ^ 8
    bound = pow-le-pow_right (omega arith) {i = suc n} {j = 8} (omega arith)

    joined : bit_or (shl8 acc 1) b ≡ acc * 2 + b
    joined =
        ap (λ (t : ℕ). bit_or t b)
          (mod-eq_of_lt {n = acc * 2} {m = 2 ^ 8} (omega (arith, bound, pow-suc 2 n)))
        ∙ or-shift_one acc b p.0

pub pack_byte_lem : (bs : List ℕ) → length bs ≡ 8 → All IsBit bs → pack_byte bs ≡ value bs
unfolding pack_byte
pack_byte_lem bs e p =
    pack_from 0 0 bs (omega arith) (omega arith) p ∙ omega (arith, zero-mul (2 ^ length bs))

-- Eight bits are the slots of the byte that they spell.
slots_of_value : (bs : List ℕ) → length bs ≡ 8 → All IsBit bs → bits_of_byte (value bs) ≡ bs
unfolding bits_of_byte
slots_of_value (b0 ∷ b1 ∷ b2 ∷ b3 ∷ b4 ∷ b5 ∷ b6 ∷ b7 ∷ []) e p = ap₂ ◌∷◌ (omega arith) (
    ap₂ ◌∷◌ (omega arith) (
      ap₂ ◌∷◌ (omega arith) (
        ap₂ ◌∷◌ (omega arith) (
          ap₂ ◌∷◌ (omega arith)
            (ap₂ ◌∷◌ (omega arith) (ap₂ ◌∷◌ (omega arith) (ap₂ ◌∷◌ (omega arith) refl)))))))
slots_of_value _ e p = absurd (omega arith)

value_of_slots : (b : ℕ) → b < 256 → value (bits_of_byte b) ≡ b
unfolding bits_of_byte
value_of_slots b h = omega arith

pub slots-pack_byte : (bs : List ℕ) → length bs ≡ 8 → All IsBit bs → byte_slots (pack_byte bs) ≡ bs
slots-pack_byte bs e p =
    ap byte_slots (pack_byte_lem bs e p) ∙ byte_slots_lem (value bs) ∙ slots_of_value bs e p

IsBit-slots : (b : ℕ) → All IsBit (byte_slots b)
IsBit-slots b = rw (byte_slots_lem b) (unfold bits_of_byte in omega arith)

pub pack_byte-slots : (b : ℕ) → b < 256 → pack_byte (byte_slots b) ≡ b
pack_byte-slots b h =
    pack_byte_lem (byte_slots b) (length-byte_slots b) (IsBit-slots b)
    ∙ ap value (byte_slots_lem b)
    ∙ value_of_slots b h

abbrev unpacked : List ℕ → List ℕ
unpacked bytes = concat (map byte_slots bytes)

slots-sizes : (bytes : List ℕ) → All (λ bs. length bs ≡ 8) (map byte_slots bytes)
slots-sizes [] = tt
slots-sizes (b ∷ bytes) = (length-byte_slots b, slots-sizes bytes)

IsBit-unpacked : (bytes : List ℕ) → All IsBit (unpacked bytes)
IsBit-unpacked [] = tt
IsBit-unpacked (b ∷ bytes) =
    All-append IsBit (byte_slots b) (unpacked bytes) (IsBit-slots b) (IsBit-unpacked bytes)

pub length-unpacked : (bytes : List ℕ) → length (unpacked bytes) ≡ length bytes * 8
length-unpacked bytes =
    length-concat 8 (map byte_slots bytes) (slots-sizes bytes)
    ∙ ap (λ (t : ℕ). t * 8) (length-map bytes byte_slots)

pub bytes_to_bits_vec_lem : (bytes : List ℕ) → bytes_to_bits_vec bytes ≡ unpacked bytes
unfolding bytes_to_bits_vec bytes_to_bits
bytes_to_bits_vec_lem bytes = ground (arith, length-replicate (length bytes * 8) (zero))

pub any_above_one_iff : (bits : List ℕ) → (any_above_one bits ≡ false) ↔ All IsBit bits
unfolding any_above_one
any_above_one_iff [] = (λ h. tt, λ h. refl)
any_above_one_iff (b ∷ bits) =
    let rest = any_above_one_iff bits in
    (λ h. (ground arith, rest.0 (ground arith)), λ h. ground (arith, rest.1 h.1))

-- What `bits_to_bytes_vec` accepts, and what it then returns.
bits_to_bytes_vec_iff :
    (bits bytes : List ℕ)
    → (bits_to_bytes_vec bits ≡ ok bytes)
      ↔ ((length bits % 8 ≡ 0) × All IsBit bits × (map pack_byte (chunks_exact 8 bits) ≡ bytes))
unfolding bits_to_bytes_vec bits_to_bytes
bits_to_bytes_vec_iff bits bytes =
    let sized = length-replicate (length bits / 8) zero in
    let clean = any_above_one_iff bits in
    (
      λ h. (ground (arith, sized), clean.0 (ground (arith, sized)), ground (arith, sized)),
      λ h. ground (arith, sized, clean.1 h.1, h.0, h.2),
    )

pack-slots : (bytes : List ℕ) → All IsByte bytes → map pack_byte (map byte_slots bytes) ≡ bytes
pack-slots [] h = refl
pack-slots (b ∷ bytes) h = ap₂ ◌∷◌ (pack_byte-slots b h.0) (pack-slots bytes h.1)

slots-pack :
    (chunks : List (List ℕ))
    → All (λ bs. length bs ≡ 8) chunks
    → All (All IsBit) chunks
    → map byte_slots (map pack_byte chunks) ≡ chunks
slots-pack [] e p = refl
slots-pack (bs ∷ chunks) e p = ap₂ ◌∷◌ (slots-pack_byte bs e.0 p.0) (slots-pack chunks e.1 p.1)

pack-IsByte :
    (chunks : List (List ℕ))
    → All (λ bs. length bs ≡ 8) chunks
    → All (All IsBit) chunks
    → All IsByte (map pack_byte chunks)
pack-IsByte [] e p = tt
pack-IsByte (bs ∷ chunks) e p = (small, pack-IsByte chunks e.1 p.1)
  where
    small : IsByte (pack_byte bs)
    small = omega (
      arith,
      pack_byte_lem bs e.0 p.0,
      value-lt bs,
      ap (λ (t : ℕ). 2 ^ t) {x = length bs} {y = 8} e.0,
    )

-- `bits_to_bytes_vec` returns a list exactly when it is a list of bytes that `bytes_to_bits_vec`
-- unpacks to the same bits, so it refuses all else.
pub bits_to_bytes_vec-bytes_to_bits_vec_iff :
    (bits bytes : List ℕ)
    → (bits_to_bytes_vec bits ≡ ok bytes) ↔ (All IsByte bytes × (bytes_to_bits_vec bytes ≡ bits))
bits_to_bytes_vec-bytes_to_bits_vec_iff bits bytes = (packed, unpacks)
  where
    packed : bits_to_bytes_vec bits ≡ ok bytes → All IsByte bytes × (bytes_to_bits_vec bytes ≡ bits)
    packed h =
        let (whole, clean, e) = (bits_to_bytes_vec_iff bits bytes).0 h in
        let sizes = chunks_exact-sizes 8 bits in
        let cleans = chunks_exact-All IsBit 8 bits clean in
        (
          subst (All IsByte) e (pack-IsByte (chunks_exact 8 bits) sizes cleans),
          bytes_to_bits_vec_lem bytes
              ∙ ap unpacked (sym e)
              ∙ ap concat (slots-pack (chunks_exact 8 bits) sizes cleans)
              ∙ concat-chunks_exact 8 bits whole,
        )

    unpacks :
        All IsByte bytes × (bytes_to_bits_vec bytes ≡ bits) → bits_to_bytes_vec bits ≡ ok bytes
    unpacks h =
        let e = sym h.1 ∙ bytes_to_bits_vec_lem bytes in
        (bits_to_bytes_vec_iff bits bytes).1 (
          omega (arith, ap length e, length-unpacked bytes),
          subst (All IsBit) (sym e) (IsBit-unpacked bytes),
          ap (λ (t : List ℕ). map pack_byte (chunks_exact 8 t)) e
              ∙ ap (map pack_byte)
                  (chunks_exact-concat 8 (map byte_slots bytes) (omega arith) (slots-sizes bytes))
              ∙ pack-slots bytes h.0,
        )
