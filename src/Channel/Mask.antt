-- ===== src/Channel/Mask.antt =====
-- The last step of the conversion in channel.c, on the number of a sample: the upper bits are
-- cleared, as on a little-endian host.
use libiio.Prelude.{
  ℕ, zero, suc, ◌+◌, ◌-◌, ◌*◌, ◌/◌, ◌%◌, ◌^◌, ◌≤◌, ◌<◌, ◌≡◌, refl, sym, ap, ◌∙◌, ◌==◌, false, List,
  [], ◌∷◌, length, All, arith, Bool-cases, inl, inr,
}
use native.Mathlib.Nat.{
  mul-add-mod_self_left, mod-eq_of_lt, mod-lt, mod-one, mod-add-div, mul_assoc, pow-succ',
  one-le-pow, mul-pos,
}
use libiio.Channel.{cut, mask_upper_bits}
use libiio.Channel.Value.{le_value, IsByte, zero_bytes, each_shift, pow_split}

-- a remainder, one byte up
pub scale_mod : (x v p : ℕ) → x < 256 → 0 < p → (x + 256 * v) % (256 * p) ≡ x + 256 * (v % p)
scale_mod x v p h pos =
    let parts : v % p + p * (v / p) ≡ v = mod-add-div v p in
    let small : v % p < p = mod-lt v pos in
    let again = mul-add-mod_self_left (256 * p) (v / p) (x + 256 * (v % p)) in
    let over = mul_assoc 256 p (v / p) in
    let whole : x + 256 * v ≡ 256 * p * (v / p) + (x + 256 * (v % p)) = omega arith in
    ap (λ n. n % (256 * p)) whole ∙ again ∙ mod-eq_of_lt (omega arith)

pub part_pos : (k s : ℕ) → 0 < 256 ^ k * 2 ^ s
part_pos k s = mul-pos (one-le-pow k 256 (omega arith)) (one-le-pow s 2 (omega arith))

cut_step : (s i x : ℕ) (xs : List ℕ) → cut s (suc i) (x ∷ xs) ≡ x ∷ cut s i xs
unfolding cut
cut_step s i x xs = elim (Bool-cases (s == 0)) [ inl z ↦ rw z refl | inr nz ↦ rw nz refl ]

mask_step :
    (k s x : ℕ) (xs : List ℕ)
    → s < 8
    → mask_upper_bits (8 * suc k + s) (x ∷ xs) ≡ x ∷ mask_upper_bits (8 * k + s) xs
unfolding mask_upper_bits
mask_step k s x xs h =
    let j = (8 * k + s + 7) / 8 in
    let a : (8 * suc k + s) % 8 ≡ s = omega arith in
    let b : (8 * suc k + s) / 8 ≡ suc k = omega arith in
    let c : (8 * suc k + s + 7) / 8 ≡ suc j = omega arith in
    let d : (8 * k + s) % 8 ≡ s = omega arith in
    let e : (8 * k + s) / 8 ≡ k = omega arith in
    let f : suc (length xs) - suc j ≡ length xs - j = omega arith in
    rw (a, b, c, d, e, f, cut_step s k x xs) refl

LowLaw : ℕ → Type 0
LowLaw s = (x v : ℕ) → x < 256 → x % 2 ^ s ≡ (x + 256 * v) % 2 ^ s

low_law : (s : ℕ) → 0 < s → s < 8 → LowLaw s
unfolding LowLaw
low_law =
    each_shift LowLaw (λ x v h. omega arith) (λ x v h. omega arith) (λ x v h. omega arith)
      (λ x v h. omega arith) (λ x v h. omega arith) (λ x v h. omega arith) (λ x v h. omega arith)

mask_none : (xs : List ℕ) → le_value (mask_upper_bits 0 xs) ≡ 0
unfolding mask_upper_bits
mask_none xs = zero_bytes (length xs - 0)

mask_low :
    (s x : ℕ) (xs : List ℕ)
    → 0 < s
    → s < 8
    → x < 256
    → le_value (mask_upper_bits s (x ∷ xs)) ≡ (x + 256 * le_value xs) % 2 ^ s
unfolding mask_upper_bits cut le_value LowLaw
mask_low s x xs p h b =
    let a : s % 8 ≡ s = omega arith in
    let c : s / 8 ≡ 0 = omega arith in
    let d : (s + 7) / 8 ≡ 1 = omega arith in
    let e : (s == 0) ≡ false = ground arith in
    let rest = zero_bytes (suc (length xs) - 1) in
    rw (a, c, d, e) (omega (arith, rest, low_law s p h x (le_value xs) b))

le_value-mask_parts :
    (k s : ℕ) (xs : List ℕ)
    → s < 8
    → 8 * k + s ≤ 8 * length xs
    → All IsByte xs
    → le_value (mask_upper_bits (8 * k + s) xs) ≡ le_value xs % (256 ^ k * 2 ^ s)
unfolding le_value
le_value-mask_parts zero zero xs h fits a = mask_none xs ∙ sym (mod-one (le_value xs))
le_value-mask_parts zero (suc s) [] h fits a = absurd (omega arith)
le_value-mask_parts zero (suc s) (x ∷ xs) h fits (b, bs) =
    let same : 8 * 0 + suc s ≡ suc s = omega arith in
    let unit : 256 ^ 0 * 2 ^ suc s ≡ 2 ^ suc s = omega arith in
    rw (same, unit) (mask_low (suc s) x xs (omega arith) h b)
le_value-mask_parts (suc k) s [] h fits a = absurd (omega arith)
le_value-mask_parts (suc k) s (x ∷ xs) h fits (b, bs) =
    let rest = le_value-mask_parts k s xs h (omega arith) bs in
    rw (mask_step k s x xs h, pow-succ' 256 k, mul_assoc 256 (256 ^ k) (2 ^ s), rest)
      (sym (scale_mod x (le_value xs) (256 ^ k * 2 ^ s) b (part_pos k s)))

-- Masking a sample takes the remainder of its number.
pub le_value-mask_upper_bits :
    (bits : ℕ) (xs : List ℕ)
    → bits ≤ 8 * length xs
    → All IsByte xs
    → le_value (mask_upper_bits bits xs) ≡ le_value xs % 2 ^ bits
le_value-mask_upper_bits bits xs fits a =
    let parts : bits ≡ 8 * (bits / 8) + bits % 8 = omega arith in
    let masked = le_value-mask_parts (bits / 8) (bits % 8) xs (omega arith) (omega arith) a in
    ap (λ n. le_value (mask_upper_bits n xs)) parts
    ∙ masked
    ∙ ap (λ p. le_value xs % p) (sym (pow_split bits))
