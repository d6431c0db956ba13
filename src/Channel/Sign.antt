-- ===== src/Channel/Sign.antt =====
-- The sign extension of channel.c, on the number of a sample, on a little-endian host.
use libiio.Prelude.{
  ℕ, zero, suc, ◌+◌, ◌-◌, ◌*◌, ◌/◌, ◌%◌, ◌^◌, ◌≤◌, ◌<◌, ◌≡◌, refl, sym, ap, ◌∙◌, ◌==◌, true,
  if◌then◌else◌, List, [], ◌∷◌, ◌++◌, length, take, replicate, get_or, All, arith, Bool-cases, inl,
  inr,
}
use native.Mathlib.Nat.{
  mul_assoc, pow-succ', pow-suc, div-div-eq-div-mul, mul-le-mul_left, pow-le-pow_right, one-le-pow,
}
use libiio.Channel.{sign_extend, extended_byte, fill_of}
use libiio.Channel.Value.{le_value, IsByte, zero_bytes, each_shift, pow_split}
use libiio.Channel.Mask.{scale_mod, part_pos}

-- the two's complement in `size` of a number whose sign has the weight `p`
unfoldable pub signed_in : ℕ → ℕ → ℕ → ℕ
signed_in size p v = if v / p % 2 == 1 then v % p + (size - p) else v % p

full_bytes : (n : ℕ) → le_value (replicate n 0xff) + 1 ≡ 256 ^ n
unfolding le_value
full_bytes zero = omega arith
full_bytes (suc n) = let rest = full_bytes n in rw (pow-succ' 256 n) (omega (arith, rest))

-- a byte that holds the sign, and zeros or ones above it
EdgeLaw : ℕ → Type 0
EdgeLaw t =
    (x v n : ℕ)
    → x < 256
    → (x / 2 ^ t % 2 ≡ (x + 256 * v) / 2 ^ t % 2) × (x % 2 ^ t ≡ (x + 256 * v) % 2 ^ t)

edge_law : (t : ℕ) → t < 8 → EdgeLaw t
unfolding EdgeLaw
edge_law zero h = λ x v n b. (omega arith, omega arith)
edge_law (suc t) h =
    each_shift EdgeLaw (λ x v n b. (omega arith, omega arith))
      (λ x v n b. (omega arith, omega arith)) (λ x v n b. (omega arith, omega arith))
      (λ x v n b. (omega arith, omega arith)) (λ x v n b. (omega arith, omega arith))
      (λ x v n b. (omega arith, omega arith)) (λ x v n b. (omega arith, omega arith)) (suc t)
      (omega arith) h

-- the bytes that `sign_extend` makes of a sign in byte `k` with the weight 2^t
extended : ℕ → ℕ → List ℕ → List ℕ
extended k t dst =
    let x = get_or dst k 0 in
    take k dst ++ extended_byte (2 ^ t) x ∷ replicate (length dst - 1 - k) (fill_of (2 ^ t) x)

sign_extend_at :
    (k t : ℕ) (xs : List ℕ)
    → t < 8
    → k < length xs
    → sign_extend true (8 * k + t + 1) xs ≡ extended k t xs
unfolding sign_extend extended
sign_extend_at k t xs h in_range =
    let a : (length xs * 8 - (8 * k + t + 1)) / 8 ≡ length xs - 1 - k = omega arith in
    let b : (8 * k + t + 1 - 1) % 8 ≡ t = omega arith in
    let c : length xs - 1 - (length xs - 1 - k) ≡ k = omega arith in rw (a, b, c) refl

low_small : (t : ℕ) → t < 8 → 2 ^ t ≤ 128
low_small t h = pow-le-pow_right {n = 2} (omega arith) {i = t} {j = 7} (omega arith)

part_fits : (k t n : ℕ) → t < 8 → k < n → 256 ^ k * 2 ^ t ≤ 256 ^ n
part_fits k t n h less =
    let one : 256 ^ k * 2 ^ t ≤ 256 ^ k * 256 =
      mul-le-mul_left (256 ^ k) (omega (arith, low_small t h)) in
    let two : 256 ^ suc k ≤ 256 ^ n =
      pow-le-pow_right {n = 256} (omega arith) {i = suc k} {j = n} less in
    let three = pow-suc 256 k in omega arith

-- two's complement, one byte up
signed_step :
    (x v p size : ℕ)
    → x < 256
    → 0 < p
    → p ≤ size
    → signed_in (256 * size) (256 * p) (x + 256 * v) ≡ x + 256 * signed_in size p v
unfolding signed_in
signed_step x v p size h pos fits =
    let off : (x + 256 * v) / 256 ≡ v = omega arith in
    let quotient : (x + 256 * v) / (256 * p) ≡ v / p =
      sym (div-div-eq-div-mul (x + 256 * v) 256 p) ∙ ap (λ n. n / p) off in
    rw (quotient, scale_mod x v p h pos)
      (elim (Bool-cases (v / p % 2 == 1)) [
        | inl one ↦ rw one (omega arith)
        | inr other ↦ rw other refl
      ])

signed_edge :
    (t x n v : ℕ)
    → t < 8
    → x < 256
    → extended_byte (2 ^ t) x + 256 * le_value (replicate n (fill_of (2 ^ t) x))
      ≡ signed_in (256 * 256 ^ n) (2 ^ t) (x + 256 * v)
unfolding extended_byte fill_of signed_in EdgeLaw
signed_edge t x n v h b =
    let (sign, low) = edge_law t h x v n b in
    let some_bytes = one-le-pow n 256 (omega arith) in
    rw (sym sign, sym low)
      (elim (Bool-cases (x / 2 ^ t % 2 == 1)) [
        | inl one ↦ rw one (omega (arith, full_bytes n, low_small t h, some_bytes))
        | inr other ↦ rw other (omega (arith, zero_bytes n))
      ])

le_value-extended :
    (k t : ℕ) (xs : List ℕ)
    → t < 8
    → k < length xs
    → All IsByte xs
    → le_value (extended k t xs) ≡ signed_in (256 ^ length xs) (256 ^ k * 2 ^ t) (le_value xs)
unfolding extended le_value
le_value-extended k t [] h in_range a = absurd (omega arith)
le_value-extended zero t (x ∷ xs) h in_range (b, bs) =
    let same : suc (length xs) - 1 - 0 ≡ length xs = omega arith in
    let unit : 1 * 2 ^ t ≡ 2 ^ t = omega arith in
    rw (same, unit, pow-succ' 256 (length xs)) (signed_edge t x (length xs) (le_value xs) h b)
le_value-extended (suc k) t (x ∷ xs) h in_range (b, bs) =
    let rest = le_value-extended k t xs h (omega arith) bs in
    let same : suc (length xs) - 1 - suc k ≡ length xs - 1 - k = omega arith in
    let p = 256 ^ k * 2 ^ t in
    rw (same, pow-succ' 256 (length xs), pow-succ' 256 k, mul_assoc 256 (256 ^ k) (2 ^ t))
      (ap (λ v. x + 256 * v) rest
        ∙ sym (
            signed_step x (le_value xs) p (256 ^ length xs) b (part_pos k t)
              (part_fits k t (length xs) h (omega arith))))

-- Sign extension gives the two's complement of the low bits in the whole sample.
pub le_value-sign_extend :
    (bits : ℕ) (xs : List ℕ)
    → 0 < bits
    → bits ≤ 8 * length xs
    → All IsByte xs
    → le_value (sign_extend true bits xs)
      ≡ signed_in (256 ^ length xs) (2 ^ (bits - 1)) (le_value xs)
le_value-sign_extend bits xs some_bits fits a =
    let k = (bits - 1) / 8 in
    let t = (bits - 1) % 8 in
    let parts : bits ≡ 8 * k + t + 1 = omega arith in
    ap (λ n. le_value (sign_extend true n xs)) parts
    ∙ ap le_value (sign_extend_at k t xs (omega arith) (omega arith))
    ∙ le_value-extended k t xs (omega arith) (omega arith) a
    ∙ ap (λ p. signed_in (256 ^ length xs) p (le_value xs)) (sym (pow_split (bits - 1)))
