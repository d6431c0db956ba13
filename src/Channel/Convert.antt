-- ===== src/Channel/Convert.antt =====
-- The conversion of one sample in channel.c, there and back, on a little-endian host.
use libiio.Prelude.{
  ℕ, zero, suc, ◌+◌, ◌-◌, ◌*◌, ◌/◌, ◌%◌, ◌^◌, ◌≤◌, ◌<◌, ◌≡◌, refl, sym, ap, ◌∙◌, ◌==◌, ==→eq, true,
  if◌then◌else◌, if_elim, List, [], ◌∷◌, length, take, drop, replicate, All, arith, Bool-cases, inl,
  inr, length-append, length-take, take-append-drop,
}
use native.Mathlib.Nat.{
  zero-add, suc-add, zero-div, mul_left_comm, mul_assoc, mul_comm, pow-succ', mul-le-mul_left,
  one-le-pow,
}
use libiio.Channel.{zeros_of, up, descending, move_to_back, shift_bits}
use libiio.Channel.Value.{
  le_value, IsByte, each_shift, le_value-append, le_value-descending, last_byte, zero_bytes,
  bytes-append, bytes-replicate, bytes-take, pow_split,
}

-- a sample that is small stands in its first bytes
take_small :
    (m : ℕ) (xs : List ℕ)
    → m ≤ length xs
    → le_value xs < 256 ^ m
    → le_value (take m xs) ≡ le_value xs
take_small m xs fits small =
    let whole = le_value-append (take m xs) (drop m xs) in
    let size : length (take m xs) ≡ m = omega (arith, length-take m xs) in
    let split : le_value xs ≡ le_value (take m xs) + 256 ^ m * le_value (drop m xs) =
      ap le_value (sym (take-append-drop m xs)) ∙ rw size at whole in
    elim (Bool-cases (le_value (drop m xs) == 0)) [
      | inl z ↦
          (let none_left : le_value (drop m xs) ≡ 0 = ==→eq (le_value (drop m xs)) 0 z in
            sym (rw none_left at split ∙ omega arith))
      | inr nz ↦
          (let some_left : 256 ^ m * 1 ≤ 256 ^ m * le_value (drop m xs) =
              mul-le-mul_left (256 ^ m) (ground (arith, nz)) in
            absurd (omega arith))
    ]

-- the bound of a sample moved up by whole bytes
moved_bound : (n m v : ℕ) → v * 256 ^ n < 256 ^ (n + m) → v < 256 ^ m
moved_bound zero m v h =
    let same : 256 ^ (0 + m) ≡ 256 ^ m = ap (λ (e : ℕ). 256 ^ e) (zero-add m) in omega arith
moved_bound (suc n) m v h =
    let same : 256 ^ (suc n + m) ≡ 256 ^ suc (n + m) = ap (λ (e : ℕ). 256 ^ e) (suc-add n m) in
    let one = pow-succ' 256 (n + m) in
    let two = pow-succ' 256 n in
    let three : v * 256 ^ suc n ≡ 256 * (v * 256 ^ n) = rw two (mul_left_comm v 256 (256 ^ n)) in
    moved_bound n m v (omega arith)

pub length-zeros : (n : ℕ) → length (zeros_of n) ≡ n
length-zeros zero = refl
length-zeros (suc n) = ap suc (length-zeros n)

le_value-move_to_back :
    (n : ℕ) (xs : List ℕ)
    → n ≤ length xs
    → le_value xs * 256 ^ n < 256 ^ length xs
    → le_value (move_to_back n xs) ≡ le_value xs * 256 ^ n
unfolding move_to_back
le_value-move_to_back n xs fits small =
    let m = length xs - n in
    let size : length xs ≡ n + m = omega arith in
    let low = moved_bound n m (le_value xs) (rw⁻¹ size small) in
    let back = le_value-append (replicate n 0) (take m xs) in
    let zeros = zero_bytes n in
    let count = length-zeros n in
    let kept = take_small m xs (omega arith) low in
    rw (zeros, count, kept) at back ∙ omega (arith, mul_comm (256 ^ n) (le_value xs))

bytes-move_to_back : (n : ℕ) (xs : List ℕ) → All IsByte xs → All IsByte (move_to_back n xs)
unfolding move_to_back
bytes-move_to_back n xs a =
    bytes-append (replicate n 0) (take (length xs - n) xs) (bytes-replicate n)
      (bytes-take (length xs - n) xs a)

length-move_to_back : (n : ℕ) (xs : List ℕ) → n ≤ length xs → length (move_to_back n xs) ≡ length xs
unfolding move_to_back
length-move_to_back n xs h =
    length-append (replicate n 0) (take (length xs - n) xs)
    ∙ omega (arith, length-zeros n, length-take (length xs - n) xs)

ByteLaw : ℕ → Type 0
ByteLaw s = (x p : ℕ) → x < 256 → p < 256 → up s x p < 256

byte_law : (s : ℕ) → 0 < s → s < 8 → ByteLaw s
unfolding ByteLaw
byte_law =
    each_shift ByteLaw (λ x p h k. omega arith) (λ x p h k. omega arith) (λ x p h k. omega arith)
      (λ x p h k. omega arith) (λ x p h k. omega arith) (λ x p h k. omega arith)
      (λ x p h k. omega arith)

bytes-descending :
    (xs : List ℕ) (s p : ℕ)
    → 0 < s
    → s < 8
    → p < 256
    → All IsByte xs
    → All IsByte (descending (up s) p xs)
unfolding descending ByteLaw
bytes-descending [] s p h k b a = tt
bytes-descending (x ∷ xs) s p h k b (c, a) =
    (byte_law s h k x p c b, bytes-descending xs s x h k c a)

length-descending :
    (xs : List ℕ) (merge : ℕ → ℕ → ℕ) (p : ℕ) → length (descending merge p xs) ≡ length xs
unfolding descending
length-descending [] merge p = refl
length-descending (x ∷ xs) merge p = ap suc (length-descending xs merge x)

-- without an overflow the loop that shifts up multiplies
descending-up :
    (s : ℕ) (xs : List ℕ)
    → 0 < s
    → s < 8
    → All IsByte xs
    → le_value xs * 2 ^ s < 256 ^ length xs
    → le_value (descending (up s) 0 xs) ≡ le_value xs * 2 ^ s
descending-up s xs h k a small =
    let law = le_value-descending xs s 0 h k a in
    let none_in : 0 / 2 ^ (8 - s) ≡ 0 = zero-div (2 ^ (8 - s)) in
    let carry = last_byte 0 xs / 2 ^ (8 - s) in
    elim (Bool-cases (carry == 0)) [
      | inl z ↦
          (let none_out : carry ≡ 0 = ==→eq carry 0 z in
            omega (arith, law, none_in, rw none_out at law))
      | inr nz ↦
          (let some_out : 256 ^ length xs * 1 ≤ 256 ^ length xs * carry =
              mul-le-mul_left (256 ^ length xs) (ground (arith, nz)) in
            absurd (omega (arith, law, none_in)))
    ]

-- what a shift up leaves
pub record IsRaised (shift : ℕ) (xs ys : List ℕ) : Type 0 where
  pub value : le_value ys ≡ le_value xs * 2 ^ shift
  pub bytes : All IsByte ys
  pub size : length ys ≡ length xs

moved_up :
    (n : ℕ) (xs : List ℕ)
    → n ≤ length xs
    → le_value xs * 256 ^ n < 256 ^ length xs
    → All IsByte xs
    → let ys = if n == 0 then xs else move_to_back n xs in
      (le_value ys ≡ le_value xs * 256 ^ n) × All IsByte ys × (length ys ≡ length xs)
moved_up n xs fits small a =
    if_elim (λ ys. (le_value ys ≡ le_value xs * 256 ^ n) × All IsByte ys × (length ys ≡ length xs))
      (n == 0) (λ z. let none_moved : n ≡ 0 = ==→eq n 0 z in (rw none_moved (omega arith), a, refl))
      (λ _. (
        le_value-move_to_back n xs fits small,
        bytes-move_to_back n xs a,
        length-move_to_back n xs fits,
      ))

-- Shifting a sample up multiplies its number, if there is room.
pub shift_bits_up :
    (shift : ℕ) (xs : List ℕ)
    → shift ≤ 8 * length xs
    → le_value xs * 2 ^ shift < 256 ^ length xs
    → All IsByte xs
    → IsRaised shift xs (shift_bits true shift true xs)
unfolding shift_bits
shift_bits_up shift xs fits small a =
    let n = shift / 8 in
    let s = shift % 8 in
    let split = pow_split shift in
    let product : le_value xs * 2 ^ shift ≡ le_value xs * 256 ^ n * 2 ^ s =
      ap (λ p. le_value xs * p) split ∙ sym (mul_assoc (le_value xs) (256 ^ n) (2 ^ s)) in
    let grows : le_value xs * 256 ^ n * 1 ≤ le_value xs * 256 ^ n * 2 ^ s =
      mul-le-mul_left (le_value xs * 256 ^ n) (one-le-pow s 2 (omega arith)) in
    let (value, bytes, size) = moved_up n xs (omega arith) (omega arith) a in
    if_elim (IsRaised shift xs) (s == 0)
      (λ z.
        let no_bits : s ≡ 0 = ==→eq s 0 z in
        record {
          value = value ∙ sym (rw no_bits at product ∙ omega arith);
          bytes = bytes;
          size = size;
        })
      (λ nz.
        let some_bits : 0 < s = ground (arith, nz) in
        let below : s < 8 = omega arith in
        let room : le_value xs * 256 ^ n * 2 ^ s < 256 ^ length xs = omega arith in
        record {
          value =
              descending-up s _ some_bits below bytes (rw (value, size) room)
              ∙ rw value (sym product);
          bytes = bytes-descending _ s 0 some_bits below (omega arith) bytes;
          size = length-descending _ (up s) 0 ∙ size;
        })
