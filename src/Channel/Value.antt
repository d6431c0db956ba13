-- ===== src/Channel/Value.antt =====
-- What the steps of the conversion in channel.c do to the number that a sample stands for, on a little-endian host.
use libiio.Prelude.{
  ℕ, zero, suc, ◌+◌, ◌-◌, ◌*◌, ◌/◌, ◌%◌, ◌^◌, ◌<◌, ◌≡◌, refl, sym, ap, ◌∙◌, ◌==◌, true, false,
  if◌then◌else◌, List, [], ◌∷◌, ◌++◌, length, take, drop, replicate, All, if_elim, ==→eq, arith,
}
use native.Mathlib.Nat.{zero-div, pow-succ', mul_assoc, div-div-eq-div-mul, div-one}
use libiio.Channel.{down, up, ascending, descending, move_to_front, shift_bits}

-- the number of little-endian bytes
unfoldable pub le_value : List ℕ → ℕ
le_value [] = 0
le_value (x ∷ xs) = x + 256 * le_value xs

abbrev pub IsByte : ℕ → Type 0
IsByte x = x < 256

-- a fact about the shifts that do not move whole bytes, one by one
module _ {ℓ} (P : ℕ → Type ℓ) (p1 : P 1) (p2 : P 2) (p3 : P 3) (p4 : P 4) (p5 : P 5) (p6 : P 6)
    (p7 : P 7) where
  pub each_shift : (s : ℕ) → 0 < s → s < 8 → P s
  each_shift zero h k = absurd (omega arith)
  each_shift (suc zero) h k = p1
  each_shift (suc (suc zero)) h k = p2
  each_shift (suc (suc (suc zero))) h k = p3
  each_shift (suc (suc (suc (suc zero)))) h k = p4
  each_shift (suc (suc (suc (suc (suc zero))))) h k = p5
  each_shift (suc (suc (suc (suc (suc (suc zero)))))) h k = p6
  each_shift (suc (suc (suc (suc (suc (suc (suc zero))))))) h k = p7
  each_shift (suc (suc (suc (suc (suc (suc (suc (suc n)))))))) h k = absurd (omega arith)

-- what two bytes hand down, and what a byte hands up
DownLaw : ℕ → Type 0
DownLaw s =
    (x y w : ℕ)
    → x < 256
    → y < 256
    → down s x y + 256 * ((y + 256 * w) / 2 ^ s) ≡ (x + 256 * (y + 256 * w)) / 2 ^ s

UpLaw : ℕ → Type 0
UpLaw s = (x : ℕ) → x < 256 → x * 2 ^ s % 256 + 256 * (x / 2 ^ (8 - s)) ≡ x * 2 ^ s

down_law : (s : ℕ) → 0 < s → s < 8 → DownLaw s
unfolding DownLaw
down_law =
    each_shift DownLaw (λ x y w p q. omega arith) (λ x y w p q. omega arith)
      (λ x y w p q. omega arith) (λ x y w p q. omega arith) (λ x y w p q. omega arith)
      (λ x y w p q. omega arith) (λ x y w p q. omega arith)

up_law : (s : ℕ) → 0 < s → s < 8 → UpLaw s
unfolding UpLaw
up_law =
    each_shift UpLaw (λ x p. omega arith) (λ x p. omega arith) (λ x p. omega arith)
      (λ x p. omega arith) (λ x p. omega arith) (λ x p. omega arith) (λ x p. omega arith)

le_value-ascending :
    (xs : List ℕ) (s : ℕ)
    → 0 < s
    → s < 8
    → All IsByte xs
    → le_value (ascending (down s) xs) ≡ le_value xs / 2 ^ s
unfolding le_value ascending DownLaw
le_value-ascending [] s p q b = sym (zero-div (2 ^ s))
le_value-ascending (x ∷ []) s p q (b, _) =
    let law = down_law s p q x 0 0 b (omega arith) in
    let none_left : 0 / 2 ^ s ≡ 0 = zero-div (2 ^ s) in rw none_left at law
le_value-ascending (x ∷ y ∷ ys) s p q (b, (c, bs)) =
    rw (le_value-ascending (y ∷ ys) s p q (c, bs)) (down_law s p q x y (le_value ys) b c)

-- the last byte, `p` if there is none
pub last_byte : ℕ → List ℕ → ℕ
last_byte p [] = p
last_byte p (x ∷ xs) = last_byte x xs

pub le_value-descending :
    (xs : List ℕ) (s p : ℕ)
    → 0 < s
    → s < 8
    → All IsByte xs
    → le_value (descending (up s) p xs) + 256 ^ length xs * (last_byte p xs / 2 ^ (8 - s))
      ≡ le_value xs * 2 ^ s + p / 2 ^ (8 - s)
unfolding le_value descending last_byte UpLaw
le_value-descending [] s p h k b = omega arith
le_value-descending (x ∷ xs) s p h k (b, bs) =
    let rest = le_value-descending xs s x h k bs in
    let law = up_law s h k x b in
    rw (pow-succ' 256 (length xs), mul_assoc 256 (256 ^ length xs) (last_byte x xs / 2 ^ (8 - s)))
      (omega (arith, rest, law))

pub zero_bytes : (n : ℕ) → le_value (replicate n 0) ≡ 0
unfolding le_value
zero_bytes zero = refl
zero_bytes (suc n) = rw (zero_bytes n) refl

pub le_value-append :
    (xs ys : List ℕ) → le_value (xs ++ ys) ≡ le_value xs + 256 ^ length xs * le_value ys
unfolding le_value
le_value-append [] ys = omega arith
le_value-append (x ∷ xs) ys =
    let rest = le_value-append xs ys in
    rw (pow-succ' 256 (length xs), mul_assoc 256 (256 ^ length xs) (le_value ys))
      (omega (arith, rest))

pub bytes-append : (xs ys : List ℕ) → All IsByte xs → All IsByte ys → All IsByte (xs ++ ys)
bytes-append [] ys a b = b
bytes-append (x ∷ xs) ys (h, a) b = (h, bytes-append xs ys a b)

pub bytes-replicate : (n : ℕ) → All IsByte (replicate n 0)
bytes-replicate zero = tt
bytes-replicate (suc n) = (omega arith, bytes-replicate n)

pub bytes-drop : (n : ℕ) (xs : List ℕ) → All IsByte xs → All IsByte (drop n xs)
bytes-drop zero xs a = a
bytes-drop (suc n) [] a = tt
bytes-drop (suc n) (x ∷ xs) (h, a) = bytes-drop n xs a

pub bytes-take : (n : ℕ) (xs : List ℕ) → All IsByte xs → All IsByte (take n xs)
bytes-take zero xs a = tt
bytes-take (suc n) [] a = tt
bytes-take (suc n) (x ∷ xs) (h, a) = (h, bytes-take n xs a)

le_value-drop : (n : ℕ) (xs : List ℕ) → All IsByte xs → le_value (drop n xs) ≡ le_value xs / 256 ^ n
unfolding le_value
le_value-drop zero xs a = omega arith
le_value-drop (suc n) [] a = sym (zero-div (256 ^ suc n))
le_value-drop (suc n) (x ∷ xs) (h, a) =
    let off : (x + 256 * le_value xs) / 256 ≡ le_value xs = omega arith in
    rw (pow-succ' 256 n, sym (div-div-eq-div-mul (x + 256 * le_value xs) 256 (256 ^ n)), off)
      (le_value-drop n xs a)

pub le_value-move_to_front :
    (n : ℕ) (xs : List ℕ) → All IsByte xs → le_value (move_to_front n xs) ≡ le_value xs / 256 ^ n
unfolding move_to_front
le_value-move_to_front n xs a =
    let front = le_value-append (drop n xs) (replicate n 0) in
    let none_left = zero_bytes n in omega (arith, rw none_left at front, le_value-drop n xs a)

pub bytes-move_to_front : (n : ℕ) (xs : List ℕ) → All IsByte xs → All IsByte (move_to_front n xs)
unfolding move_to_front
bytes-move_to_front n xs a =
    bytes-append (drop n xs) (replicate n 0) (bytes-drop n xs a) (bytes-replicate n)

-- 2^shift in whole bytes and the rest
pow_at : (a b : ℕ) → a ≡ b → 2 ^ a ≡ 2 ^ b
pow_at a b e = ap (λ n. 2 ^ n) e

pub pow_eight : (m : ℕ) → 2 ^ (m + 8) ≡ 256 * 2 ^ m
pow_eight m =
    let at = λ (k : ℕ). pow-succ' 2 (m + k) in
    let up_one = λ (k : ℕ). pow_at (m + suc k) (suc (m + k)) (omega arith) in
    omega (
      arith,
      at 0,
      at 1,
      at 2,
      at 3,
      at 4,
      at 5,
      at 6,
      at 7,
      up_one 0,
      up_one 1,
      up_one 2,
      up_one 3,
      up_one 4,
      up_one 5,
      up_one 6,
      up_one 7,
      pow_at (m + 0) m (omega arith),
    )

pub pow_parts : (n s : ℕ) → 2 ^ (8 * n + s) ≡ 256 ^ n * 2 ^ s
pow_parts zero s = pow_at (8 * 0 + s) s (omega arith) ∙ omega arith
pow_parts (suc n) s =
    let rest = pow_parts n s in
    let same : 8 * suc n + s ≡ 8 * n + s + 8 = omega arith in
    pow_at (8 * suc n + s) (8 * n + s + 8) same
    ∙ pow_eight (8 * n + s)
    ∙ rw (rest, pow-succ' 256 n, mul_assoc 256 (256 ^ n) (2 ^ s)) refl

pub pow_split : (shift : ℕ) → 2 ^ shift ≡ 256 ^ (shift / 8) * 2 ^ (shift % 8)
pow_split shift =
    let parts : shift ≡ 8 * (shift / 8) + shift % 8 = omega arith in
    pow_at shift (8 * (shift / 8) + shift % 8) parts ∙ pow_parts (shift / 8) (shift % 8)

-- the two steps of a shift down
Moved : ℕ → List ℕ → List ℕ → Type 0
Moved n xs ys = (le_value ys ≡ le_value xs / 256 ^ n) × All IsByte ys

Moved-down :
    (n : ℕ) (xs : List ℕ) → All IsByte xs → Moved n xs (if n == 0 then xs else move_to_front n xs)
unfolding Moved
Moved-down n xs a =
    if_elim (Moved n xs) (n == 0)
      (λ z. let none_moved : n ≡ 0 = ==→eq n 0 z in rw none_moved (omega arith, a))
      (λ _. (le_value-move_to_front n xs a, bytes-move_to_front n xs a))

-- Shifting a sample down divides its number.
pub le_value-shift_bits_down :
    (shift : ℕ) (xs : List ℕ)
    → All IsByte xs
    → le_value (shift_bits true shift false xs) ≡ le_value xs / 2 ^ shift
unfolding shift_bits Moved
le_value-shift_bits_down shift xs a =
    let (value, bytes) = Moved-down (shift / 8) xs a in
    let split = div-div-eq-div-mul (le_value xs) (256 ^ (shift / 8)) (2 ^ (shift % 8)) in
    let whole : le_value xs / 2 ^ shift ≡ le_value xs / 256 ^ (shift / 8) / 2 ^ (shift % 8) =
      ap (λ d. le_value xs / d) (pow_split shift) ∙ sym split in
    if_elim (λ ys. le_value ys ≡ le_value xs / 2 ^ shift) (shift % 8 == 0)
      (λ z.
        let none_left : shift % 8 ≡ 0 = ==→eq (shift % 8) 0 z in
        value ∙ sym (rw none_left at whole ∙ div-one (le_value xs / 256 ^ (shift / 8))))
      (λ nz.
        le_value-ascending _ (shift % 8) (ground (arith, nz)) (omega arith) bytes
        ∙ ap (λ v. v / 2 ^ (shift % 8)) value
        ∙ sym whole)
