-- ===== src/Channel/Sample.antt =====
-- `iio_channel_convert` and `iio_channel_convert_inverse` in channel.c, on one sample of a little-endian host.
use libiio.Prelude.{
  ℕ, zero, suc, ◌+◌, ◌-◌, ◌*◌, ◌/◌, ◌%◌, ◌^◌, ◌≤◌, ◌<◌, ◌≡◌, refl, sym, ap, ◌∙◌, ◌==◌, ==→eq, true,
  false, not, ◌||◌, if◌then◌else◌, if_elim, List, [], ◌∷◌, ◌++◌, length, take, drop, replicate,
  get_or, set, All, arith, Bool-cases, inl, inr, length-append, append_nil, append_assoc,
  length-take, length-drop, length-set,
}
use native.Mathlib.Nat.{
  mod-le, mod-lt, one-le-pow, pow-succ', suc-add, zero-add, mul_assoc, add-zero, pow-le-pow_right,
  mul-lt-mul_of_pos_right, mul-div_cancel,
}
use libiio.Channel.{
  DataFormat, zeros_of, down, ascending, move_to_front, shift_bits, byte_swap, cut, mask_upper_bits,
  sign_extend, convert_sample, convert_inverse_sample,
}
use libiio.Channel.Value.{
  pow_parts, le_value, IsByte, each_shift, bytes-append, bytes-replicate, bytes-take,
  bytes-move_to_front, le_value-shift_bits_down,
}
use libiio.Channel.Mask.{le_value-mask_upper_bits}
use libiio.Channel.Sign.{signed_in, le_value-sign_extend}
use libiio.Channel.Convert.{shift_bits_up, IsRaised, length-zeros}

-- the number that a format takes out of a container of `len` bytes, at its shift
unfoldable pub number_of : DataFormat → ℕ → ℕ → ℕ
number_of f len v =
    if f.is_fully_defined
    then v
    else if f.is_signed
    then signed_in (256 ^ len) (2 ^ (f.bits - 1)) v
    else v % 2 ^ f.bits

-- bytes of the same number: what the steps of a conversion keep
unfoldable SameShape : List ℕ → List ℕ → Type 0
SameShape xs ys = All IsByte ys × (length ys ≡ length xs)

shape_same : (xs : List ℕ) → All IsByte xs → SameShape xs xs
unfolding SameShape
shape_same xs a = (a, refl)

shape_then :
    (xs ys zs : List ℕ) → SameShape xs ys → (All IsByte ys → SameShape ys zs) → SameShape xs zs
unfolding SameShape
shape_then xs ys zs (bytes, size) next = let (bytes', size') = next bytes in (bytes', size' ∙ size)

byte_swap-append : (xs ys : List ℕ) → byte_swap (xs ++ ys) ≡ byte_swap ys ++ byte_swap xs
unfolding byte_swap
byte_swap-append [] ys = sym (append_nil (byte_swap ys))
byte_swap-append (x ∷ xs) ys =
    rw (byte_swap-append xs ys) (append_assoc (byte_swap ys) (byte_swap xs) (x ∷ []))

byte_swap_twice : (xs : List ℕ) → byte_swap (byte_swap xs) ≡ xs
unfolding byte_swap
byte_swap_twice [] = refl
byte_swap_twice (x ∷ xs) =
    byte_swap-append (byte_swap xs) (x ∷ []) ∙ ap (λ ys. x ∷ ys) (byte_swap_twice xs)

shape-byte_swap : (xs : List ℕ) → All IsByte xs → SameShape xs (byte_swap xs)
unfolding byte_swap SameShape
shape-byte_swap [] a = (tt, refl)
shape-byte_swap (x ∷ xs) (b, bs) =
    let (bytes, size) = shape-byte_swap xs bs in
    (
      bytes-append (byte_swap xs) (x ∷ []) bytes (b, tt),
      length-append (byte_swap xs) (x ∷ []) ∙ omega (arith, size),
    )

DownByte : ℕ → Type 0
DownByte s = (x y : ℕ) → x < 256 → down s x y < 256

down_byte : (s : ℕ) → 0 < s → s < 8 → DownByte s
unfolding DownByte
down_byte =
    each_shift DownByte (λ x y h. omega arith) (λ x y h. omega arith) (λ x y h. omega arith)
      (λ x y h. omega arith) (λ x y h. omega arith) (λ x y h. omega arith) (λ x y h. omega arith)

shape-ascending :
    (xs : List ℕ) (s : ℕ) → 0 < s → s < 8 → All IsByte xs → SameShape xs (ascending (down s) xs)
unfolding ascending SameShape DownByte
shape-ascending [] s p q a = (tt, refl)
shape-ascending (x ∷ []) s p q (b, _) = ((down_byte s p q x 0 b, tt), refl)
shape-ascending (x ∷ y ∷ ys) s p q (b, bs) =
    let (bytes, size) = shape-ascending (y ∷ ys) s p q bs in
    ((down_byte s p q x y b, bytes), ap suc size)

shape-move_to_front :
    (n : ℕ) (xs : List ℕ) → n ≤ length xs → All IsByte xs → SameShape xs (move_to_front n xs)
unfolding move_to_front SameShape
shape-move_to_front n xs fits a = (
  bytes-move_to_front n xs a,
  length-append (drop n xs) (replicate n 0) ∙ omega (arith, length-drop n xs, length-zeros n),
)

shape_down :
    (shift : ℕ) (xs : List ℕ)
    → shift ≤ 8 * length xs
    → All IsByte xs
    → SameShape xs (shift_bits true shift false xs)
unfolding shift_bits
shape_down shift xs fits a =
    let n = shift / 8 in
    let s = shift % 8 in
    let moved : SameShape xs (if n == 0 then xs else move_to_front n xs) =
      if_elim (SameShape xs) (n == 0) (λ _. shape_same xs a)
        (λ _. shape-move_to_front n xs (omega arith) a) in
    if_elim (SameShape xs) (s == 0) (λ _. moved)
      (λ nz.
        shape_then xs _ _ moved (λ b. shape-ascending _ s (ground (arith, nz)) (omega arith) b))

bytes-set : (xs : List ℕ) (i x : ℕ) → x < 256 → All IsByte xs → All IsByte (set xs i x)
bytes-set [] i x b a = tt
bytes-set (y ∷ ys) zero x b (_, a) = (b, a)
bytes-set (y ∷ ys) (suc i) x b (c, a) = (c, bytes-set ys i x b a)

byte_at : (xs : List ℕ) (i : ℕ) → All IsByte xs → get_or xs i 0 < 256
byte_at [] i a = omega arith
byte_at (x ∷ xs) zero (b, _) = b
byte_at (x ∷ xs) (suc i) (_, a) = byte_at xs i a

shape-cut : (s i : ℕ) (xs : List ℕ) → All IsByte xs → SameShape xs (cut s i xs)
unfolding cut SameShape
shape-cut s i xs a =
    if_elim (SameShape xs) (s == 0) (λ _. (a, refl))
      (λ _. (
        bytes-set xs i _ (omega (arith, mod-le (get_or xs i 0) (2 ^ s), byte_at xs i a)) a,
        length-set xs i _,
      ))

shape-mask_upper_bits :
    (bits : ℕ) (xs : List ℕ)
    → bits ≤ 8 * length xs
    → All IsByte xs
    → SameShape xs (mask_upper_bits bits xs)
unfolding mask_upper_bits SameShape
shape-mask_upper_bits bits xs fits a =
    let m = (bits + 7) / 8 in
    let kept = cut (bits % 8) (bits / 8) xs in
    let (bytes, size) = shape-cut (bits % 8) (bits / 8) xs a in
    let rest = length xs - m in
    (
      bytes-append (take m kept) (zeros_of rest) (bytes-take m kept bytes) (bytes-replicate rest),
      length-append (take m kept) (zeros_of rest)
          ∙ omega (arith, length-take m kept, length-zeros rest, size),
    )

-- the bytes in the order of the host
unfoldable pub swapped : DataFormat → List ℕ → List ℕ
swapped f src = if length src == 1 || not f.is_be then src else byte_swap src

swapped-SameShape : (f : DataFormat) (src : List ℕ) → All IsByte src → SameShape src (swapped f src)
unfolding swapped
swapped-SameShape f src a =
    if_elim (SameShape src) (length src == 1 || not f.is_be) (λ _. shape_same src a)
      (λ _. shape-byte_swap src a)

swapped_twice : (f : DataFormat) (src : List ℕ) → All IsByte src → swapped f (swapped f src) ≡ src
unfolding swapped SameShape
swapped_twice f src a =
    let (_, size) = shape-byte_swap src a in
    elim (Bool-cases (length src == 1 || not f.is_be)) [
      | inl kept ↦ rw (kept, kept) refl
      | inr turned ↦ rw (turned, size, turned) (byte_swap_twice src)
    ]

-- the number in a container
lowered :
    (shift : ℕ) (xs : List ℕ)
    → shift ≤ 8 * length xs
    → All IsByte xs
    → let ys = if shift == 0 then xs else shift_bits true shift false xs in
      SameShape xs ys × (le_value ys ≡ le_value xs / 2 ^ shift)
lowered shift xs fits a =
    if_elim (λ ys. SameShape xs ys × (le_value ys ≡ le_value xs / 2 ^ shift)) (shift == 0)
      (λ z. let none : shift ≡ 0 = ==→eq shift 0 z in (shape_same xs a, rw none (omega arith)))
      (λ _. (shape_down shift xs fits a, le_value-shift_bits_down shift xs a))

extracted :
    (f : DataFormat) (xs : List ℕ)
    → 0 < f.bits
    → f.bits ≤ 8 * length xs
    → All IsByte xs
    → le_value (
        if f.is_fully_defined
        then xs
        else if f.is_signed
        then sign_extend true f.bits xs
        else mask_upper_bits f.bits xs)
      ≡ number_of f (length xs) (le_value xs)
unfolding number_of
extracted f xs some_bits fits a = elim (Bool-cases f.is_fully_defined) [
  | inl whole ↦ rw whole refl
  | inr part ↦ rw part (elim (Bool-cases f.is_signed) [
    | inl signed ↦ rw signed (le_value-sign_extend f.bits xs some_bits fits a)
    | inr unsigned ↦ rw unsigned (le_value-mask_upper_bits f.bits xs fits a)
  ])
]

-- On a little-endian host, a sample of bytes whose format fits into it is converted to the number that stands in
-- the container, in its own byte order, at the shift: cut to the bits of the format, as two's complement if it is
-- signed, or whole if it is fully defined.
pub le_value-convert_sample :
    (f : DataFormat) (src : List ℕ)
    → 0 < f.bits
    → f.bits ≤ 8 * length src
    → f.shift ≤ 8 * length src
    → All IsByte src
    → le_value (convert_sample true f src)
      ≡ number_of f (length src) (le_value (swapped f src) / 2 ^ f.shift)
unfolding convert_sample swapped SameShape
le_value-convert_sample f src some_bits fits room a =
    let (bytes, size) = swapped-SameShape f src a in
    let ((bytes', size'), value) = lowered f.shift (swapped f src) (omega arith) bytes in
    extracted f _ some_bits (omega arith) bytes' ∙ rw (value, size' ∙ size) refl

pow_sum : (m n : ℕ) → 2 ^ (m + n) ≡ 2 ^ m * 2 ^ n
pow_sum zero n = ap (λ e. 2 ^ e) (zero-add n) ∙ omega arith
pow_sum (suc m) n =
    let up_one : 2 ^ (suc m + n) ≡ 2 ^ suc (m + n) = ap (λ e. 2 ^ e) (suc-add m n) in
    up_one ∙ pow-succ' 2 (m + n) ∙ rw (pow_sum m n, pow-succ' 2 m, mul_assoc 2 (2 ^ m) (2 ^ n)) refl

room_above :
    (bits shift len v : ℕ) → v < 2 ^ bits → bits + shift ≤ 8 * len → v * 2 ^ shift < 256 ^ len
room_above bits shift len v small fits =
    let top = pow_sum bits shift in
    let bytes : 2 ^ (8 * len) ≡ 256 ^ len =
      ap (λ e. 2 ^ e) (sym (add-zero (8 * len))) ∙ pow_parts len 0 ∙ omega arith in
    let more = pow-le-pow_right {n = 2} (omega arith) {i = bits + shift} {j = 8 * len} fits in
    let times : v * 2 ^ shift < 2 ^ bits * 2 ^ shift =
      mul-lt-mul_of_pos_right small (one-le-pow shift 2 (omega arith)) in
    omega arith

-- the container that a number is put into
raised :
    (shift : ℕ) (xs : List ℕ)
    → shift ≤ 8 * length xs
    → le_value xs * 2 ^ shift < 256 ^ length xs
    → All IsByte xs
    → IsRaised shift xs (if shift == 0 then xs else shift_bits true shift true xs)
raised shift xs fits small a =
    if_elim (IsRaised shift xs) (shift == 0)
      (λ z.
        let none : shift ≡ 0 = ==→eq shift 0 z in
        record { value = rw none (omega arith); bytes = a; size = refl })
      (λ _. shift_bits_up shift xs fits small a)

-- what the conversion back puts into a container, before the bytes are turned
contained : DataFormat → List ℕ → List ℕ
contained f src =
    let masked = mask_upper_bits f.bits src in
    if f.shift == 0 then masked else shift_bits true f.shift true masked

contained_number :
    (f : DataFormat) (src : List ℕ)
    → f.bits + f.shift ≤ 8 * length src
    → All IsByte src
    → SameShape src (contained f src)
      × (le_value (contained f src) ≡ le_value src % 2 ^ f.bits * 2 ^ f.shift)
unfolding contained SameShape
contained_number f src fits a =
    let (bytes, size) = shape-mask_upper_bits f.bits src (omega arith) a in
    let masked = le_value-mask_upper_bits f.bits src (omega arith) a in
    let small = mod-lt (le_value src) (one-le-pow f.bits 2 (omega arith)) in
    let room = room_above f.bits f.shift (length src) (le_value src % 2 ^ f.bits) small fits in
    let top =
      raised f.shift (mask_upper_bits f.bits src) (omega arith) (rw (masked, size) room) bytes in
    ((top.bytes, top.size ∙ size), top.value ∙ rw masked refl)

in_order :
    (f : DataFormat) (src c : List ℕ)
    → length c ≡ length src
    → (if length src == 1 || not f.is_be then c else byte_swap c) ≡ swapped f c
unfolding swapped
in_order f src c size = rw size refl

convert_inverse_sample_lem :
    (f : DataFormat) (src : List ℕ)
    → length (contained f src) ≡ length src
    → convert_inverse_sample true f src ≡ swapped f (contained f src)
unfolding convert_inverse_sample contained
convert_inverse_sample_lem f src size = in_order f src _ size

-- On a little-endian host, where bits and shift fit into the sample, a number converted to a channel's format and
-- back is the number that the format makes of its low bits.
pub convert_sample-convert_inverse_sample :
    (f : DataFormat) (src : List ℕ)
    → 0 < f.bits
    → f.bits + f.shift ≤ 8 * length src
    → All IsByte src
    → le_value (convert_sample true f (convert_inverse_sample true f src))
      ≡ number_of f (length src) (le_value src % 2 ^ f.bits)
unfolding SameShape
convert_sample-convert_inverse_sample f src some_bits fits a =
    let ((bytes, size), value) = contained_number f src fits a in
    let (bytes', size') = swapped-SameShape f (contained f src) bytes in
    let turned = swapped_twice f (contained f src) bytes in
    rw (convert_inverse_sample_lem f src size) (
      le_value-convert_sample f (swapped f (contained f src)) some_bits (omega arith) (omega arith)
        bytes'
      ∙ rw
          (
            size',
            size,
            turned,
            value,
            mul-div_cancel (le_value src % 2 ^ f.bits) (one-le-pow f.shift 2 (omega arith)),
          )
          refl)
