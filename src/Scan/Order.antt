-- ===== src/Scan/Order.antt =====
-- The comparisons of sort.c order texts and contexts.
use libiio.Prelude.{
  ℕ, ◌≡◌, refl, ap₂, ◌⊎◌, ltb, ◌&&◌, if◌then◌else◌, List, [], ◌∷◌, arith, inl, inr,
}
use libiio.Scan.{
  Sign, precedes, equals, follows, is_equal, or_then, strcmp, ContextInfo, order, is_duplicate,
}

-- the comparison of two texts the other way around
abbrev pub turned : Sign → Sign
turned precedes = follows
turned equals = equals
turned follows = precedes

-- comparing two numbers, then the rest
by_number : ℕ → ℕ → Sign → Sign
by_number x y rest = if ltb x y then precedes else if ltb y x then follows else rest

by_number-turned :
    (x y : ℕ) (r s : Sign) → r ≡ turned s → by_number x y r ≡ turned (by_number y x s)
unfolding by_number
by_number-turned x y r s e = ground (arith, e)

by_number_trans :
    (x y z : ℕ) (r s t : Sign)
    → (r ≡ precedes → s ≡ precedes → t ≡ precedes)
    → by_number x y r ≡ precedes
    → by_number y z s ≡ precedes
    → by_number x z t ≡ precedes
unfolding by_number
by_number_trans x y z r s t step h k = ground (arith, h, k, step)

by_number_equal : (x y : ℕ) (r : Sign) → by_number x y r ≡ equals → (x ≡ y) × (r ≡ equals)
unfolding by_number
by_number_equal x y r h = (ground (arith, h), ground (arith, h))

both : (a b : Sign) → (is_equal a && is_equal b) ≡ is_equal (or_then a b)
unfolding or_then
both precedes b = refl
both equals b = refl
both follows b = refl

or_then-turned :
    (a a' b b' : Sign) → a ≡ turned a' → b ≡ turned b' → or_then a b ≡ turned (or_then a' b')
unfolding or_then
or_then-turned a precedes b b' h k = rw h refl
or_then-turned a equals b b' h k = rw h k
or_then-turned a follows b b' h k = rw h refl

or_then_equal : (a b : Sign) → or_then a b ≡ equals → (a ≡ equals) × (b ≡ equals)
unfolding or_then
or_then_equal precedes b h = absurd (ground (arith, h))
or_then_equal equals b h = (refl, h)
or_then_equal follows b h = absurd (ground (arith, h))

strcmp_refl : (xs : List ℕ) → strcmp xs xs ≡ equals
unfolding strcmp
strcmp_refl [] = refl
strcmp_refl (x ∷ xs) = ground (arith, strcmp_refl xs)

strcmp-turned : (xs ys : List ℕ) → strcmp xs ys ≡ turned (strcmp ys xs)
unfolding strcmp by_number
strcmp-turned [] [] = refl
strcmp-turned [] (y ∷ ys) = refl
strcmp-turned (x ∷ xs) [] = refl
strcmp-turned (x ∷ xs) (y ∷ ys) =
    by_number-turned x y (strcmp xs ys) (strcmp ys xs) (strcmp-turned xs ys)

strcmp_trans :
    (xs ys zs : List ℕ)
    → strcmp xs ys ≡ precedes
    → strcmp ys zs ≡ precedes
    → strcmp xs zs ≡ precedes
unfolding strcmp by_number
strcmp_trans [] [] zs h k = k
strcmp_trans [] (y ∷ ys) [] h k = absurd (ground (arith, k))
strcmp_trans [] (y ∷ ys) (z ∷ zs) h k = refl
strcmp_trans (x ∷ xs) [] zs h k = absurd (ground (arith, h))
strcmp_trans (x ∷ xs) (y ∷ ys) [] h k = k
strcmp_trans (x ∷ xs) (y ∷ ys) (z ∷ zs) h k =
    by_number_trans x y z (strcmp xs ys) (strcmp ys zs) (strcmp xs zs) (strcmp_trans xs ys zs) h k

strcmp_equal : (xs ys : List ℕ) → strcmp xs ys ≡ equals → xs ≡ ys
unfolding strcmp by_number
strcmp_equal [] [] h = refl
strcmp_equal [] (y ∷ ys) h = absurd (ground (arith, h))
strcmp_equal (x ∷ xs) [] h = absurd (ground (arith, h))
strcmp_equal (x ∷ xs) (y ∷ ys) h =
    let (head, tail) = by_number_equal x y (strcmp xs ys) h in
    rw (head, strcmp_equal xs ys tail) refl

-- Contexts are ordered by their texts, and equal if both texts are.
pub order_refl : (x : ContextInfo) → order x x ≡ equals
unfolding order or_then
order_refl x = rw (strcmp_refl x.uri) (strcmp_refl x.description)

pub order-turned : (x y : ContextInfo) → order x y ≡ turned (order y x)
unfolding order or_then
order-turned x y =
    or_then-turned (strcmp x.uri y.uri) (strcmp y.uri x.uri) (strcmp x.description y.description)
      (strcmp y.description x.description) (strcmp-turned x.uri y.uri)
      (strcmp-turned x.description y.description)

pub order_equal : (x y : ContextInfo) → order x y ≡ equals → x ≡ y
unfolding order
order_equal x y h =
    let (u, d) = or_then_equal (strcmp x.uri y.uri) (strcmp x.description y.description) h in
    ap₂ (λ (d' u' : List ℕ). record { description = d'; uri = u' })
      (strcmp_equal x.description y.description d) (strcmp_equal x.uri y.uri u)

or_then_precedes :
    (a b : Sign) → or_then a b ≡ precedes → (a ≡ precedes) ⊎ ((a ≡ equals) × (b ≡ precedes))
unfolding or_then
or_then_precedes precedes b h = inl refl
or_then_precedes equals b h = inr (refl, h)
or_then_precedes follows b h = absurd (ground (arith, h))

first_precedes : (a b : Sign) → a ≡ precedes → or_then a b ≡ precedes
unfolding or_then
first_precedes a b h = rw h refl

second_precedes : (a b : Sign) → a ≡ equals → b ≡ precedes → or_then a b ≡ precedes
unfolding or_then
second_precedes a b h k = rw h k

pub order_trans :
    (x y z : ContextInfo) → order x y ≡ precedes → order y z ≡ precedes → order x z ≡ precedes
unfolding order
order_trans x y z h k =
    let near = or_then_precedes (strcmp x.uri y.uri) (strcmp x.description y.description) h in
    let far = or_then_precedes (strcmp y.uri z.uri) (strcmp y.description z.description) k in
    let d = strcmp x.description z.description in
    elim near [
      | inl before ↦ first_precedes _ d (elim far [
        | inl next ↦ strcmp_trans x.uri y.uri z.uri before next
        | inr (level, _) ↦ rw⁻¹ (strcmp_equal y.uri z.uri level) before
      ])
      | inr (level, below) ↦ elim far [
        | inl next ↦ first_precedes _ d (rw (strcmp_equal x.uri y.uri level) next)
        | inr (level', below') ↦
            second_precedes _ d (rw (strcmp_equal x.uri y.uri level) level')
              (strcmp_trans x.description y.description z.description below below')
      ]
    ]

-- the test for a duplicate is the comparison
pub is_duplicate_lem : (x y : ContextInfo) → is_duplicate x y ≡ is_equal (order x y)
unfolding is_duplicate order or_then
is_duplicate_lem x y = both (strcmp x.uri y.uri) (strcmp x.description y.description)
