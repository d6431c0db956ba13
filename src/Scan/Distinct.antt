-- ===== src/Scan/Distinct.antt =====
-- What the search of scan.c returns: every context that a backend found, once.
use native.Mathlib.Nat.{zero-add}
use libiio.Prelude.{
  ℕ, ◌+◌, ◌≡◌, ◌≢◌, refl, sym, ap, ◌∙◌, subst, ◌==◌, true, false, if◌then◌else◌, List, [], ◌∷◌,
  some, none, All, length, arith, Bool-cases, inl, inr,
}
use libiio.Scan.{
  Sign, precedes, equals, follows, is_equal, ContextInfo, Entry, Qsort, order, is_duplicate,
  context_info_compare, free_duplicates,
}
use libiio.Scan.Order.{order_refl, order_equal, order_trans, is_duplicate_lem}

-- the entries of an array, each counted by a weight
unfoldable pub total : (Entry → ℕ) → List Entry → ℕ
total weight [] = 0
total weight (e ∷ es) = weight e + total weight es

-- the weights that count a context, and the entries that still hold one
unfoldable pub holds : ContextInfo → Entry → ℕ
holds x none = 0
holds x (some y) = if is_duplicate x y then 1 else 0

unfoldable pub filled : Entry → ℕ
filled none = 0
filled (some y) = 1

unfoldable pub IsFilled : Entry → Type 0
IsFilled none = ⊥
IsFilled (some y) = Unit

unfoldable pub IsAscending : (Entry → Entry → Sign) → List Entry → Type 0
IsAscending c [] = Unit
IsAscending c (d ∷ []) = Unit
IsAscending c (d ∷ e ∷ es) = (c d e ≢ follows) × IsAscending c (e ∷ es)

-- a comparison that orders the entries of a kind
pub record IsConsistent (P : Entry → Type 0) (c : Entry → Entry → Sign) : Type 0 where
  pub turns : (d e : Entry) → P d → P e → c d e ≡ follows → c e d ≢ follows
  pub leads :
      (d e f : Entry) → P d → P e → P f → c d e ≢ follows → c e f ≢ follows → c d f ≢ follows

-- What the manual of `qsort` says for a comparison that orders the entries of the array consistently: it
-- rearranges them, and sorts them. It says nothing of other comparisons.
pub record IsQsort (qsort : Qsort) : Type 1 where
  pub rearranges :
      (P : Entry → Type 0) (c : Entry → Entry → Sign) (es : List Entry)
      → IsConsistent P c
      → All P es
      → (weight : Entry → ℕ) → total weight (qsort c es) ≡ total weight es
  pub sorts :
      (P : Entry → Type 0) (c : Entry → Entry → Sign) (es : List Entry)
      → IsConsistent P c
      → All P es
      → All P (qsort c es) × IsAscending c (qsort c es)

-- once if at all
abbrev pub at_most_once : ℕ → ℕ
at_most_once n = if n == 0 then 0 else 1

equal_sign : (r : Sign) → is_equal r ≡ true → r ≡ equals
equal_sign precedes h = absurd (ground (arith, h))
equal_sign equals h = refl
equal_sign follows h = absurd (ground (arith, h))

precedes_sign : (r : Sign) → r ≢ follows → is_equal r ≡ false → r ≡ precedes
precedes_sign precedes h k = refl
precedes_sign equals h k = absurd (ground (arith, k))
precedes_sign follows h k = absurd (h refl)

pub duplicates_equal : (x y : ContextInfo) → is_duplicate x y ≡ true → x ≡ y
duplicates_equal x y h = order_equal x y (equal_sign (order x y) (sym (is_duplicate_lem x y) ∙ h))

is_duplicate_self : (x : ContextInfo) → is_duplicate x x ≡ true
is_duplicate_self x = is_duplicate_lem x x ∙ ap is_equal (order_refl x)

below_apart : (x y : ContextInfo) → order x y ≡ precedes → is_duplicate x y ≡ false
below_apart x y h = is_duplicate_lem x y ∙ ap is_equal h

pub below_next :
    (x y : ContextInfo) → order x y ≢ follows → is_duplicate x y ≡ false → order x y ≡ precedes
below_next x y h apart = precedes_sign (order x y) h (sym (is_duplicate_lem x y) ∙ apart)

-- whoever is below a context is below the next
below_both :
    (x y z : ContextInfo) → order x y ≡ precedes → order y z ≢ follows → order x z ≡ precedes
below_both x y z h le = elim (Bool-cases (is_duplicate y z)) [
  | inl same ↦ subst (λ w. order x w ≡ precedes) (duplicates_equal y z same) h
  | inr apart ↦ order_trans x y z h (below_next y z le apart)
]

-- a context below the first of an ascending array is not in it
below_first :
    (x y : ContextInfo) (es : List Entry)
    → order x y ≡ precedes
    → All IsFilled (some y ∷ es)
    → IsAscending context_info_compare (some y ∷ es)
    → total (holds x) (some y ∷ es) ≡ 0
unfolding total holds IsFilled IsAscending context_info_compare
below_first x y [] h a s = rw (below_apart x y h) refl
below_first x y (none ∷ es) h (_, (e, _)) s = elim e [ ]
below_first x y (some z ∷ es) h (_, a) (le, s) =
    let rest = below_first x z es (below_both x y z h le) a s in
    rw (below_apart x y h) (zero-add _ ∙ rest)

only_here : (n m : ℕ) → m ≡ 0 → n ≡ at_most_once m → 1 + n ≡ at_most_once (1 + m)
only_here n m none_behind h = ground (arith, none_behind, h)

only_behind : (n m : ℕ) → n ≡ at_most_once m → 0 + n ≡ at_most_once (0 + m)
only_behind n m h = ground (arith, h)

below_here :
    (x y z : ContextInfo) → is_duplicate x y ≡ true → order y z ≡ precedes → order x z ≡ precedes
below_here x y z same h = subst (λ w. order w z ≡ precedes) (sym (duplicates_equal x y same)) h

-- the freed one of two equal entries
repeated :
    (x y z : ContextInfo) (n k : ℕ)
    → y ≡ z
    → n ≡ at_most_once (holds x (some z) + k)
    → n ≡ at_most_once (holds x (some y) + (holds x (some z) + k))
unfolding holds
repeated x y z n k same h = ground (arith, h, ap (is_duplicate x) same)

pub once_marked :
    (x : ContextInfo) (es : List Entry)
    → All IsFilled es
    → IsAscending context_info_compare es
    → total (holds x) (free_duplicates es).0 ≡ at_most_once (total (holds x) es)
unfolding total holds IsFilled IsAscending context_info_compare free_duplicates
once_marked x [] a s = refl
once_marked x (none ∷ es) (e, _) s = elim e [ ]
once_marked x (some y ∷ []) a s = elim (Bool-cases (is_duplicate x y)) [
  | inl same ↦ rw same refl
  | inr apart ↦ rw apart refl
]
once_marked x (some y ∷ none ∷ es) (_, (e, _)) s = elim e [ ]
once_marked x (some y ∷ some z ∷ es) (_, a) (le, s) =
    let rest = once_marked x (some z ∷ es) a s in
    elim (Bool-cases (is_duplicate y z)) [
      | inl same ↦
          rw same
            (zero-add _ ∙ repeated x y z _ (total (holds x) es) (duplicates_equal y z same) rest)
      | inr apart ↦ rw apart (elim (Bool-cases (is_duplicate x y)) [
        | inl here ↦ rw here (
            only_here _ _ (below_first x z es (below_here x y z here (below_next y z le apart)) a s)
              rest)
        | inr elsewhere ↦ rw elsewhere (only_behind _ _ rest)
      ])
    ]

pub filled_marked :
    (es : List Entry)
    → All IsFilled es
    → total filled (free_duplicates es).0 + (free_duplicates es).1 ≡ length es
unfolding total filled IsFilled free_duplicates
filled_marked [] a = refl
filled_marked (none ∷ es) (e, _) = elim e [ ]
filled_marked (some y ∷ []) a = refl
filled_marked (some y ∷ none ∷ es) (_, (e, _)) = elim e [ ]
filled_marked (some y ∷ some z ∷ es) (_, a) =
    let rest = filled_marked (some z ∷ es) a in
    elim (Bool-cases (is_duplicate y z)) [
      | inl same ↦ rw same (omega (arith, rest))
      | inr apart ↦ rw apart (omega (arith, rest))
    ]
