-- ===== src/Scan/Search.antt =====
-- The whole search of scan.c, for every `qsort` that does what its manual says.
use libiio.Prelude.{
  ℕ, ◌≡◌, refl, ltb, Bool, true, false, List, [], ◌∷◌, Option, some, none, length, arith, ℤ, pos,
  negsuc,
}
use libiio.Scan.{Entry}
use libiio.Scan.Distinct.{total}

-- every entry counts for one
one_each : Entry → ℕ
one_each e = 1

total_each : (es : List Entry) → total one_each es ≡ length es
unfolding total one_each
total_each [] = refl
total_each (e ∷ es) = omega (arith, total_each es)

-- the places of an array where a context stands
abbrev pub is_context : Option Entry → Bool
is_context none = false
is_context (some none) = false
is_context (some (some x)) = true

abbrev pub below_count : ℕ → ℤ → Bool
below_count index (pos n) = ltb index n
below_count index (negsuc n) = false
