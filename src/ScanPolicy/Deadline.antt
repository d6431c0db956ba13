-- ===== src/ScanPolicy/Deadline.antt =====
-- `feasible` of iiod/spf-scan-policy.c against every order in which the other targets could be served.
use mathlib.Core.List.{Permᴰ, Perm, perm_middle}
use mathlib.Core.List.Perm
use mathlib.Core.List
use mathlib.Core.Logic.{∥∥₁_elim}
use native.Mathlib.Nat.{ℕ_set}
use libiio.Prelude.{
  ℕ, zero, suc, ◌+◌, ◌*◌, ◌<◌, ◌≤◌, ◌≡◌, ◌↔◌, refl, ◌∙◌, ap, subst, true, false, List, [], ◌∷◌,
  ◌++◌, append_nil, arith, length, All, ltb, ◌==◌, if◌then◌else◌, add64, word64, Bool-cases, inl,
  inr,
}
use libiio.ScanPolicy.{Policy, Target}
use libiio.ScanPolicy.Receipts.{target_at}
use libiio.ScanPolicy.Select.{insert_deadline, sort_deadlines, reverse_onto, serves, feasible}

-- the deadlines of the targets other than the candidate, from target `i` on
unfoldable pub others : ℕ → ℕ → ℕ → List Target → List ℕ
others revisit candidate i [] = []
others revisit candidate i (t ∷ ts) =
    if i == candidate
    then others revisit candidate (i + 1) ts
    else (t.last_start + revisit) ∷ others revisit candidate (i + 1) ts

-- Served one after the other from `t` on, `slot` each, all deadlines are met.
abbrev pub OnTime : ℕ → ℕ → List ℕ → Type 0
OnTime slot t [] = Unit
OnTime slot t (d ∷ ds) = (t + slot ≤ d) × OnTime slot (t + slot) ds

-- the end of `n` slots
abbrev finish : ℕ → ℕ → ℕ → ℕ
finish slot t zero = t
finish slot t (suc n) = finish slot t n + slot

finish-later : (slot t n : ℕ) → finish slot (t + slot) n ≡ finish slot t n + slot
finish-later slot t zero = refl
finish-later slot t (suc n) = omega (arith, finish-later slot t n)

finish_mono : (slot t n m : ℕ) → n ≤ m → finish slot t n ≤ finish slot t m
finish_mono slot t zero zero h = omega arith
finish_mono slot t zero (suc m) h = omega (arith, finish_mono slot t zero m (omega arith))
finish_mono slot t (suc n) zero h = absurd (omega arith)
finish_mono slot t (suc n) (suc m) h = omega (arith, finish_mono slot t n m (omega arith))

finish-eq : (slot t n : ℕ) → finish slot t n ≡ t + n * slot
finish-eq slot t zero = omega arith
finish-eq slot t (suc n) = grind (arith, finish-eq slot t n)

-- the same for a list with the latest deadline first
abbrev Backward : ℕ → ℕ → List ℕ → Type 0
Backward slot t [] = Unit
Backward slot t (d ∷ ds) = (finish slot t (length ds) + slot ≤ d) × Backward slot t ds

-- the code's sorting, for a list that is sorted from its end
abbrev sorted : List ℕ → List ℕ
sorted [] = []
sorted (d ∷ ds) = insert_deadline d (sorted ds)

length-insert : (d : ℕ) (xs : List ℕ) → length (insert_deadline d xs) ≡ suc (length xs)
unfolding insert_deadline
length-insert d [] = refl
length-insert d (x ∷ xs) = ground (arith, length-insert d xs)

length-sorted : (xs : List ℕ) → length (sorted xs) ≡ length xs
length-sorted [] = refl
length-sorted (x ∷ xs) = length-insert x (sorted xs) ∙ ap suc (length-sorted xs)

length-reverse : (xs ys : List ℕ) → length (reverse_onto xs ys) ≡ length xs + length ys
length-reverse [] ys = omega arith
length-reverse (x ∷ xs) ys = omega (arith, length-reverse xs (x ∷ ys))

length-others : (revisit c i : ℕ) (ts : List Target) → length (others revisit c i ts) ≤ length ts
unfolding others
length-others revisit c i [] = omega arith
length-others revisit c i (t ∷ ts) = ground (arith, length-others revisit c (i + 1) ts)

-- An insertion keeps the deadlines, if the one inserted could be served last.
insert-Backward :
    (slot t d : ℕ) (xs : List ℕ)
    → finish slot t (length xs) + slot ≤ d
    → Backward slot t xs
    → Backward slot t (insert_deadline d xs)
unfolding insert_deadline
insert-Backward slot t d [] h b = (h, tt)
insert-Backward slot t d (x ∷ xs) h b =
    let rest = insert-Backward slot t d xs (omega arith) b.1 in
    ground (arith, rest, length-insert d xs)

sorted-Backward : (slot t : ℕ) (xs : List ℕ) → Backward slot t xs → Backward slot t (sorted xs)
sorted-Backward slot t [] b = tt
sorted-Backward slot t (x ∷ xs) b =
    insert-Backward slot t x (sorted xs) (omega (arith, b.0, ap (finish slot t) (length-sorted xs)))
      (sorted-Backward slot t xs b.1)

-- Sorting forgets the order.
insert_comm :
    (a b : ℕ) (xs : List ℕ)
    → insert_deadline a (insert_deadline b xs) ≡ insert_deadline b (insert_deadline a xs)
unfolding insert_deadline
insert_comm a b [] = ground arith
insert_comm a b (x ∷ xs) = ground (arith, insert_comm a b xs)

sorted-Permᴰ : {xs ys : List ℕ} → Permᴰ xs ys → sorted xs ≡ sorted ys
sorted-Permᴰ Permᴰ.nil = refl
sorted-Permᴰ (Permᴰ.cons e p) = cc (e, sorted-Permᴰ p)
sorted-Permᴰ (Permᴰ.swap {a = a} {b = b} {l = l} e f) = insert_comm a b (sorted l) ∙ cc (e, f)
sorted-Permᴰ (Permᴰ.trans p q) = sorted-Permᴰ p ∙ sorted-Permᴰ q

sorted-Perm : {xs ys : List ℕ} → Perm xs ys → sorted xs ≡ sorted ys
sorted-Perm {xs} {ys} p = ∥∥₁_elim p (List.is_set ℕ_set (sorted xs) (sorted ys)) sorted-Permᴰ

insert-Perm : (d : ℕ) (xs : List ℕ) → Perm (insert_deadline d xs) (d ∷ xs)
unfolding insert_deadline
insert-Perm d [] = Perm.rfl
insert-Perm d (x ∷ xs) = elim (Bool-cases (ltb d x)) [
  | inl e ↦ rw e (Perm.trans (Perm.cons x (insert-Perm d xs)) (Perm.swap d x xs))
  | inr e ↦ rw e Perm.rfl
]

sorted_is_Perm : (xs : List ℕ) → Perm (sorted xs) xs
sorted_is_Perm [] = Perm.nil
sorted_is_Perm (x ∷ xs) = Perm.trans (insert-Perm x (sorted xs)) (Perm.cons x (sorted_is_Perm xs))

reverse_is_Perm : (xs ys : List ℕ) → Perm (reverse_onto xs ys) (xs ++ ys)
reverse_is_Perm [] ys = Perm.rfl
reverse_is_Perm (x ∷ xs) ys = Perm.trans (reverse_is_Perm xs (x ∷ ys)) (perm_middle xs ys)

reversed_is_Perm : (xs : List ℕ) → Perm (reverse_onto xs []) xs
reversed_is_Perm xs = subst (Perm (reverse_onto xs [])) (append_nil xs) (reverse_is_Perm xs [])

reverse_reverse :
    (xs ys zs : List ℕ) → reverse_onto (reverse_onto xs ys) zs ≡ reverse_onto ys (xs ++ zs)
reverse_reverse [] ys zs = refl
reverse_reverse (x ∷ xs) ys zs = reverse_reverse xs (x ∷ ys) zs

-- Served forward, the last of the list comes after the rest.
OnTime-reverse :
    (slot t : ℕ) (xs ys : List ℕ)
    → OnTime slot t (reverse_onto xs ys)
    → Backward slot t xs × OnTime slot (finish slot t (length xs)) ys
OnTime-reverse slot t [] ys o = (tt, o)
OnTime-reverse slot t (x ∷ xs) ys o =
    let r = OnTime-reverse slot t xs (x ∷ ys) o in ((r.1.0, r.0), r.1.1)

reverse-OnTime :
    (slot t : ℕ) (xs ys : List ℕ)
    → Backward slot t xs
    → OnTime slot (finish slot t (length xs)) ys
    → OnTime slot t (reverse_onto xs ys)
reverse-OnTime slot t [] ys b o = o
reverse-OnTime slot t (x ∷ xs) ys b o = reverse-OnTime slot t xs (x ∷ ys) b.1 (b.0, o)

-- The code's loop decides this, if its counter does not wrap.
serves_iff :
    (slot t : ℕ) (ds : List ℕ)
    → finish slot t (length ds) < word64
    → (serves slot t ds ≡ true) ↔ OnTime slot t ds
unfolding serves
serves_iff slot t [] h = ((λ _. tt), λ _. refl)
serves_iff slot t (d ∷ ds) h =
    let later = finish-later slot t (length ds) in
    let near = finish_mono slot (t + slot) 0 (length ds) (omega arith) in
    let same : add64 t slot ≡ t + slot = ground (arith, later, near) in
    let rest = serves_iff slot (t + slot) ds (omega (arith, later)) in
    (
      (λ e. let e' = rw same at e in (ground arith, rest.0 (ground arith))),
      (λ o. rw same (ground (arith, rest.1 o.1))),
    )

sort_deadlines-eq :
    (revisit c i : ℕ) (ts : List Target) (acc : List ℕ)
    → All (λ (t : Target). t.last_start + revisit < word64) ts
    → sort_deadlines revisit c i ts (sorted acc) ≡ sorted (reverse_onto (others revisit c i ts) acc)
unfolding sort_deadlines others
sort_deadlines-eq revisit c i [] acc h = refl
sort_deadlines-eq revisit c i (t ∷ ts) acc h =
    let same : add64 t.last_start revisit ≡ t.last_start + revisit = ground (arith, h.0) in
    let skip = sort_deadlines-eq revisit c (i + 1) ts acc h.1 in
    let take = sort_deadlines-eq revisit c (i + 1) ts ((t.last_start + revisit) ∷ acc) h.1 in
    rw same (elim (Bool-cases (i == c)) [ inl e ↦ simp e skip | inr e ↦ simp e take ])

module _ (slot t : ℕ) (xs : List ℕ) where
  -- the order in which the code serves the deadlines `xs`
  served : List ℕ
  served = reverse_onto (sorted (reverse_onto xs [])) []

  served-Perm : Perm served xs
  unfolding served
  served-Perm =
      let back : Perm (reverse_onto xs []) xs = reversed_is_Perm xs in
      let s = sorted (reverse_onto xs []) in
      let forth : Perm (reverse_onto s []) s = reversed_is_Perm s in
      Perm.trans forth (Perm.trans (sorted_is_Perm (reverse_onto xs [])) back)

  -- It meets all of them if some order does.
  served-OnTime : (order : List ℕ) → Perm order xs → OnTime slot t order → OnTime slot t served
  unfolding served
  served-OnTime order p o =
      let back : Perm (reverse_onto xs []) xs = reversed_is_Perm xs in
      let turned : Perm (reverse_onto order []) order = reversed_is_Perm order in
      let same : sorted (reverse_onto order []) ≡ sorted (reverse_onto xs []) =
        sorted-Perm (Perm.trans turned (Perm.trans p (Perm.symm back))) in
      let twice : reverse_onto (reverse_onto order []) [] ≡ order =
        reverse_reverse order [] [] ∙ append_nil order in
      let b = (OnTime-reverse slot t (reverse_onto order []) [] (rw twice o)).0 in
      let c : Backward slot t (sorted (reverse_onto xs [])) =
        rw (← same) (sorted-Backward slot t (reverse_onto order []) b) in
      reverse-OnTime slot t (sorted (reverse_onto xs [])) [] c tt

  length-served : length served ≡ length xs
  unfolding served
  length-served = omega (
    arith,
    length-reverse (sorted (reverse_onto xs [])) [],
    length-sorted (reverse_onto xs []),
    length-reverse xs [],
  )

feasible-eq :
    (p : Policy) (candidate now : ℕ)
    → All (λ (t : Target). t.last_start + p.revisit < word64) p.targets
    → now + p.transition < word64
    → p.dwell + p.transition < word64
    → (target_at p candidate).last_start + p.revisit < word64
    → feasible p candidate now ≡ (
        if ltb ((target_at p candidate).last_start + p.revisit) (now + p.transition)
        then false
        else serves (p.dwell + p.transition) (now + p.transition) (
            served
              (p.dwell + p.transition)
              (now + p.transition)
              (others p.revisit candidate 0 p.targets)))
unfolding feasible served
feasible-eq p candidate now h a b c =
    let s = sort_deadlines-eq p.revisit candidate 0 p.targets [] h in
    let x : add64 now p.transition ≡ now + p.transition = ground arith in
    let y : add64 p.dwell p.transition ≡ p.dwell + p.transition = ground arith in
    let z : add64 (target_at p candidate).last_start p.revisit
        ≡ (target_at p candidate).last_start + p.revisit =
      ground arith in
    rw (s, x, y, z) refl

-- Where the 64-bit counters do not wrap: a candidate is feasible exactly if it can begin before its
-- own deadline and there is an order of all the other targets in which, served one after the other
-- behind it, a dwell and a transition each, every one of them meets its deadline.
pub feasible_iff :
    (p : Policy) (candidate now : ℕ)
    → All (λ (t : Target). t.last_start + p.revisit < word64) p.targets
    → (target_at p candidate).last_start + p.revisit < word64
    → p.dwell + p.transition < word64
    → now + p.transition + length p.targets * (p.dwell + p.transition) < word64
    → (feasible p candidate now ≡ true) ↔ (
        (now + p.transition ≤ (target_at p candidate).last_start + p.revisit)
        × (order : List ℕ) × Perm order (others p.revisit candidate 0 p.targets)
        × OnTime (p.dwell + p.transition) (now + p.transition) order)
feasible_iff p candidate now h own slot_small room =
    let slot = p.dwell + p.transition in
    let t = now + p.transition in
    let xs = others p.revisit candidate 0 p.targets in
    let few = length-served slot t xs in
    let fits : finish slot t (length (served slot t xs)) < word64 = omega (
      arith,
      finish_mono slot t (length (served slot t xs)) (length p.targets)
          (omega (arith, few, length-others p.revisit candidate 0 p.targets)),
      finish-eq slot t (length p.targets),
    ) in
    let loop = serves_iff slot t (served slot t xs) fits in
    let e = feasible-eq p candidate now h (omega arith) slot_small own in
    rw e (
      (λ f. (ground arith, served slot t xs, served-Perm slot t xs, loop.0 (ground arith))),
      (λ (o, order, perm, on).
          let y = loop.1 (served-OnTime slot t xs order perm on) in ground arith),
    )
