-- ===== src/VisitQueue/Cover.antt =====
-- What the slices of a visit (iiod/spf-visit-queue.c) cover: an admitted visit holds exactly the
-- samples from its start to `next`, and a complete one all of its samples.
use libiio.Prelude.{
  ℕ, ◌+◌, ◌-◌, ◌*◌, ◌≤◌, ◌<◌, ◌≡◌, refl, sym, ◌∙◌, ap, true, false, not, ◌||◌, List, [], ◌∷◌, ◌++◌,
  Option, arith, if_elim, ltb, leb, ◌==◌, ℤ, subst, max64, ◌⊎◌, inl, inr, All,
}
use libiio.VisitQueue.{
  Queue, Visit, Outcome, Slice, complete, admitted, invalid_gap, skip_age, cancelled, is_admitted,
  discard, terminate, over_visits, each_visit,
}
use libiio.VisitQueue.Feed.{Frame, feed_visit, later, earlier, add_slice}
use libiio.VisitQueue.Ops
use libiio.VisitQueue.Ops.{
  split_last, bind_visit, close_in, close_visit, expire_visit, cancel_visit, View,
}
use libiio.VisitQueue.Books.{split_last-append}

abbrev pub sum_slices : List (ℕ × Slice) → ℕ
sum_slices [] = 0
sum_slices ((i, s) ∷ r) = s.bytes + sum_slices r

sum_slices-append : (r t : List (ℕ × Slice)) → sum_slices (r ++ t) ≡ sum_slices r + sum_slices t
sum_slices-append [] t = omega arith
sum_slices-append ((i, s) ∷ r) t = omega (arith, sum_slices-append r t)

-- `k` bytes stand for a sample.
pub record IsCovered (k : ℕ) (v : Visit) : Type 0 where
  pub ordered : v.start ≤ v.next
  pub inside : v.next ≤ v.end
  pub sum :
      (v.result ≡ admitted) ⊎ (v.result ≡ complete) → sum_slices v.slices ≡ (v.next - v.start) * k
  pub whole :
      (v.result ≡ admitted) ⊎ (v.result ≡ complete) → v.bound ≡ true → v.end ≡ v.start + v.samples
  pub full : v.result ≡ complete → (v.next ≡ v.end) × (v.bound ≡ true)
  pub not_closed : v.closed ≡ false → v.result ≡ admitted
  pub unbound : v.bound ≡ false → (v.next ≡ v.start) × (v.end ≡ v.start)

join_spans : (a b c k : ℕ) → a ≤ b → b ≤ c → (b - a) * k + (c - b) * k ≡ (c - a) * k
join_spans a b c k p q = grind arith

terminate-IsCovered :
    (q : Queue) (v : Visit) (result : Outcome)
    → ¬ ((result ≡ admitted) ⊎ (result ≡ complete))
    → IsCovered q.config.bytes_per_sample v
    → IsCovered q.config.bytes_per_sample (terminate q v result).1
unfolding terminate discard
terminate-IsCovered q v result ne h = ground arith

add_slice-IsCovered :
    (f : Frame) (q : Queue) (v : Visit)
    → IsCovered q.config.bytes_per_sample v
    → v.result ≡ admitted
    → later f.first v.start ≡ v.next
    → v.next < earlier f.end v.end
    → IsCovered q.config.bytes_per_sample (add_slice f v.next (earlier f.end v.end) q v).1
unfolding add_slice
add_slice-IsCovered f q v h a e p =
    let k = q.config.bytes_per_sample in
    let b = earlier f.end v.end in
    let s : Slice = record {
      token = f.token;
      address = f.address;
      offset = (v.next - f.first) * k;
      bytes = (b - v.next) * k;
    } in
    let le : b ≤ v.end = ground arith in
    ground (
      arith,
      h,
      sum_slices-append v.slices ((f.slot, s) ∷ []),
      join_spans v.start v.next b k h.ordered (omega arith),
      le,
    )

-- A body keeps its visit covered, and the configuration.
abbrev pub KeepsCover : (Queue → Visit → Queue × Visit) → Type 0
KeepsCover body =
    (q : Queue) (v : Visit)
    → IsCovered q.config.bytes_per_sample v
    → IsCovered q.config.bytes_per_sample (body q v).1 × ((body q v).0.config ≡ q.config)

terminate-config :
    (q : Queue) (v : Visit) (result : Outcome) → (terminate q v result).0.config ≡ q.config
unfolding terminate discard
terminate-config q v result = ground arith

add_slice-config :
    (f : Frame) (a b : ℕ) (q : Queue) (v : Visit) → (add_slice f a b q v).0.config ≡ q.config
unfolding add_slice
add_slice-config f a b q v = refl

-- what `feed_visit` does to a visit
feed_visit-cases :
    (f : Frame) (q : Queue) (v : Visit)
    → (feed_visit f q v ≡ (q, v))
      ⊎ ((feed_visit f q v ≡ terminate q v invalid_gap)
          ⊎ ((feed_visit f q v ≡ add_slice f v.next (earlier f.end v.end) q v)
              × (v.result ≡ admitted)
              × (later f.first v.start ≡ v.next)
              × (v.next < earlier f.end v.end)))
unfolding feed_visit
feed_visit-cases f q v = ground arith

pub feed_visit-IsCovered : (f : Frame) → KeepsCover (feed_visit f)
feed_visit-IsCovered f q v h = elim (feed_visit-cases f q v) [
  | inl e ↦ rw e (h, refl)
  | inr (inl e) ↦
      rw e (
        terminate-IsCovered q v invalid_gap (λ p. ground arith) h,
        terminate-config q v invalid_gap,
      )
  | inr (inr (e, a, s, p)) ↦
      rw e (add_slice-IsCovered f q v h a s p, add_slice-config f v.next (earlier f.end v.end) q v)
]

pub expire_visit-IsCovered : (now : ℕ) → KeepsCover (expire_visit now)
unfolding expire_visit
expire_visit-IsCovered now q v h =
    let t = terminate-IsCovered q v skip_age (λ p. ground arith) h in
    (
      if_elim (λ (s : Queue × Visit). IsCovered q.config.bytes_per_sample s.1)
          (leb (now - v.reserved_at) q.config.maximum_age_ticks) (λ _. h)
          (λ _.
            if_elim (λ (s : Queue × Visit). IsCovered q.config.bytes_per_sample s.1) v.sending
              (λ _. h)
              (λ _.
                if_elim (λ (s : Queue × Visit). IsCovered q.config.bytes_per_sample s.1)
                  (not (v.bytes == 0)) (λ _. t) (λ _. h))),
      ground (arith, terminate-config q v skip_age),
    )

pub cancel_visit-IsCovered : KeepsCover cancel_visit
unfolding cancel_visit
cancel_visit-IsCovered q v h =
    let t = terminate-IsCovered q v cancelled (λ p. ground arith) h in
    (
      if_elim (λ (s : Queue × Visit). IsCovered q.config.bytes_per_sample s.1) v.sending (λ _. h)
          (λ _.
            if_elim (λ (s : Queue × Visit). IsCovered q.config.bytes_per_sample s.1)
              (not q.config.preserve_partial || is_admitted v.result) (λ _. t) (λ _. h)),
      ground (arith, terminate-config q v cancelled),
    )

module _ (body : Queue → Visit → Queue × Visit) (keeps : KeepsCover body) where
  each_visit-IsCovered :
      (vs : List Visit) (q : Queue) (k : ℕ)
      → q.config.bytes_per_sample ≡ k
      → All (IsCovered k) vs
      → All (IsCovered k) (each_visit body q vs).1 × ((each_visit body q vs).0.config ≡ q.config)
  unfolding each_visit
  each_visit-IsCovered [] q k e h = (tt, refl)
  each_visit-IsCovered (v ∷ vs) q k e h =
      let one = keeps q v (subst (λ j. IsCovered j v) (sym e) h.0) in
      let rest =
        each_visit-IsCovered vs (body q v).0 k (ap (λ c. c.bytes_per_sample) one.1 ∙ e) h.1 in
      ((subst (λ j. IsCovered j (body q v).1) e one.0, rest.0), rest.1 ∙ one.1)

abbrev pub AllCovered : Queue → Type 0
AllCovered q = All (IsCovered q.config.bytes_per_sample) q.visits

pub over_visits-AllCovered :
    (body : Queue → Visit → Queue × Visit)
    → KeepsCover body
    → (q : Queue) → AllCovered q
    → AllCovered (over_visits body q)
unfolding over_visits
over_visits-AllCovered body keeps q h =
    let loop = each_visit-IsCovered body keeps q.visits q q.config.bytes_per_sample refl h in
    rw (ap (λ c. c.bytes_per_sample) loop.1) loop.0

closed_full :
    (k : ℕ) (v : Visit)
    → IsCovered k v
    → v.bound ≡ true
    → v.closed ≡ false
    → v.next ≡ v.end
    → IsCovered k (record v { closed = true; result = complete })
closed_full k v h b o e = record {
  ordered = h.ordered;
  inside = h.inside;
  sum = λ _. h.sum (inl (h.not_closed o));
  whole = λ _ _. h.whole (inl (h.not_closed o)) b;
  full = λ _. (e, b);
  not_closed = λ c. ground arith;
  unbound = h.unbound;
}

close_visit-IsCovered :
    (invalid : ℕ) → KeepsCover (λ q v. ((close_visit q v invalid).1, (close_visit q v invalid).2))
unfolding close_visit
close_visit-IsCovered invalid q v h =
    let t =
      terminate-IsCovered q (record v { closed = true }) invalid_gap (λ p. ground arith)
        (ground arith) in
    (
      if_elim (λ (s : ℤ × Queue × Visit). IsCovered q.config.bytes_per_sample s.2) (not v.bound)
          (λ _. h)
          (λ b.
            if_elim (λ (s : ℤ × Queue × Visit). IsCovered q.config.bytes_per_sample s.2) v.closed
              (λ _. h)
              (λ o.
                if_elim (λ (s : ℤ × Queue × Visit). IsCovered q.config.bytes_per_sample s.2)
                  v.sending (λ _. h)
                  (λ _.
                    if_elim (λ (s : ℤ × Queue × Visit). IsCovered q.config.bytes_per_sample s.2)
                      (ltb invalid v.end) (λ _. t)
                      (λ _.
                        if_elim (λ (s : ℤ × Queue × Visit). IsCovered q.config.bytes_per_sample s.2)
                          (v.next == v.end)
                          (λ e.
                            closed_full q.config.bytes_per_sample v h (ground arith) o
                              (ground arith))
                          (λ _. ground (arith, h)))))),
      ground (arith, terminate-config q (record v { closed = true }) invalid_gap),
    )

close_in-IsCovered :
    (id invalid : ℕ) (vs : List Visit) (q : Queue)
    → All (IsCovered q.config.bytes_per_sample) vs
    → let (e, q', vs') = close_in q vs id invalid in
      All (IsCovered q.config.bytes_per_sample) vs' × (q'.config ≡ q.config)
unfolding close_in
close_in-IsCovered id invalid [] q h = (tt, refl)
close_in-IsCovered id invalid (v ∷ vs) q h =
    let rest = close_in-IsCovered id invalid vs q h.1 in
    let here = close_visit-IsCovered invalid q v h.0 in
    (
      if_elim (λ (s : ℤ × Queue × List Visit). All (IsCovered q.config.bytes_per_sample) s.2)
          (not (v.id == id)) (λ _. (h.0, rest.0)) (λ _. (here.0, h.1)),
      ground (arith, rest.1, here.1),
    )

All-append {ℓ κ} :
    {A : Type ℓ} (P : A → Type κ) (xs ys : List A)
    → (All P (xs ++ ys) → All P xs × All P ys) × (All P xs → All P ys → All P (xs ++ ys))
All-append P [] ys = ((λ h. (tt, h)), (λ _ h. h))
All-append P (x ∷ xs) ys = (
  (λ h. ((h.0, ((All-append P xs ys).0 h.1).0), ((All-append P xs ys).0 h.1).1)),
  (λ h k. (h.0, (All-append P xs ys).1 h.1 k)),
)

bind-IsCovered :
    (k start : ℕ) (v : Visit) → v.bound ≡ false → IsCovered k v → IsCovered k (bind_visit v start)
unfolding bind_visit
bind-IsCovered k start v e h = ground arith

bound-AllCovered :
    (q : Queue) (start end : ℕ) (w : Visit) (ws : List Visit)
    → q.visits ≡ w ∷ ws
    → (split_last w ws).1.bound ≡ false
    → AllCovered q
    → AllCovered (record q {
      visits = (split_last w ws).0 ++ (bind_visit (split_last w ws).1 start ∷ []);
      last_valid_end = end;
    })
bound-AllCovered q start end w ws e b h =
    let k = q.config.bytes_per_sample in
    let (before, l) = split_last w ws in
    let old =
      (All-append (IsCovered k) before (l ∷ [])).0
        (subst (All (IsCovered k)) (e ∙ sym (split_last-append ws w)) h) in
    (All-append (IsCovered k) before (bind_visit l start ∷ [])).1 old.0
      (bind-IsCovered k start l b old.1.0, tt)

pub bind-AllCovered :
    (q : Queue) (id start : ℕ) (vs : List Visit)
    → q.visits ≡ vs
    → AllCovered q
    → AllCovered (Ops.bind_last q id start vs).1
unfolding Ops.bind_last
bind-AllCovered q id start [] e h = h
bind-AllCovered q id start (w ∷ ws) e h =
    let l : Visit = (split_last w ws).1 in
    if_elim P q.cancelled (λ _. h)
      (λ _.
        if_elim P (not (l.id == id) || l.bound || not (is_admitted l.result)) (λ _. h)
          (λ b.
            if_elim P
              (ltb start l.reserved_at
                || ltb start q.last_valid_end
                || ltb (max64 - l.samples) start)
              (λ _. h) (λ _. bound-AllCovered q start (start + l.samples) w ws e (ground arith) h)))
  where
    P : ℤ × Queue → Type 0
    P s = AllCovered s.1

pub take-AllCovered :
    (q : Queue) (vs : List Visit)
    → q.visits ≡ vs
    → AllCovered q
    → AllCovered (Ops.take_first q vs).2
unfolding Ops.take_first
take-AllCovered q [] e h = h
take-AllCovered q (v ∷ vs) e h =
    let h' : All (IsCovered q.config.bytes_per_sample) (v ∷ vs) =
      subst (All (IsCovered q.config.bytes_per_sample)) e h in
    if_elim P v.sending (λ _. h)
      (λ _. if_elim P (is_admitted v.result) (λ _. h) (λ _. (ground arith, h'.1)))
  where
    P : ℤ × Option View × Queue → Type 0
    P s = AllCovered s.2

pub complete_send-AllCovered :
    (q : Queue) (id : ℕ) (vs : List Visit)
    → q.visits ≡ vs
    → AllCovered q
    → AllCovered (Ops.complete_first q id vs).1
unfolding Ops.complete_first discard
complete_send-AllCovered q id [] e h = h
complete_send-AllCovered q id (v ∷ vs) e h =
    let h' : All (IsCovered q.config.bytes_per_sample) (v ∷ vs) =
      subst (All (IsCovered q.config.bytes_per_sample)) e h in
    if_elim P (not v.sending || not (v.id == id)) (λ _. h) (λ _. h'.1)
  where
    P : ℤ × Queue → Type 0
    P s = AllCovered s.1

pub admit-AllCovered :
    (q : Queue) (id samples now : ℕ) → AllCovered q → AllCovered (Ops.admit q id samples now)
unfolding Ops.admit Ops.new_visit
admit-AllCovered q id samples now h =
    (All-append (IsCovered q.config.bytes_per_sample) q.visits _).1 h (ground arith, tt)

pub close_window-AllCovered :
    (q : Queue) (id invalid : ℕ) → AllCovered q → AllCovered (Ops.close_window q id invalid).1
unfolding Ops.close_window
close_window-AllCovered q id invalid h =
    let loop = close_in-IsCovered id invalid q.visits q h in
    rw (ap (λ c. c.bytes_per_sample) loop.1) loop.0
