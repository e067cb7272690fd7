-- ===== src/Kernel/TimerList/Round.antt =====
-- A round of `TimerList::Process` (src/timerlist.cpp) in which no timer expires.
use mark.Prelude.{
  ℕ, zero, suc, ◌-◌, ◌^◌, ◌≤◌, ◌<◌, ◌≡◌, ◌≢◌, refl, sym, subst, ◌∙◌, ap, true, false, inl, inr,
  none, List, [], ◌∷◌, ◌++◌, arith, ◌==◌, if◌then◌else◌, Bool-cases, ==_self, length,
}
use mark.PrioMap.Interface.{PriorityMap}
use mark.ThreadList.Ring.{head?, contains}
use mark.ThreadList.{ThreadId}
use mark.ThreadList.Effects.{not-same}
use mark.Kernel.State.{Kernel, Timer, Callback}
use mark.Kernel.Blocking.Moves.{distinct, not_again}
use mark.Prelude.{if_true, if_false, update-own}
use mark.Kernel.TimerList.{tick, successor, process_from}
use mark.Kernel.TimerList.Countdown.{with_left, tick-counts}

-- The walk from a list's rest follows the links of the whole list.
pub record Linked (whole : List ℕ) (t : ℕ) (ts : List ℕ) : Type 0 where
  pub next : successor whole t ≡ head? ts

abbrev pub Chain : List ℕ → List ℕ → Type 0
Chain whole [] = Unit {0}
Chain whole (t ∷ ts) = Linked whole t ts × Chain whole ts

-- An active timer that does not expire at the next tick.
pub record Counting (tm : Timer) : Type 0 where
  pub on : tm.active ≡ true
  pub later : 1 < tm.time_left
  pub fits : tm.time_left < 2 ^ 32

abbrev pub down : Timer → Timer
down tm = record tm { time_left = tm.time_left - 1 }

distinct-tail : (t : ℕ) (ts : List ℕ) → distinct (t ∷ ts) ≡ true → distinct ts ≡ true
distinct-tail t ts once = ground (arith, once)

distinct-head : (t : ℕ) (ts : List ℕ) → distinct (t ∷ ts) ≡ true → contains ts t ≡ false
distinct-head t ts once = ground (arith, once)

contains_later : (t : ℕ) (ts : List ℕ) (u : ℕ) → contains ts u ≡ true → contains (t ∷ ts) u ≡ true
contains_later t ts u h = ground (arith, h)

module _ {M : Type 0} ⦃pm : PriorityMap M⦄ (others : Kernel M → Kernel M)
    (call : Callback → ThreadId → Kernel M → Kernel M) where
  tick-down :
      (t : ℕ) (k : Kernel M)
      → Counting (k.timer t)
      → tick others call t k ≡ with_left others call t ((k.timer t).time_left - 1) k
  tick-down t k c =
      let left = (k.timer t).time_left - 2 in
      let at : (k.timer t).time_left ≡ suc (suc left) = omega (arith, c.later) in
      let less : suc left ≡ (k.timer t).time_left - 1 = omega (arith, c.later) in
      tick-counts others call t left k c.on at (omega (arith, c.fits, at))
      ∙ ap (λ l. with_left others call t l k) less

  process_from-end : (fuel : ℕ) (k : Kernel M) → process_from others call fuel none k ≡ k
  unfolding process_from
  process_from-end zero k = refl
  process_from-end (suc fuel) k = refl

  other :
      (k : Kernel M) (t u : ℕ)
      → u ≢ t
      → (with_left others call t ((k.timer t).time_left - 1) k).timer u ≡ k.timer u
  other k t u h = if_false _ _ (not-same u t h)

  -- One timer of the list, and then the others.
  after_one :
      (t : ℕ) (ts : List ℕ) (k : Kernel M) (j : ℕ)
      → contains ts t ≡ false
      → (if contains ts j
          then down ((with_left others call t ((k.timer t).time_left - 1) k).timer j)
          else (with_left others call t ((k.timer t).time_left - 1) k).timer j)
        ≡ (if contains (t ∷ ts) j then down (k.timer j) else k.timer j)
  after_one t ts k j last =
      let k₁ = with_left others call t ((k.timer t).time_left - 1) k in
      elim (Bool-cases (t == j)) [
        | inl here ↦
            let same : t ≡ j = ground arith in
            let gone : contains ts j ≡ false = ap (λ v. contains ts v) (sym same) ∙ last in
            if_false _ _ gone
            ∙ ap (λ v. k₁.timer v) (sym same)
            ∙ update-own k.timer t (down (k.timer t))
            ∙ ap (λ v. down (k.timer v)) same
            ∙ sym (if_true _ _ (if_true _ _ here))
        | inr there ↦
            ap (λ tm. if contains ts j then down tm else tm)
              (other k t j (λ same. absurd (ground (arith, there, same))))
            ∙ ap (λ c. if c then down (k.timer j) else k.timer j) (sym (if_false _ _ there))
      ]

  pub process_from-counts :
      (whole ts : List ℕ) (fuel : ℕ) (k : Kernel M)
      → Chain whole ts
      → k.timer_list ≡ whole
      → distinct ts ≡ true
      → ((j : ℕ) → contains ts j ≡ true → Counting (k.timer j))
      → length ts ≤ fuel
      → (j : ℕ)
      → (process_from others call fuel (head? ts) k).timer j
        ≡ (if contains ts j then down (k.timer j) else k.timer j)
  unfolding process_from
  process_from-counts whole [] fuel k c listed once counting enough j =
      ap (λ (s : Kernel M). s.timer j) (process_from-end fuel k)
  process_from-counts whole (t ∷ ts) zero k c listed once counting enough j = absurd (omega arith)
  process_from-counts whole (t ∷ ts) (suc fuel) k c listed once counting enough j =
      let k₁ = with_left others call t ((k.timer t).time_left - 1) k in
      let moved : tick others call t k ≡ k₁ =
        tick-down t k (counting t (if_true _ _ (==_self t))) in
      let next : successor k.timer_list t ≡ head? ts =
        ap (λ xs. successor xs t) listed ∙ c.0.next in
      let rest =
        process_from-counts whole ts fuel k₁ c.1 listed (distinct-tail t ts once)
          (λ u h.
            subst Counting (sym (other k t u (not_again ts u t h once)))
              (counting u (contains_later t ts u h)))
          (omega arith) j in
      ap (λ (s : Kernel M). (process_from others call fuel (successor k.timer_list t) s).timer j)
        moved
      ∙ ap (λ o. (process_from others call fuel o k₁).timer j) next
      ∙ rest
      ∙ after_one t ts k j (distinct-head t ts once)

-- The links of a list without repetitions.
contains-middle : (pre : List ℕ) (t : ℕ) (ts : List ℕ) → contains (pre ++ (t ∷ ts)) t ≡ true
contains-middle [] t ts = if_true _ _ (==_self t)
contains-middle (x ∷ pre) t ts = contains_later x (pre ++ (t ∷ ts)) t (contains-middle pre t ts)

first_differs :
    (pre : List ℕ) (t : ℕ) (ts : List ℕ) (x : ℕ)
    → contains (pre ++ (t ∷ ts)) x ≡ false
    → (x == t) ≡ false
first_differs pre t ts x gone = elim (Bool-cases (x == t)) [
  | inl e ↦
      let same : x ≡ t = ground arith in
      absurd (
        ground (
          arith,
          subst (λ v. contains (pre ++ (t ∷ ts)) v ≡ false) same gone,
          contains-middle pre t ts,
        ))
  | inr e ↦ e
]

successor-at :
    (pre : List ℕ) (t : ℕ) (ts : List ℕ)
    → distinct (pre ++ (t ∷ ts)) ≡ true
    → successor (pre ++ (t ∷ ts)) t ≡ head? ts
successor-at [] t ts once = if_true _ _ (==_self t)
successor-at (x ∷ pre) t ts once =
    if_false _ _ (first_differs pre t ts x (distinct-head x (pre ++ (t ∷ ts)) once))
    ∙ successor-at pre t ts (distinct-tail x (pre ++ (t ∷ ts)) once)

append_assoc : (pre : List ℕ) (t : ℕ) (ts : List ℕ) → (pre ++ (t ∷ [])) ++ ts ≡ pre ++ (t ∷ ts)
append_assoc [] t ts = refl
append_assoc (x ∷ pre) t ts = ap (λ ys. x ∷ ys) (append_assoc pre t ts)

all_linked : (pre ts : List ℕ) → distinct (pre ++ ts) ≡ true → Chain (pre ++ ts) ts
all_linked pre [] once = tt
all_linked pre (t ∷ ts) once = (
  record { next = successor-at pre t ts once },
  subst (λ w. Chain w ts) (append_assoc pre t ts)
      (all_linked (pre ++ (t ∷ [])) ts
        (subst (λ w. distinct w ≡ true) (sym (append_assoc pre t ts)) once)),
)

module _ {M : Type 0} ⦃pm : PriorityMap M⦄ (others : Kernel M → Kernel M)
    (call : Callback → ThreadId → Kernel M → Kernel M) where
  -- With as much fuel as the list has timers, a round in which every timer of the list is active and
  -- has more than one tick left takes one tick from each of them and leaves the others as they were,
  -- where no timer is in the list twice.
  pub process_from-all :
      (fuel : ℕ) (k : Kernel M)
      → distinct k.timer_list ≡ true
      → ((j : ℕ) → contains k.timer_list j ≡ true → Counting (k.timer j))
      → length k.timer_list ≤ fuel
      → (j : ℕ)
      → (process_from others call fuel (head? k.timer_list) k).timer j
        ≡ (if contains k.timer_list j then down (k.timer j) else k.timer j)
  process_from-all fuel k once counting enough j =
      process_from-counts others call k.timer_list k.timer_list fuel k
        (all_linked [] k.timer_list once) refl once counting enough j
