-- ===== src/Kernel/EventFlag/Tags.antt =====
-- The two loops of `EventFlag::Set` (src/eventflag.cpp), thread by thread.
use mark.Prelude.{
  ℕ, ◌≡◌, ◌≢◌, refl, sym, subst, ◌∙◌, ap, Bool, true, false, inl, inr, some, List, [], ◌∷◌, arith,
  ◌==◌, if◌then◌else◌, Bool-cases, ==_self,
}
use mark.PrioMap.Interface.{PriorityMap}
use mark.ThreadList.Ring.{contains}
use mark.ThreadList.{ThreadId, ListId}
use mark.ThreadList.Effects.{not-same}
use mark.Kernel.State.{Kernel, Thread, pending_unblock, ready}
use mark.Kernel.Blocking.{unblock}
use mark.Kernel.Blocking.Moves.{distinct, unblock-other}
use mark.Prelude.{if_true, if_false, update-own}
use mark.Kernel.EventFlag.{matches, matched_mask, is_pending, tag_one, tag_all, unblock_tagged}

differs : (t u : ℕ) → u ≢ t → (t == u) ≡ false
differs t u h = ground arith

-- A thread after the first loop, if its wait is over for these flags.
abbrev pub tagged : ℕ → Thread → Thread
tagged flags th =
    if matches th.flag_mode flags th.flag_mask
    then record th {
      flag_mode = pending_unblock;
      flag_mask = matched_mask th.flag_mode flags th.flag_mask;
    }
    else th

module _ {M : Type 0} where
  tag_one-own :
      (flags mask : ℕ) (t : ThreadId) (r : ℕ × Bool × Kernel M)
      → (tag_one flags mask t r).2.thread t ≡ tagged flags (r.2.thread t)
  unfolding tag_one
  tag_one-own flags mask t (left, b, k) =
      elim (Bool-cases (matches (k.thread t).flag_mode flags (k.thread t).flag_mask)) [
        | inl over ↦
            ap (λ (r : ℕ × Bool × Kernel M). r.2.thread t) (if_true _ _ over)
            ∙ update-own k.thread t _
            ∙ sym (if_true _ _ over)
        | inr waiting ↦
            ap (λ (r : ℕ × Bool × Kernel M). r.2.thread t) (if_false _ _ waiting)
            ∙ sym (if_false _ _ waiting)
      ]

  tag_one-other :
      (flags mask : ℕ) (t : ThreadId) (r : ℕ × Bool × Kernel M) (u : ThreadId)
      → u ≢ t
      → (tag_one flags mask t r).2.thread u ≡ r.2.thread u
  unfolding tag_one
  tag_one-other flags mask t (left, b, k) u h =
      elim (Bool-cases (matches (k.thread t).flag_mode flags (k.thread t).flag_mask)) [
        | inl over ↦
            ap (λ (r : ℕ × Bool × Kernel M). r.2.thread u) (if_true _ _ over)
            ∙ if_false _ _ (not-same u t h)
        | inr waiting ↦ ap (λ (r : ℕ × Bool × Kernel M). r.2.thread u) (if_false _ _ waiting)
      ]

  -- What the first loop does to each thread.
  pub tag_all-thread :
      (flags mask : ℕ) (ts : List ThreadId) (r : ℕ × Bool × Kernel M)
      → distinct ts ≡ true
      → (u : ThreadId)
      → (tag_all flags mask ts r).2.thread u
        ≡ (if contains ts u then tagged flags (r.2.thread u) else r.2.thread u)
  unfolding tag_all
  tag_all-thread flags mask [] r once u = refl
  tag_all-thread flags mask (t ∷ ts) r once u =
      let r' = tag_one flags mask t r in
      let rest = tag_all-thread flags mask ts r' (ground (arith, once)) u in
      elim (Bool-cases (t == u)) [
        | inl here ↦
            let same : u ≡ t = ground arith in
            let last : contains ts u ≡ false = rw same (ground (arith, once)) in
            rest
            ∙ if_false _ _ last
            ∙ ap (λ v. r'.2.thread v) same
            ∙ tag_one-own flags mask t r
            ∙ ap (λ v. tagged flags (r.2.thread v)) (sym same)
            ∙ sym (if_true _ _ (if_true _ _ here))
        | inr there ↦
            let other =
              tag_one-other flags mask t r u (λ same. absurd (ground (arith, there, same))) in
            rest
            ∙ ap (λ th. if contains ts u then tagged flags th else th) other
            ∙ ap (λ c. if c then tagged flags (r.2.thread u) else r.2.thread u)
                (sym (if_false _ _ there))
      ]

module _ {M : Type 0} ⦃pm : PriorityMap M⦄ where
  unblock-own :
      (t : ThreadId) (l : ListId) (k : Kernel M)
      → (k.thread t).current ≡ some l
      → (((unblock t k).thread t).state ≡ ready)
        × (((unblock t k).thread t).flag_mask ≡ (k.thread t).flag_mask)
  unfolding unblock
  unblock-own t l k e = rw (e, unblock) (rw (==_self t) (refl, refl))

  abbrev turn : ThreadId → Kernel M → Kernel M
  turn t k = if is_pending (k.thread t).flag_mode then unblock t k else k

  turn-other : (t u : ThreadId) (k : Kernel M) → u ≢ t → (turn t k).thread u ≡ k.thread u
  turn-other t u k h = elim (Bool-cases (is_pending (k.thread t).flag_mode)) [
    | inl e ↦ ap (λ (s : Kernel M). s.thread u) (if_true _ _ e) ∙ unblock-other t u k h
    | inr e ↦ ap (λ (s : Kernel M). s.thread u) (if_false _ _ e)
  ]

  pub unblock_tagged-other :
      (ts : List ThreadId) (k : Kernel M) (u : ThreadId)
      → contains ts u ≡ false
      → (unblock_tagged ts k).thread u ≡ k.thread u
  unfolding unblock_tagged
  unblock_tagged-other [] k u h = refl
  unblock_tagged-other (t ∷ ts) k u h =
      unblock_tagged-other ts (turn t k) u (ground (arith, h))
      ∙ turn-other t u k (λ same. absurd (ground (arith, h, same)))

  -- A waiter that is tagged becomes ready with its mask, and one that is not stays as it was.
  pub unblock_tagged-wakes :
      (ts : List ThreadId) (l : ListId) (k : Kernel M) (u : ThreadId)
      → distinct ts ≡ true
      → contains ts u ≡ true
      → (k.thread u).current ≡ some l
      → is_pending (k.thread u).flag_mode ≡ true
      → (((unblock_tagged ts k).thread u).state ≡ ready)
        × (((unblock_tagged ts k).thread u).flag_mask ≡ (k.thread u).flag_mask)
  unfolding unblock_tagged
  unblock_tagged-wakes [] l k u once h home p = absurd (ground (arith, h))
  unblock_tagged-wakes (t ∷ ts) l k u once h home p = elim (Bool-cases (t == u)) [
    | inl here ↦
        let same : u ≡ t = ground arith in
        let last : contains ts t ≡ false = ground (arith, once) in
        let own = unblock-own t l k (subst (λ v. (k.thread v).current ≡ some l) same home) in
        let e =
          unblock_tagged-other ts (turn t k) t last
          ∙ ap (λ (s : Kernel M). s.thread t)
              (if_true _ _ (subst (λ v. is_pending (k.thread v).flag_mode ≡ true) same p)) in
        subst
          (λ v.
            (((unblock_tagged ts (turn t k)).thread v).state ≡ ready)
            × (((unblock_tagged ts (turn t k)).thread v).flag_mask ≡ (k.thread v).flag_mask))
          (sym same) (ap (λ th. th.state) e ∙ own.0, ap (λ th. th.flag_mask) e ∙ own.1)
    | inr there ↦
        let other = turn-other t u k (λ same. absurd (ground (arith, there, same))) in
        let rest =
          unblock_tagged-wakes ts l (turn t k) u (ground (arith, once)) (ground (arith, h, there))
            (ap (λ th. th.current) other ∙ home) (ap (λ th. is_pending th.flag_mode) other ∙ p) in
        (rest.0, rest.1 ∙ ap (λ th. th.flag_mask) other)
  ]

  pub unblock_tagged-keeps :
      (ts : List ThreadId) (k : Kernel M) (u : ThreadId)
      → distinct ts ≡ true
      → is_pending (k.thread u).flag_mode ≡ false
      → (unblock_tagged ts k).thread u ≡ k.thread u
  unfolding unblock_tagged
  unblock_tagged-keeps [] k u once p = refl
  unblock_tagged-keeps (t ∷ ts) k u once p = elim (Bool-cases (t == u)) [
    | inl here ↦
        let same : u ≡ t = ground arith in
        ap (λ (s : Kernel M). (unblock_tagged ts s).thread u)
          (if_false _ _ (subst (λ v. is_pending (k.thread v).flag_mode ≡ false) same p))
        ∙ unblock_tagged-keeps ts k u (ground (arith, once)) p
    | inr there ↦
        let other = turn-other t u k (λ same. absurd (ground (arith, there, same))) in
        unblock_tagged-keeps ts (turn t k) u (ground (arith, once))
          (ap (λ th. is_pending th.flag_mode) other ∙ p)
        ∙ other
  ]
