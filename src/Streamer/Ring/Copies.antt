-- ===== src/Streamer/Ring/Copies.antt =====
-- What the copying loops of lib/streamer/streamer.cpp do to the slots of the ring.
use mark.Prelude.{
  ℕ, zero, suc, ◌+◌, ◌-◌, ◌≤◌, ◌<◌, ◌≡◌, ◌≢◌, refl, sym, ap, ◌∙◌, ◌⊎◌, inl, inr, arith, update,
  place, ℕ-cases,
}
use mark.Streamer.Blocks.{Transfer, copy_bytes, copy_in, copy_out}
use mark.Streamer.Ring.{first}

pub copy_bytes-outside :
    (n dst src : ℕ) (from to : ℕ → ℕ) (p : ℕ)
    → (p < dst) ⊎ (dst + n ≤ p)
    → copy_bytes n dst src from to p ≡ to p
unfolding copy_bytes
copy_bytes-outside zero dst src from to p out = refl
copy_bytes-outside (suc n) dst src from to p out =
    copy_bytes-outside n (dst + 1) (src + 1) from (update to dst (from src)) p (ground arith)
    ∙ ground arith

copy_bytes-at :
    (n dst src : ℕ) (from to : ℕ → ℕ) (i : ℕ)
    → i < n
    → copy_bytes n dst src from to (dst + i) ≡ from (src + i)
unfolding copy_bytes
copy_bytes-at zero dst src from to i h = absurd (omega arith)
copy_bytes-at (suc n) dst src from to i h =
    let to' : ℕ → ℕ = update to dst (from src) in
    elim (ℕ-cases i) [
      | inl e ↦
          let here : dst + i ≡ dst = omega arith in
          let there : src + i ≡ src = omega arith in
          rw (here, there)
            (copy_bytes-outside n (dst + 1) (src + 1) from to' dst (inl (omega arith))
              ∙ ground arith)
      | inr (j, e) ↦
          let here : dst + i ≡ dst + 1 + j = omega arith in
          let there : src + i ≡ src + 1 + j = omega arith in
          rw (here, there) (copy_bytes-at n (dst + 1) (src + 1) from to' j (omega arith))
    ]

-- The same, with the two places given.
pub copy_bytes-inside :
    (n dst src : ℕ) (from to : ℕ → ℕ) (p q : ℕ)
    → dst ≤ p
    → p < dst + n
    → q + dst ≡ src + p
    → copy_bytes n dst src from to p ≡ from q
copy_bytes-inside n dst src from to p q l h e =
    let here : dst + (p - dst) ≡ p = omega arith in
    let there : src + (p - dst) ≡ q = omega arith in
    ap (copy_bytes n dst src from to) (sym here)
    ∙ copy_bytes-at n dst src from to (p - dst) (omega arith)
    ∙ ap from there

module _ (size : ℕ) (t : Transfer) (in_ring : t.start ≤ size) (rest : t.pre_wrap ≡ size - t.start)
    (fits : t.count ≤ size) (from to : ℕ → ℕ) where
  pub copy_in-inside :
      (i : ℕ) → i < t.count → copy_in from t to (place size (first size t.start) i) ≡ from i
  unfolding copy_in
  copy_in-inside i h =
      let p = place size (first size t.start) i in
      let k = t.count - t.pre_wrap in
      let straight = copy_bytes-inside t.count t.start 0 from to p i in
      let before = copy_bytes-inside t.pre_wrap t.start 0 from to p i in
      let to' = copy_bytes t.pre_wrap t.start 0 from to in
      let beside = copy_bytes-outside k 0 t.pre_wrap from to' p in
      let behind = copy_bytes-inside k 0 t.pre_wrap from to' p i in
      ground (arith, straight, before, beside, behind)

  -- A slot of the ring that is not among the `count` slots from the start on.
  pub copy_in-outside :
      (p : ℕ)
      → p < size
      → ((i : ℕ) → i < t.count → p ≢ place size (first size t.start) i)
      → copy_in from t to p ≡ to p
  unfolding copy_in
  copy_in-outside p h apart =
      let k = t.count - t.pre_wrap in
      let straight = copy_bytes-outside t.count t.start 0 from to p in
      let before = copy_bytes-outside t.pre_wrap t.start 0 from to p in
      let to' = copy_bytes t.pre_wrap t.start 0 from to in
      let beside = copy_bytes-outside k 0 t.pre_wrap from to' p in
      ground (arith, straight, before, beside, apart (p - t.start), apart (p + t.pre_wrap))

  pub copy_out-inside :
      (i : ℕ) → i < t.count → copy_out t from to i ≡ from (place size (first size t.start) i)
  unfolding copy_out
  copy_out-inside i h =
      let q = place size (first size t.start) i in
      let k = t.count - t.pre_wrap in
      let straight = copy_bytes-inside t.count 0 t.start from to i q in
      let before = copy_bytes-inside t.pre_wrap 0 t.start from to i q in
      let to' = copy_bytes t.pre_wrap 0 t.start from to in
      let beside = copy_bytes-outside k t.pre_wrap 0 from to' i in
      let behind = copy_bytes-inside k t.pre_wrap 0 from to' i q in
      ground (arith, straight, before, beside, behind)

  pub copy_out-outside : (i : ℕ) → t.count ≤ i → copy_out t from to i ≡ to i
  unfolding copy_out
  copy_out-outside i h =
      let k = t.count - t.pre_wrap in
      let straight = copy_bytes-outside t.count 0 t.start from to i in
      let before = copy_bytes-outside t.pre_wrap 0 t.start from to i in
      let to' = copy_bytes t.pre_wrap 0 t.start from to in
      let beside = copy_bytes-outside k t.pre_wrap 0 from to' i in
      ground (arith, straight, before, beside)
