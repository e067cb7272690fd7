-- ===== src/Kernel/Stack.antt =====
-- `Thread::GetStackSlack` (src/thread.cpp), where the stack grows down and a `K_WORD` has four bytes.
use mark.Prelude.{
  ℕ, zero, suc, ◌+◌, ◌-◌, ◌*◌, ◌/◌, ◌≤◌, ◌<◌, ◌≡◌, Bool, true, false, not, inl, inr, arith, ltb,
  if◌then◌else◌, Bool-cases, ap,
}
use mark.Kernel.State.{Thread}

-- `sizeof(K_WORD)`
abbrev pub word_size : ℕ
word_size = 4

-- The bisection, with fuel; the result is `wMid` when the loop ends.
unfoldable pub bisect : ℕ → (ℕ → Bool) → ℕ → ℕ → ℕ → ℕ
bisect zero untouched top bottom mid = mid
bisect (suc fuel) untouched top bottom mid =
    let lower = bisect fuel untouched mid bottom ((mid + bottom + 1) / 2) in
    let upper = bisect fuel untouched top mid ((top + mid + 1) / 2) in
    if ltb 1 (top - bottom) then (if not (untouched mid) then lower else upper) else mid

-- The gap shrinks in every round, so as many rounds as there are words suffice.
unfoldable pub get_stack_slack : Thread → ℕ
get_stack_slack th =
    let top = (th.stack_size - 1) / word_size in
    bisect top th.untouched top 0 ((top + 0 + 1) / 2) * word_size

-- The words below `edge` hold the fill pattern, the others do not.
pub record IsEdge (untouched : ℕ → Bool) (edge : ℕ) : Type 0 where
  pub below : (i : ℕ) → i < edge → untouched i ≡ true
  pub above : (i : ℕ) → edge ≤ i → untouched i ≡ false

bisect-edge :
    (fuel : ℕ) (untouched : ℕ → Bool) (edge top bottom : ℕ)
    → IsEdge untouched edge
    → bottom < edge
    → edge ≤ top
    → top - bottom ≤ suc fuel
    → bisect fuel untouched top bottom ((top + bottom + 1) / 2) ≡ edge
unfolding bisect
bisect-edge zero untouched edge top bottom e lo hi h = omega arith
bisect-edge (suc fuel) untouched edge top bottom e lo hi h =
    elim (Bool-cases (ltb 1 (top - bottom))) [
      | inr done ↦ rw done (ground arith)
      | inl more ↦
          let mid = (top + bottom + 1) / 2 in
          elim (Bool-cases (ltb mid edge)) [
            | inl below ↦
                rw (more, e.below mid (ground arith))
                  (bisect-edge fuel untouched edge top mid e (ground arith) hi (ground arith))
            | inr above ↦
                rw (more, e.above mid (ground arith))
                  (bisect-edge fuel untouched edge mid bottom e lo (ground arith) (ground arith))
          ]
    ]

-- Where the words of a stack below an edge inside it hold the fill pattern and the others do not,
-- `get_stack_slack` is the size in bytes of the part below the edge.
pub get_stack_slack-edge :
    (th : Thread) (edge : ℕ)
    → IsEdge th.untouched edge
    → 0 < edge
    → edge ≤ (th.stack_size - 1) / word_size
    → get_stack_slack th ≡ edge * word_size
unfolding get_stack_slack
get_stack_slack-edge th edge e pos inside =
    let top = (th.stack_size - 1) / word_size in
    ap (λ t. t * word_size) (bisect-edge top th.untouched edge top 0 e pos inside (omega arith))
