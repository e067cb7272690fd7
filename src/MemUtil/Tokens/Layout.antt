-- ===== src/MemUtil/Tokens/Layout.antt =====
-- Where the tokens lie that Tokenize of lib/memutil/memutil.cpp finds.
use mark.Prelude.{
  ℕ, ◌+◌, ◌≤◌, ◌<◌, ◌≡◌, ◌≢◌, ap, ◌∙◌, ◌⊎◌, inl, inr, true, false, arith, ◌==◌, Bool-cases, dec_lt,
}
use mark.MemUtil.Memory.{Memory}
use mark.MemUtil.Tokens.{Token, Scan, Outcome, again, returns, stuck}

abbrev pub Inside : ℕ → Token → Type 0
Inside p t = (t.text ≤ p) × (p < t.text + t.len)

-- The first `count` tokens lie in order, with a byte between any two of them, from `buffer` up to
-- `bound`; every byte there that is in none of them is a space.
pub record Laid (m : Memory) (tokens : ℕ → Token) (buffer count bound : ℕ) : Type 0 where
  pub inside :
      (j : ℕ) → j < count → (buffer ≤ (tokens j).text) × ((tokens j).text + (tokens j).len ≤ bound)
  pub ordered : (i j : ℕ) → i < j → j < count → (tokens i).text + (tokens i).len < (tokens j).text
  pub covered :
      (p : ℕ)
      → buffer ≤ p
      → p < bound
      → ((j : ℕ) × (j < count) × Inside p (tokens j)) ⊎ (m p ≡ b' ')

-- Every token below `count` ends below `bound`.
abbrev pub EndsBelow : (ℕ → Token) → ℕ → ℕ → Type 0
EndsBelow tokens count bound = (j : ℕ) → j < count → (tokens j).text + (tokens j).len < bound

-- A token that begins at the bound is added behind the others.
pub Laid-add :
    {m : Memory} {tokens : ℕ → Token} {buffer count bound : ℕ} (tokens' : ℕ → Token) (len : ℕ)
    → Laid m tokens buffer count bound
    → EndsBelow tokens count bound
    → buffer ≤ bound
    → tokens' count ≡ record { text = bound; len = len }
    → ((j : ℕ) → j ≢ count → tokens' j ≡ tokens j)
    → Laid m tokens' buffer (count + 1) (bound + len)
Laid-add {m} {tokens} {buffer} {count} {bound} tokens' len laid behind above own other = record {
  inside = λ j h. elim (Bool-cases (j == count)) [
    | inl e ↦ ground (arith, here j e)
    | inr e ↦ ground (arith, laid.inside j, there j e)
  ];
  ordered = λ i j l h. elim (Bool-cases (j == count)) [
    | inl e ↦ ground (arith, here j e, there i, behind i)
    | inr e ↦ ground (arith, laid.ordered i j, there i, there j e)
  ];
  covered = λ p l h. elim (dec_lt p bound) [
    | yes below ↦ elim (laid.covered p l below) [
      | inl (j, k, p_in) ↦ inl (j, omega arith, ground (arith, there j, p_in))
      | inr space ↦ inr space
    ]
    | no behind_bound ↦ inl (count, omega arith, ground (arith, own))
  ];
}
  where
    here : (j : ℕ) → (j == count) ≡ true → tokens' j ≡ record { text = bound; len = len }
    here j e = let same : j ≡ count = ground arith in ap tokens' same ∙ own

    there : (j : ℕ) → (j == count) ≡ false → tokens' j ≡ tokens j
    there j e = other j (λ same. ground arith)

-- Spaces behind the last token do not count.
pub Laid-spaces :
    {m : Memory} {tokens : ℕ → Token} {buffer count bound : ℕ} (bound' : ℕ)
    → Laid m tokens buffer count bound
    → bound ≤ bound'
    → ((p : ℕ) → bound ≤ p → p < bound' → m p ≡ b' ')
    → Laid m tokens buffer count bound'
Laid-spaces {bound} bound' laid le spaces = record {
  inside = λ j h. ground (arith, laid.inside j h);
  ordered = laid.ordered;
  covered = λ p l h. elim (dec_lt p bound) [
    | yes below ↦ laid.covered p l below
    | no above ↦ inr (spaces p (omega arith) h)
  ];
}

-- The state between two rounds.
pub record Inv (m : Memory) (buffer n max : ℕ) (old : ℕ → Token) (s : Scan) : Type 0 where
  pub laid : Laid m s.tokens buffer s.curr_arg (buffer + s.last_arg)
  pub behind : EndsBelow s.tokens s.curr_arg (buffer + s.last_arg)
  pub started : s.last_arg ≤ s.i
  pub index_in : s.i ≤ n
  pub room : s.curr_arg < max
  pub kept : (j : ℕ) → max ≤ j → s.tokens j ≡ old j

-- What `tokenize` returns: at most `max` tokens, which lie in order in the buffer with nothing
-- but spaces beside them, up to the end of the string or up to the last of `max` tokens; no
-- other entry of the array is written.
pub record Tokenized (m : Memory) (buffer n max : ℕ) (old : ℕ → Token) (r : ℕ × (ℕ → Token))
    : Type 0 where
  pub bound : ℕ
  pub within : bound ≤ buffer + n
  pub whole : (r.0 ≡ max) ⊎ (bound ≡ buffer + n)
  pub at_most : r.0 ≤ max
  pub laid : Laid m r.1 buffer r.0 bound
  pub kept : (j : ℕ) → max ≤ j → r.1 j ≡ old j

-- Where a round leads: to a further index in a state as good, or to a result.
abbrev pub Leads : Memory → ℕ → ℕ → ℕ → (ℕ → Token) → ℕ → Outcome → Type 0
Leads m buffer n max old i (again s) = (i < s.i) × Inv m buffer n max old s
Leads m buffer n max old i (returns count tokens) = Tokenized m buffer n max old (count, tokens)
Leads m buffer n max old i stuck = ⊥
