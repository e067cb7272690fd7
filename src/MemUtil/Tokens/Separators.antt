-- ===== src/MemUtil/Tokens/Separators.antt =====
-- The separators and the end of the text in Tokenize of lib/memutil/memutil.cpp: where a token is
-- written.
use mark.Prelude.{
  ℕ, zero, suc, ◌+◌, ◌-◌, ◌%◌, ◌^◌, ◌≤◌, ◌<◌, ◌≡◌, ◌≢◌, refl, ap, ◌∙◌, inl, inr, false, some, arith,
  ◌==◌, leb, Bool-cases, dec_lt, if_true, if_false, update-own, subst,
}
use mark.MemUtil.Memory.{Memory}
use mark.MemUtil.Strings.Texts.{IsString, end_of}
use mark.MemUtil.Tokens.{Token, Scan, returns, next_u8, skip_spaces, write_token, finish, separate}
use mark.MemUtil.Tokens.Layout.{Laid, Laid-add, Laid-spaces, Inv, Tokenized, Leads}

module _ (buffer n : ℕ) (m : Memory) (short : n < 2 ^ 8) (str : IsString m buffer n) where
  pub not_last : (i : ℕ) → i ≤ n → (m (buffer + i) == 0) ≡ false → i < n
  not_last i h e = elim (dec_lt i n) [
    | yes l ↦ l
    | no l ↦
        let same : i ≡ n = omega arith in
        absurd (ground (arith, ap (λ k. m (buffer + k)) same, end_of str, e))
  ]

  -- `skip_spaces` ends inside the buffer, and passes over spaces only.
  pub skip_spaces-ends :
      (fuel i : ℕ)
      → i ≤ n
      → n < i + fuel
      → (j : ℕ) × (skip_spaces fuel buffer i m ≡ some j)
        × (i ≤ j)
        × (j ≤ n)
        × ((p : ℕ) → buffer + i ≤ p → p < buffer + j → m p ≡ b' ')
  unfolding skip_spaces
  skip_spaces-ends zero i h f = absurd (omega arith)
  skip_spaces-ends (suc fuel) i h f = elim (Bool-cases (m (buffer + i) == b' ')) [
    | inl space ↦
        let inside : i < n = not_last i h (ground arith) in
        let wrap : next_u8 i ≡ i + 1 = omega arith in
        let (j, result, i_j, j_n, spaces) =
          skip_spaces-ends fuel (i + 1) (omega arith) (omega arith) in
        (
          j,
          if_true _ _ space ∙ ap (λ k. skip_spaces fuel buffer k m) wrap ∙ result,
          omega arith,
          j_n,
          λ p l r. elim (dec_lt (buffer + i) p) [
            | yes above ↦ spaces p (omega arith) r
            | no here ↦ let same : p ≡ buffer + i = omega arith in ground (arith, ap m same, space)
          ],
        )
    | inr other ↦ (i, if_false _ _ other, omega arith, h, λ p l r. absurd (omega arith))
  ]

  module _ (max : ℕ) (old : ℕ → Token) (byte : max < 2 ^ 8) where
    write_token-own :
        (s : Scan)
        → Inv m buffer n max old s
        → write_token buffer s s.curr_arg
          ≡ record { text = buffer + s.last_arg; len = s.i - s.last_arg }
    unfolding write_token
    write_token-own s v =
        let small : (s.i + 2 ^ 8 - s.last_arg) % 2 ^ 8 ≡ s.i - s.last_arg =
          omega (arith, v.started, v.index_in) in
        update-own s.tokens s.curr_arg _
        ∙ ap (λ (l : ℕ). record { text = buffer + s.last_arg; len = l }) small

    write_token-other : (s : Scan) (j : ℕ) → j ≢ s.curr_arg → write_token buffer s j ≡ s.tokens j
    unfolding write_token
    write_token-other s j ne = if_false {b = j == s.curr_arg} _ _ (ground arith)

    -- A token that is written up to here lies behind the others.
    write_token-Laid :
        (s : Scan)
        → Inv m buffer n max old s
        → Laid m (write_token buffer s) buffer (s.curr_arg + 1) (buffer + s.i)
    write_token-Laid s v =
        let up_to : buffer + s.last_arg + (s.i - s.last_arg) ≡ buffer + s.i =
          omega (arith, v.started) in
        subst (λ b. Laid m (write_token buffer s) buffer (s.curr_arg + 1) b) up_to
          (Laid-add (write_token buffer s) (s.i - s.last_arg) v.laid v.behind (omega arith)
            (write_token-own s v) (write_token-other s))

    write_token-kept :
        (s : Scan) → Inv m buffer n max old s → (j : ℕ) → max ≤ j → write_token buffer s j ≡ old j
    write_token-kept s v j h =
        let room : s.curr_arg < max = v.room in
        let apart : j ≢ s.curr_arg = λ e. omega arith in write_token-other s j apart ∙ v.kept j h

    pub finish-Tokenized :
        (s : Scan)
        → Inv m buffer n max old s
        → s.i ≡ n
        → (r : ℕ × (ℕ → Token)) × (finish buffer s m ≡ returns r.0 r.1)
          × Tokenized m buffer n max old r
    unfolding finish
    finish-Tokenized s v here =
        let z : m (buffer + s.i) ≡ 0 = ap (λ i. m (buffer + i)) here ∙ end_of str in
        elim (Bool-cases (s.i == s.last_arg)) [
          | inl nothing ↦ (
            (s.curr_arg, s.tokens),
            ground (arith, nothing),
            record {
              bound = buffer + s.last_arg;
              within = omega (arith, v.started);
              whole = inr (ground (arith, nothing));
              at_most = omega (arith, v.room);
              laid = v.laid;
              kept = v.kept;
            },
          )
          | inr last ↦
              let more : s.last_arg < s.i = ground (arith, v.started) in
              let count : next_u8 s.curr_arg ≡ s.curr_arg + 1 = omega (arith, v.room) in
              (
                (s.curr_arg + 1, write_token buffer s),
                ground (arith, z, last, more, count),
                record {
                  bound = buffer + s.i;
                  within = omega arith;
                  whole = inr (omega arith);
                  at_most = omega (arith, v.room);
                  laid = write_token-Laid s v;
                  kept = write_token-kept s v;
                },
              )
        ]

    pub separate-Leads :
        (fuel : ℕ) (s : Scan)
        → Inv m buffer n max old s
        → s.i < n
        → n < s.i + 1 + fuel
        → m (buffer + s.i) ≡ b' '
        → Leads m buffer n max old s.i (separate fuel buffer max s m)
    unfolding separate
    separate-Leads fuel s v inside f space =
        let count : next_u8 s.curr_arg ≡ s.curr_arg + 1 = omega (arith, v.room) in
        let wrap : next_u8 s.i ≡ s.i + 1 = omega arith in
        let laid = write_token-Laid s v in
        let (j, result, i_j, j_n, spaces) =
          skip_spaces-ends fuel (s.i + 1) (omega arith) (omega arith) in
        rw (count, wrap, result)
          (elim (Bool-cases (leb max (s.curr_arg + 1))) [
            | inl full ↦
                let all : s.curr_arg + 1 ≡ max = ground (arith, v.room) in
                rw full (record {
                  bound = buffer + s.i;
                  within = omega arith;
                  whole = inl refl;
                  at_most = omega arith;
                  laid =
                      subst (λ c. Laid m (write_token buffer s) buffer c (buffer + s.i)) all laid;
                  kept = write_token-kept s v;
                })
            | inr room ↦ rw room (
              omega arith,
              record {
                laid = Laid-spaces (buffer + j) laid (omega arith) (also_here j spaces);
                behind = λ t h. ground (arith, laid.inside t h, i_j);
                started = omega arith;
                index_in = j_n;
                room = ground (arith, room);
                kept = write_token-kept s v;
              },
            )
          ])
      where
        also_here :
            (j : ℕ)
            → ((p : ℕ) → buffer + (s.i + 1) ≤ p → p < buffer + j → m p ≡ b' ')
            → (p : ℕ) → buffer + s.i ≤ p
            → p < buffer + j
            → m p ≡ b' '
        also_here j spaces p l h = elim (Bool-cases (p == buffer + s.i)) [
          | inl e ↦ let same : p ≡ buffer + s.i = ground arith in ap m same ∙ space
          | inr e ↦ spaces p (ground arith) h
        ]
