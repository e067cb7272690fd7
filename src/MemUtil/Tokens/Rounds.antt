-- ===== src/MemUtil/Tokens/Rounds.antt =====
-- The loop of Tokenize of lib/memutil/memutil.cpp, and what it returns.
use mark.Prelude.{
  ℕ, zero, suc, ◌+◌, ◌^◌, ◌≤◌, ◌<◌, ◌≡◌, refl, sym, ◌∙◌, inl, inr, Bool, true, not, some, arith,
  ◌==◌, if◌then◌else◌, Bool-cases, dec_lt, if_true, if_false, subst,
}
use mark.MemUtil.Memory.{Memory}
use mark.MemUtil.Strings.Texts.{IsString, char_of}
use mark.MemUtil.Tokens.{
  Token, Scan, Outcome, again, returns, stuck, next_u8, separate, round, tokenize_from, tokenize,
}
use mark.MemUtil.Tokens.Layout.{Inv, Tokenized, Leads}
use mark.MemUtil.Tokens.Separators.{not_last, finish-Tokenized, separate-Leads}

module _ (buffer n : ℕ) (m : Memory) (short : n < 2 ^ 8) (str : IsString m buffer n) where
  module _ (max : ℕ) (old : ℕ → Token) (byte : max < 2 ^ 8) where
    -- A step to a further index keeps the rest.
    Inv-move :
        (s : Scan) (i : ℕ) (e : Bool)
        → Inv m buffer n max old s
        → s.i < i
        → i ≤ n
        → Inv m buffer n max old (record s { i = i; escape = e })
    Inv-move s i e v further inside = record {
      laid = v.laid;
      behind = v.behind;
      started = omega (arith, v.started);
      index_in = inside;
      room = v.room;
      kept = v.kept;
    }

    at_stop : (s : Scan) → Inv m buffer n max old s → (m (buffer + s.i) == 0) ≡ true → s.i ≡ n
    at_stop s v stops = elim (dec_lt s.i n) [
      | yes l ↦ absurd (char_of s.i str l (ground arith))
      | no l ↦ omega (arith, v.index_in)
    ]

    one_further :
        (s : Scan)
        → Inv m buffer n max old s
        → s.i < n
        → (e : Bool)
        → Leads m buffer n max old s.i (again (record s { i = next_u8 s.i; escape = e }))
    one_further s v inside e =
        let wrap : next_u8 s.i ≡ s.i + 1 = omega arith in
        rw wrap (omega arith, Inv-move s (s.i + 1) e v (omega arith) (omega arith))

    -- A backslash hides the character behind it, if there is one.
    escaped :
        (s : Scan)
        → Inv m buffer n max old s
        → s.i < n
        → Leads m buffer n max old s.i (
            again (record s {
              i =
                  if not (m (buffer + next_u8 s.i) == 0)
                  then next_u8 (next_u8 s.i)
                  else next_u8 s.i;
            }))
    escaped s v inside = elim (Bool-cases (m (buffer + next_u8 s.i) == 0)) [
      | inl stops ↦ rw stops (one_further s v inside s.escape)
      | inr goes ↦
          let wrap : next_u8 s.i ≡ s.i + 1 = omega arith in
          let more : s.i + 1 < n =
            not_last buffer n m short str (s.i + 1) (omega arith) (rw (← wrap) goes) in
          let wrap_again : next_u8 (s.i + 1) ≡ s.i + 1 + 1 = omega arith in
          rw (goes, wrap, wrap_again)
            (omega arith, Inv-move s (s.i + 1 + 1) s.escape v (omega arith) (omega arith))
    ]

    -- Between quotes a space is a character like others.
    unescaped :
        (fuel : ℕ) (s : Scan)
        → Inv m buffer n max old s
        → s.i < n
        → n < s.i + fuel
        → Leads m buffer n max old s.i (
            if s.escape
            then again (record s { i = next_u8 s.i })
            else if not (m (buffer + s.i) == b' ')
            then again (record s { i = next_u8 s.i })
            else separate fuel buffer max s m)
    unescaped fuel s v inside f = elim (Bool-cases s.escape) [
      | inl quoted ↦
          subst (Leads m buffer n max old s.i) (sym (if_true _ _ quoted))
            (one_further s v inside s.escape)
      | inr bare ↦
          subst (Leads m buffer n max old s.i) (sym (if_false _ _ bare))
            (elim (Bool-cases (m (buffer + s.i) == b' ')) [
              | inl space ↦ rw space (
                  separate-Leads buffer n m short str max old byte fuel s v inside (omega arith)
                    (ground arith))
              | inr other ↦ rw other (one_further s v inside s.escape)
            ])
    ]

    round-Leads :
        (fuel : ℕ) (s : Scan)
        → Inv m buffer n max old s
        → n < s.i + fuel
        → Leads m buffer n max old s.i (round fuel buffer max s m)
    unfolding round
    round-Leads fuel s v f = elim (Bool-cases (m (buffer + s.i) == 0)) [
      | inl stops ↦
          let here : s.i ≡ n = at_stop s v stops in
          let (r, e, t) = finish-Tokenized buffer n m short str max old byte s v here in
          subst (Leads m buffer n max old s.i) (sym (if_true _ _ stops ∙ e)) t
      | inr goes ↦
          let inside : s.i < n = not_last buffer n m short str s.i v.index_in goes in
          let step = λ (e : Bool). one_further s v inside e in
          rw goes (elim (Bool-cases (m (buffer + s.i) == b'"')) [
            | inl quote ↦ rw quote (step (not s.escape))
            | inr plain ↦ rw plain (elim (Bool-cases (m (buffer + s.i) == b'\\')) [
              | inl backslash ↦ rw backslash (escaped s v inside)
              | inr other ↦ rw other (unescaped fuel s v inside f)
            ])
          ])
    ]

    tokenize_from-Tokenized :
        (fuel : ℕ) (s : Scan)
        → Inv m buffer n max old s
        → n < s.i + fuel
        → (r : ℕ × (ℕ → Token)) × (tokenize_from fuel buffer max s m ≡ some r)
          × Tokenized m buffer n max old r
    unfolding tokenize_from
    tokenize_from-Tokenized zero s v f = absurd (omega (arith, v.index_in))
    tokenize_from-Tokenized (suc fuel) s v f =
        outcome (round (suc fuel) buffer max s m) refl (round-Leads (suc fuel) s v f)
          (λ s' further v'. tokenize_from-Tokenized fuel s' v' (omega arith))
      where
        outcome :
            (o : Outcome)
            → round (suc fuel) buffer max s m ≡ o
            → Leads m buffer n max old s.i o
            → ((s' : Scan)
                → s.i < s'.i
                → Inv m buffer n max old s'
                → (r : ℕ × (ℕ → Token)) × (tokenize_from fuel buffer max s' m ≡ some r)
                  × Tokenized m buffer n max old r)
            → (r : ℕ × (ℕ → Token)) × (tokenize_from (suc fuel) buffer max s m ≡ some r)
              × Tokenized m buffer n max old r
        outcome (again s') e (further, v') rest =
            let (r, result, done) = rest s' further v' in (r, rw (tokenize_from, e) result, done)
        outcome (returns count tokens) e t rest = ((count, tokens), rw (tokenize_from, e) refl, t)
        outcome stuck e t rest = absurd t

-- In a string of fewer than 256 bytes, with room for a token at least and more fuel than the string
-- has characters, `tokenize` returns at most `max` tokens: they lie in order in the string, with
-- nothing but spaces beside them, up to the end of the string or up to the end of the last of `max`
-- tokens, and no entry of the array from `max` on is written.
pub tokenize-Tokenized :
    (fuel buffer n max : ℕ) (old : ℕ → Token) (m : Memory) (short : n < 2 ^ 8)
    (str : IsString m buffer n) (byte : max < 2 ^ 8)
    → 0 < max
    → n < fuel
    → (r : ℕ × (ℕ → Token)) × (tokenize fuel buffer old max m ≡ some r)
      × Tokenized m buffer n max old r
unfolding tokenize
tokenize-Tokenized fuel buffer n max old m short str byte room f =
    tokenize_from-Tokenized buffer n m short str max old byte fuel _
      (record {
        laid = record {
          inside = λ j h. absurd (omega arith);
          ordered = λ i j l h. absurd (omega arith);
          covered = λ p l h. absurd (omega arith);
        };
        behind = λ j h. absurd (omega arith);
        started = omega arith;
        index_in = omega arith;
        room = room;
        kept = λ j h. refl;
      })
      (omega arith)
