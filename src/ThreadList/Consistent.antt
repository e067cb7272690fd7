-- ===== src/ThreadList/Consistent.antt =====
-- The scheduler's map and its ready lists agree: a priority is in the map when its list holds a thread.
use mark.Prelude.{
  ℕ, suc, ◌≤◌, ◌<◌, ◌≡◌, refl, Bool, true, false, inl, inr, List, [], ◌∷◌, arith, if◌then◌else◌,
  Bool-cases, ◌⊎◌,
}
use mark.PrioMap.Interface.{PriorityMap}
use mark.ThreadList.Ring.{push_back, pivot_forward, remove_node, nonempty, insert_by_priority}
use mark.ThreadList.{
  ThreadId, ListId, ListStore, add, remove, add_priority, put_members, pivot_list,
}

-- `m_clStopList`, and `m_aclPriorities`.
abbrev pub stop_list : ListId
stop_list = 0

abbrev pub ready_list : ℕ → ListId
ready_list p = suc p

-- `num` is `KERNEL_NUM_PRIORITIES`.
pub record IsConsistent {M : Type 0} ⦃pm : PriorityMap M⦄ (num : ℕ) (s : ListStore M) : Type 0 where
  pub map_ok : pm.IsConsistent s.map
  pub wired : (p : ℕ) → p < num → (s.list (ready_list p)).mapped ≡ true
  pub level : (p : ℕ) → p < num → (s.list (ready_list p)).priority ≡ p
  pub plain : (l : ListId) → (l ≡ stop_list) ⊎ (num < l) → (s.list l).mapped ≡ false
  pub agrees : (p : ℕ) → p < num → pm.member s.map p ≡ nonempty (s.list (ready_list p)).members
  pub beyond : (p : ℕ) → num ≤ p → p < pm.capacity → pm.member s.map p ≡ false

nonempty-pivot : (xs : List ℕ) → nonempty (pivot_forward xs) ≡ nonempty xs
nonempty-pivot [] = refl
nonempty-pivot (x ∷ []) = refl
nonempty-pivot (x ∷ y ∷ xs) = refl

if_same {ℓ} : {A : Type ℓ} (b : Bool) (a : A) → (if b then a else a) ≡ a
if_same true a = refl
if_same false a = refl

nonempty-push_back : (xs : List ℕ) (n : ℕ) → nonempty (push_back xs n) ≡ true
nonempty-push_back [] n = refl
nonempty-push_back (x ∷ xs) n = refl

nonempty-remove_node :
    (xs : List ℕ) (n : ℕ) → nonempty (remove_node xs n) ≡ true → nonempty xs ≡ true
nonempty-remove_node [] n h = h
nonempty-remove_node (x ∷ xs) n h = refl

module _ {M : Type 0} ⦃pm : PriorityMap M⦄ (num : ℕ) (fits : num ≤ pm.capacity) where
  -- Adding a thread to a ready list sets the bit of its priority.
  pub add_ready-IsConsistent :
      (p : ℕ) (t : ThreadId) (s : ListStore M)
      → p < num
      → IsConsistent num s
      → IsConsistent num (add (ready_list p) t s)
  unfolding add
  add_ready-IsConsistent p t s h c =
      let xs = (s.list (ready_list p)).members in
      record {
        map_ok = rw (c.wired p h, c.level p h) (pm.set-IsConsistent p s.map (omega arith) c.map_ok);
        wired = λ q l. ground (arith, c.wired q l);
        level = λ q l. ground (arith, c.level q l);
        plain = λ l o. ground (arith, c.plain l o);
        agrees = λ q l.
            rw (c.wired p h, c.level p h)
              (ground (
                arith,
                pm.member-set p q s.map (omega arith) (omega arith),
                c.agrees q l,
                nonempty-pivot (push_back xs t),
                nonempty-push_back xs t,
              ));
        beyond = λ q l u.
            rw (c.wired p h, c.level p h)
              (ground (arith, pm.member-set p q s.map (omega arith) u, c.beyond q l u));
      }

  -- Removing the last thread of a ready list clears the bit of its priority.
  pub remove_ready-IsConsistent :
      (p : ℕ) (t : ThreadId) (s : ListStore M)
      → p < num
      → IsConsistent num s
      → IsConsistent num (remove (ready_list p) t s)
  unfolding remove
  remove_ready-IsConsistent p t s h c =
      elim (Bool-cases (nonempty (remove_node (s.list (ready_list p)).members t))) [
        | inl left ↦ record {
          map_ok = rw left c.map_ok;
          wired = λ q l. ground (arith, c.wired q l);
          level = λ q l. ground (arith, c.level q l);
          plain = λ l o. ground (arith, c.plain l o);
          agrees = λ q l. rw left (
              ground (arith, c.agrees q l, nonempty-remove_node (s.list (ready_list p)).members t));
          beyond = λ q l u. rw left (c.beyond q l u);
        }
        | inr gone ↦ record {
          map_ok =
              rw (gone, c.wired p h, c.level p h)
                (pm.clear-IsConsistent p s.map (omega arith) c.map_ok);
          wired = λ q l. ground (arith, c.wired q l);
          level = λ q l. ground (arith, c.level q l);
          plain = λ l o. ground (arith, c.plain l o);
          agrees = λ q l.
              rw (gone, c.wired p h, c.level p h)
                (ground (
                  arith,
                  gone,
                  pm.member-clear p q s.map (omega arith) (omega arith),
                  c.agrees q l,
                ));
          beyond = λ q l u.
              rw (gone, c.wired p h, c.level p h)
                (ground (arith, pm.member-clear p q s.map (omega arith) u, c.beyond q l u));
        }
      ]

  module _ (l : ListId) (o : (l ≡ stop_list) ⊎ (num < l)) (s : ListStore M)
      (c : IsConsistent num s) where
    -- New members of a list that is no ready list leave the map as it is.
    pub put_members-IsConsistent : (xs : List ThreadId) → IsConsistent num (put_members l xs s)
    put_members-IsConsistent xs = record {
      map_ok = c.map_ok;
      wired = λ q h. ground (arith, c.wired q h);
      level = λ q h. ground (arith, c.level q h);
      plain = λ j p. ground (arith, c.plain j p);
      agrees = λ q h. ground (arith, c.agrees q h);
      beyond = c.beyond;
    }

    pub add_plain-IsConsistent : (t : ThreadId) → IsConsistent num (add l t s)
    unfolding add
    add_plain-IsConsistent t = record {
      map_ok = rw (c.plain l o) c.map_ok;
      wired = λ q h. ground (arith, c.wired q h);
      level = λ q h. ground (arith, c.level q h);
      plain = λ j p. ground (arith, c.plain j p);
      agrees = λ q h. rw (c.plain l o) (ground (arith, c.agrees q h));
      beyond = λ q h u. rw (c.plain l o) (c.beyond q h u);
    }

    pub remove_plain-IsConsistent : (t : ThreadId) → IsConsistent num (remove l t s)
    unfolding remove
    remove_plain-IsConsistent t =
        let same : (if nonempty (remove_node (s.list l).members t)
              then s.map
              else if (s.list l).mapped
              then pm.clear (s.list l).priority s.map
              else s.map)
            ≡ s.map =
          rw (c.plain l o) (if_same (nonempty (remove_node (s.list l).members t)) s.map) in
        record {
          map_ok = rw same c.map_ok;
          wired = λ q h. ground (arith, c.wired q h);
          level = λ q h. ground (arith, c.level q h);
          plain = λ j p. ground (arith, c.plain j p);
          agrees = λ q h. rw same (ground (arith, c.agrees q h));
          beyond = λ q h u. rw same (c.beyond q h u);
        }

    pub add_priority_plain-IsConsistent :
        (cur : ThreadId → ℕ) (t : ThreadId) → IsConsistent num (add_priority cur l t s)
    unfolding add_priority
    add_priority_plain-IsConsistent cur t = elim (Bool-cases (nonempty (s.list l).members)) [
      | inl some_wait ↦
          rw some_wait (put_members-IsConsistent (insert_by_priority cur t (s.list l).members))
      | inr first ↦ rw first (add_plain-IsConsistent t)
    ]

  -- A turn of any list leaves the map and the lists in agreement.
  pub pivot_list-IsConsistent :
      (l : ListId) (s : ListStore M) → IsConsistent num s → IsConsistent num (pivot_list l s)
  pivot_list-IsConsistent l s c = record {
    map_ok = c.map_ok;
    wired = λ q h. ground (arith, c.wired q h);
    level = λ q h. ground (arith, c.level q h);
    plain = λ j p. ground (arith, c.plain j p);
    agrees = λ q h. ground (arith, c.agrees q h, nonempty-pivot (s.list l).members);
    beyond = c.beyond;
  }
