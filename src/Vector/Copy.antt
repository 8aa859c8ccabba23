-- ===== src/Vector/Copy.antt =====
-- `copy_with_capacity` and `shallow_copy` of src/dag_node/allocator/node_vector.rs.
use mod2gc.Base.{
  ℕ, zero, suc, ◌+◌, ◌≤◌, ◌<◌, ◌^◌, ◌≡◌, ◌∙◌, refl, ap, sym, subst, inl, inr, true, false, List, [],
  ◌∷◌, Outcome, ok, panic, ◌>>=◌, >>=-cong, Returns, arith, length, take, length-take, min, ltb,
  if◌then◌else◌, Bool-cases,
}
use mod2gc.Node.{DagNodePtr}
use mod2gc.Storage.{Address}
use mod2gc.Storage.History.{Sound}
use mod2gc.Vector.{
  Slice, NodeVector, Memory, same_address, vector_size, slot, items_from, get, set, set_length,
  with_capacity, copy_items, copy_slots, from_slice, copy_grown, copy_prefix, copy_with_capacity,
  shallow_copy,
}
use mod2gc.Vector.Owns.{nth, Owns, slot-Held, same_address-false}
use mod2gc.Vector.Make.{Made, with_capacity-Made, Filled, copy_items-Filled}
use mod2gc.Vector.Fill.{
  Made-slots, Made-set_length, Made-Filled, from_slice-Made_length, header_other, header_length,
}

-- The loop that reads with a check does what the loop of `from_slice` does.
copy_slots-copy_items :
    (d e : Slice) (i left : ℕ) (m : Memory)
    → i + left ≤ d.len
    → copy_slots d e i left m ≡ copy_items (λ m j. m.slots (slot d.ptr j)) e i left m
unfolding copy_slots copy_items get
copy_slots-copy_items d e i zero m le = refl
copy_slots-copy_items d e i (suc left) m le =
    let room : ltb i d.len ≡ true = ground arith in
    rw room (
      >>=-cong (set m e i (m.slots (slot d.ptr i))) (copy_slots d e (i + 1) left)
        (copy_items (λ m j. m.slots (slot d.ptr j)) e (i + 1) left)
        (λ t. copy_slots-copy_items d e (i + 1) left t (omega arith)))

nth-take : (n j : ℕ) (xs : List DagNodePtr) → j < n → nth (take n xs) j ≡ nth xs j
nth-take zero j xs lt = absurd (omega arith)
nth-take (suc n) j [] lt = refl
nth-take (suc n) zero (x ∷ xs) lt = refl
nth-take (suc n) (suc j) (x ∷ xs) lt = nth-take n j xs (omega arith)

length-items_from :
    (slots : Address → DagNodePtr) (p : Address) (i n : ℕ) → length (items_from slots p i n) ≡ n
length-items_from slots p i zero = refl
length-items_from slots p i (suc n) = omega (arith, length-items_from slots p (i + 1) n)

nth-items_from :
    (slots : Address → DagNodePtr) (p : Address) (i n j k : ℕ)
    → k ≡ i + j
    → j < n
    → nth (items_from slots p i n) j ≡ slots (slot p k)
nth-items_from slots p i zero j k e lt = absurd (omega arith)
nth-items_from slots p i (suc n) zero k e lt = let at : k ≡ i = omega (arith, e) in rw at refl
nth-items_from slots p i (suc n) (suc j) k e lt =
    nth-items_from slots p (i + 1) n j k (omega (arith, e)) (omega arith)

module _ (base : ℕ → ℕ) (m : Memory) (sound : Sound m.storage) (self : Address)
    (xs : List DagNodePtr) (cap new : ℕ) (o : Owns m self xs cap) (small : new < 2 ^ 57) where
  abbrev old : NodeVector
  old = record { length = length xs; capacity = cap; slice = record { ptr = o.ptr; len = cap } }

  more-eq :
      (r : Address × Memory) (d : Slice) (t : Memory)
      → ltb cap new ≡ true
      → with_capacity base new m ≡ ok r
      → r.1.vectors self ≡ old
      → (set_length r.1 r.0 (length xs)).vectors self ≡ old
      → ((set_length r.1 r.0 (length xs)).vectors r.0).slice ≡ d
      → copy_slots old.slice d 0 (length xs) (set_length r.1 r.0 (length xs)) ≡ ok t
      → copy_with_capacity base self new m ≡ ok (r.0, t)
  unfolding copy_with_capacity
  more-eq r d t more e h h' s f =
      let n = length xs in
      let m₂ : Memory = set_length r.1 r.0 n in
      let more_branch : Outcome (Address × Memory) =
        with_capacity base new m >>= (λ (x : Address × Memory). copy_grown base self x.0 x.1) in
      let less_branch : NodeVector → Outcome (Address × Memory) =
        λ h. if ltb h.slice.len new then panic else copy_prefix base self new m in
      let done : Memory → Outcome (Address × Memory) = λ t. ok (r.0, t) in
      ap (λ (h : NodeVector). if ltb h.capacity new then more_branch else less_branch h) o.header
      ∙ ap (λ b. if b then more_branch else less_branch old) more
      ∙ ap (λ c. c >>= (λ (x : Address × Memory). copy_grown base self x.0 x.1)) e
      ∙ ap
          (λ (h : NodeVector).
            let t = set_length r.1 r.0 h.length in
            copy_slots (t.vectors self).slice (t.vectors r.0).slice 0 (t.vectors self).length t
            >>= done)
          h
      ∙ ap (λ (h : NodeVector). copy_slots h.slice (m₂.vectors r.0).slice 0 h.length m₂ >>= done) h'
      ∙ ap (λ d. copy_slots old.slice d 0 n m₂ >>= done) s
      ∙ ap (λ c. c >>= done) f

  -- A copy to a larger capacity.
  copy_more : ltb cap new ≡ true → Returns (Made m xs new) (copy_with_capacity base self new m)
  copy_more more =
      let n = length xs in
      let (r, e, made) = with_capacity-Made base m sound new small in
      let d : Slice = record { ptr = made.owns.ptr; len = new } in
      let m₂ : Memory = set_length r.1 r.0 n in
      let apart : same_address self r.0 ≡ false =
        same_address-false self r.0 vector_size vector_size (made.clear self vector_size o.held).0
          (omega arith) (omega arith) in
      let h : r.1.vectors self ≡ old = made.grows.vectors self o.held ∙ o.header in
      let (t, f, filled) =
        copy_items-Filled (λ m j. m.slots (slot o.ptr j)) d (nth xs) 0 n m₂ (ground (arith, o.fits))
          (λ g k j lt.
            (Made-slots m r.1 r.0 [] new made g k).slots (slot o.ptr j)
              (slot-Held m.storage o.ptr cap j o.held_slots (omega (arith, o.fits)))
            ∙ o.items j (omega arith)) in
      let parts : Filled r.1 d 0 n (nth xs) (record r.1 { slots = filled.slots }) = record {
        slots = filled.slots;
        same = refl;
        inside = filled.inside;
        outside = filled.outside;
      } in
      let result =
        Made-Filled m r.1 r.0 new made xs n (nth xs) (record r.1 { slots = filled.slots }) parts
          (omega arith) (ground (arith, o.fits)) (λ j h. refl) in
      (
        (r.0, t),
        more-eq r d t more e h (header_other r.1 r.0 self n apart ∙ h)
            (ap (λ (h : NodeVector). h.slice)
              (header_length r.1 r.0 n
                ∙ ap (λ (h : NodeVector). record h { length = n }) made.owns.header))
            (copy_slots-copy_items old.slice d 0 n m₂ (omega (arith, o.fits)) ∙ f),
        subst (λ t. Made m xs new (r.0, t)) (sym filled.same) result,
      )

  less-eq :
      (v : Address) (t : Memory)
      → ltb cap new ≡ false
      → from_slice base new (λ m i. m.slots (slot o.ptr i)) m ≡ ok (v, t)
      → t.vectors self ≡ old
      → copy_with_capacity base self new m ≡ ok (v, set_length t v (min (length xs) new))
  unfolding copy_with_capacity
  less-eq v t less e h =
      let more_branch : Outcome (Address × Memory) =
        with_capacity base new m >>= (λ (x : Address × Memory). copy_grown base self x.0 x.1) in
      let after : Address × Memory → Outcome (Address × Memory) = λ (x : Address × Memory).
        ok (x.0, set_length x.1 x.0 (min (x.1.vectors self).length new)) in
      ap
        (λ (h : NodeVector).
          if ltb h.capacity new
          then more_branch
          else if ltb h.slice.len new
          then panic
          else from_slice base new (λ m i. m.slots (slot h.slice.ptr i)) m >>= after)
        o.header
      ∙ ap
          (λ b.
            if b
            then more_branch
            else if b
            then panic
            else from_slice base new (λ m i. m.slots (slot o.ptr i)) m >>= after)
          less
      ∙ ap (λ c. c >>= after) e
      ∙ ap (λ (h : NodeVector). ok (v, set_length t v (min h.length new))) h

  -- A copy to the same capacity or a smaller one.
  copy_less :
      ltb cap new ≡ false → Returns (Made m (take new xs) new) (copy_with_capacity base self new m)
  copy_less less =
      let all = items_from m.slots o.ptr 0 new in
      let size : length all ≡ new = length-items_from m.slots o.ptr 0 new in
      let (r, e, made) =
        from_slice-Made_length base m sound (λ m i. m.slots (slot o.ptr i)) all new size small
          (λ t g j lt.
            g.slots (slot o.ptr j)
              (slot-Held m.storage o.ptr cap j o.held_slots (ground (arith, size)))
            ∙ sym
                (nth-items_from m.slots o.ptr 0 new j j (omega arith) (omega (arith, size, lt)))) in
      let count : length (take new xs) ≡ min (length xs) new = length-take new xs in
      let result =
        Made-set_length m r.1 r.0 all new made (take new xs) (omega (arith, count, size)) (λ j lt.
          nth-items_from m.slots o.ptr 0 new j j (omega arith) (omega (arith, count))
          ∙ o.items j (omega (arith, count))
          ∙ sym (nth-take new j xs (omega (arith, count)))) in
      (
        (r.0, set_length r.1 r.0 (length (take new xs))),
        less-eq r.0 r.1 less e (made.grows.vectors self o.held ∙ o.header)
            ∙ ap (λ k. ok (r.0, set_length r.1 r.0 k)) (sym count),
        result,
      )

take-all : (n : ℕ) (xs : List DagNodePtr) → length xs ≤ n → take n xs ≡ xs
take-all zero [] le = refl
take-all zero (x ∷ xs) le = absurd (omega arith)
take-all (suc n) [] le = refl
take-all (suc n) (x ∷ xs) le = ap (λ t. x ∷ t) (take-all n xs (omega arith))

module _ (base : ℕ → ℕ) (m : Memory) (sound : Sound m.storage) (self : Address)
    (xs : List DagNodePtr) (cap : ℕ) (o : Owns m self xs cap) where
  -- For a vector in blocks below their buckets' cursors, and valid lists of buckets,
  -- `copy_with_capacity` with a capacity below 2 ^ 57 returns a vector of that capacity with the
  -- items of the old one, cut off where they are more; its blocks are apart from all handed out
  -- before, which keep what they hold.
  pub copy_with_capacity-Made :
      (new : ℕ)
      → new < 2 ^ 57
      → Returns (Made m (take new xs) new) (copy_with_capacity base self new m)
  copy_with_capacity-Made new small = elim (Bool-cases (ltb cap new)) [
    | inr less ↦ copy_less base m sound self xs cap new o small less
    | inl more ↦
        let (r, e, d) = copy_more base m sound self xs cap new o small more in
        (r, e, rw (take-all new xs (ground (arith, o.fits))) d)
  ]

  -- A copy with the same items and capacity.
  pub shallow_copy-Made : Returns (Made m xs cap) (shallow_copy base self m)
  unfolding shallow_copy
  shallow_copy-Made =
      let (r, e, d) = copy_with_capacity-Made cap o.small in
      (
        r,
        ap (λ (h : NodeVector). copy_with_capacity base self h.capacity m) o.header ∙ e,
        rw (← take-all cap xs o.fits) d,
      )
