-- ===== src/Bredr/Link/Queue/Ring.antt =====
-- The ring as a list in the order of first samples, and what the two loops of an insertion do to it.
use supertooth.Base.{
  ℕ, zero, suc, ◌+◌, ◌-◌, ◌%◌, ◌<◌, ◌≤◌, ◌≡◌, refl, sym, ap, ap₂, ◌∙◌, subst, arith, Bool, true,
  false, ltb, ◌==◌, if◌then◌else◌, List, [], ◌∷◌, Bool-cases, inl, inr, length,
}
use supertooth.Base.Arrays.{Array, update, ring_from}
use supertooth.Models.{BredrEvent}
use supertooth.Bredr.Link.{BredrLink}
use supertooth.Bredr.Link.Queue.{queue_oldest_index, queue_index_at, start_of, find_pos, shift_loop}

-- The events, the oldest first.
abbrev pub contents : BredrLink → List BredrEvent
contents link = ring_from 128 link.queue (link.queue_head + 128 - link.queue_fill) link.queue_fill

-- An event in its place: before the first one that starts later.
abbrev pub insert_by_start : BredrEvent → List BredrEvent → List BredrEvent
insert_by_start e [] = e ∷ []
insert_by_start e (x ∷ xs) =
    if ltb (start_of e) (start_of x) then e ∷ x ∷ xs else (x ∷ insert_by_start e xs)

-- The 128 events that start last, of a list that may have one more.
abbrev pub newest_only : List BredrEvent → List BredrEvent
newest_only [] = []
newest_only (x ∷ xs) = if ltb 128 (length (x ∷ xs)) then xs else x ∷ xs

-- No event starts later.
abbrev pub is_last : BredrEvent → List BredrEvent → Bool
is_last e [] = true
is_last e (x ∷ xs) = if ltb (start_of e) (start_of x) then false else is_last e xs

-- What a ring of 128 events is at any time.
pub record QueueIsValid (link : BredrLink) : Type 0 where
  pub head_bound : link.queue_head < 128
  pub fill_bound : link.queue_fill ≤ 128

-- A write outside the part that is read.
pub ring_from-update :
    (q : Array BredrEvent) (v : BredrEvent) (n i j : ℕ)
    → j < i
    → i + n ≤ j + 128
    → ring_from 128 (update q (j % 128) v) i n ≡ ring_from 128 q i n
ring_from-update q v zero i j h k = refl
ring_from-update q v (suc n) i j h k =
    ap₂ (λ x l. x ∷ l) (ground arith) (ring_from-update q v n (i + 1) j (omega arith) (omega arith))

-- The positions of the loops are places of the ring from `i` on.
module _ (i : ℕ) (index : ℕ → ℕ) (at_place : (p : ℕ) → index p ≡ (i + p) % 128) where
  -- The second loop with the write that follows it.
  unfoldable pub shifted : ℕ → ℕ → Array BredrEvent → BredrEvent → Array BredrEvent
  shifted left pos q carry =
      let (q', last) = shift_loop left pos index q carry in
      update q' ((i + (pos + left)) % 128) last

  -- The places before the first position stay.
  pub shifted_before :
      (left pos : ℕ) (q : Array BredrEvent) (carry : BredrEvent) (j : ℕ)
      → j < i + pos
      → i + pos + left < j + 128
      → shifted left pos q carry (j % 128) ≡ q (j % 128)
  unfolding shifted shift_loop
  shifted_before zero pos q carry j h k = ground arith
  shifted_before (suc left) pos q carry j h k =
      let e : pos + suc left ≡ pos + 1 + left = omega arith in
      rw e (
        shifted_before left (pos + 1) (update q (index pos) carry) (q (index pos)) j (omega arith)
          (omega arith)
        ∙ ground (arith, at_place pos))

  -- The events from the first position on move by one place, and the carried one comes first.
  pub shifted_lem :
      (left pos : ℕ) (q : Array BredrEvent) (carry : BredrEvent)
      → left < 128
      → ring_from 128 (shifted left pos q carry) (i + pos) (suc left)
        ≡ carry ∷ ring_from 128 q (i + pos) left
  unfolding shifted shift_loop
  shifted_lem zero pos q carry h =
      let e : i + (pos + 0) ≡ i + pos = omega arith in rw e (ground arith)
  shifted_lem (suc left) pos q carry h =
      let q' = update q (index pos) carry in
      let c' = q (index pos) in
      let e : pos + suc left ≡ pos + 1 + left = omega arith in
      let e' : i + (pos + 1) ≡ i + pos + 1 = omega arith in
      let same : shifted (suc left) pos q carry ≡ shifted left (pos + 1) q' c' =
        ap
          (λ n. λ j.
            update (shift_loop left (pos + 1) index q' c').0 ((i + n) % 128)
              (shift_loop left (pos + 1) index q' c').1 j)
          e in
      let first : shifted left (pos + 1) q' c' ((i + pos) % 128) ≡ carry =
        shifted_before left (pos + 1) q' c' (i + pos) (omega arith) (omega arith)
        ∙ ground (arith, at_place pos) in
      let rest =
        subst
          (λ n.
            ring_from 128 (shifted left (pos + 1) q' c') n (suc left)
            ≡ c' ∷ ring_from 128 q' n left)
          e' (shifted_lem left (pos + 1) q' c' (omega arith)) in
      let kept : ring_from 128 q' (i + pos + 1) left ≡ ring_from 128 q (i + pos + 1) left =
        subst
          (λ k.
            ring_from 128 (update q k carry) (i + pos + 1) left
            ≡ ring_from 128 q (i + pos + 1) left)
          (sym (at_place pos))
          (ring_from-update q carry left (i + pos + 1) (i + pos) (omega arith) (omega arith)) in
      ap (λ f. ring_from 128 f (i + pos) (suc (suc left))) same
      ∙ ap₂ (λ x l. x ∷ l) first (rest ∙ ap₂ (λ x l. x ∷ l) (ap q (at_place pos)) kept)

  -- Both loops.
  unfoldable pub placed : ℕ → ℕ → Array BredrEvent → BredrEvent → Array BredrEvent
  placed left pos q e = let p = find_pos left pos index q e in shifted (pos + left - p) p q e

  pub find_pos_bounds :
      (left pos : ℕ) (q : Array BredrEvent) (e : BredrEvent)
      → (pos ≤ find_pos left pos index q e) × (find_pos left pos index q e ≤ pos + left)
  unfolding find_pos
  find_pos_bounds zero pos q e = (omega arith, omega arith)
  find_pos_bounds (suc left) pos q e = ground (arith, find_pos_bounds left (pos + 1) q e)

  pub placed_before :
      (left pos : ℕ) (q : Array BredrEvent) (e : BredrEvent) (j : ℕ)
      → j < i + pos
      → i + pos + left < j + 128
      → placed left pos q e (j % 128) ≡ q (j % 128)
  unfolding placed
  placed_before left pos q e j h k =
      let (low, high) = find_pos_bounds left pos q e in
      let p = find_pos left pos index q e in
      shifted_before (pos + left - p) p q e j (omega arith) (omega arith)

  pub placed_here :
      (left pos : ℕ) (q : Array BredrEvent) (e : BredrEvent)
      → ltb (start_of e) (start_of (q ((i + pos) % 128))) ≡ true
      → placed (suc left) pos q e ≡ shifted (suc left) pos q e
  unfolding placed find_pos
  placed_here left pos q e h =
      let n : pos + suc left - pos ≡ suc left = omega arith in rw (at_place pos, h, n)

  pub placed_next :
      (left pos : ℕ) (q : Array BredrEvent) (e : BredrEvent)
      → ltb (start_of e) (start_of (q ((i + pos) % 128))) ≡ false
      → placed (suc left) pos q e ≡ placed left (pos + 1) q e
  unfolding placed find_pos
  placed_next left pos q e h =
      let n : pos + suc left ≡ pos + 1 + left = omega arith in rw (at_place pos, h, n)

  pub placed-insert_by_start :
      (left pos : ℕ) (q : Array BredrEvent) (e : BredrEvent)
      → left < 128
      → ring_from 128 (placed left pos q e) (i + pos) (suc left)
        ≡ insert_by_start e (ring_from 128 q (i + pos) left)
  unfolding placed find_pos
  placed-insert_by_start zero pos q e h =
      let n : pos + 0 - pos ≡ 0 = omega arith in rw n (shifted_lem 0 pos q e h)
  placed-insert_by_start (suc left) pos q e h =
      let next : i + (pos + 1) ≡ i + pos + 1 = omega arith in
      let rest =
        subst
          (λ k.
            ring_from 128 (placed left (pos + 1) q e) k (suc left)
            ≡ insert_by_start e (ring_from 128 q k left))
          next (placed-insert_by_start left (pos + 1) q e (omega arith)) in
      let first = placed_before left (pos + 1) q e (i + pos) (omega arith) (omega arith) in
      elim (Bool-cases (ltb (start_of e) (start_of (q ((i + pos) % 128))))) [
        | inl later ↦
            ap (λ f. ring_from 128 f (i + pos) (suc (suc left))) (placed_here left pos q e later)
            ∙ shifted_lem (suc left) pos q e h
            ∙ rw later
        | inr sooner ↦
            ap (λ f. ring_from 128 f (i + pos) (suc (suc left))) (placed_next left pos q e sooner)
            ∙ ap₂ (λ x l. x ∷ l) first rest
            ∙ rw sooner
      ]

  -- The position is the last one if no event starts later.
  pub find_pos-is_last :
      (left pos : ℕ) (q : Array BredrEvent) (e : BredrEvent)
      → (find_pos left pos index q e == pos + left) ≡ is_last e (ring_from 128 q (i + pos) left)
  unfolding find_pos
  find_pos-is_last zero pos q e = ground arith
  find_pos-is_last (suc left) pos q e =
      let n : pos + suc left ≡ pos + 1 + left = omega arith in
      let next : i + (pos + 1) ≡ i + pos + 1 = omega arith in
      let rest =
        subst
          (λ k.
            (find_pos left (pos + 1) index q e == pos + 1 + left)
            ≡ is_last e (ring_from 128 q k left))
          next (find_pos-is_last left (pos + 1) q e) in
      ground (arith, at_place pos, rest, n)

-- The places of the loops, for a number of events that are kept.
pub place_lem :
    (link : BredrLink) (fill p : ℕ)
    → QueueIsValid link
    → fill ≤ 128
    → queue_index_at link fill p ≡ (link.queue_head + 128 - fill + p) % 128
unfolding queue_index_at queue_oldest_index
place_lem link fill p v h = omega (arith, v.head_bound)

pub ring_length : (q : Array BredrEvent) (n i : ℕ) → length (ring_from 128 q i n) ≡ n
ring_length q zero i = refl
ring_length q (suc n) i = ap suc (ring_length q n (i + 1))

pub length-insert_by_start :
    (e : BredrEvent) (xs : List BredrEvent) → length (insert_by_start e xs) ≡ suc (length xs)
length-insert_by_start e [] = refl
length-insert_by_start e (x ∷ xs) = ground (arith, length-insert_by_start e xs)

pub ring_same :
    (q : Array BredrEvent) (n i j : ℕ)
    → i % 128 ≡ j % 128
    → ring_from 128 q i n ≡ ring_from 128 q j n
ring_same q zero i j h = refl
ring_same q (suc n) i j h =
    ap₂ (λ x l. x ∷ l) (ap q h) (ring_same q n (i + 1) (j + 1) (omega arith))

pub find_pos_next :
    (left pos : ℕ) (f g : ℕ → ℕ) (same : (p : ℕ) → f (p + 1) ≡ g p) (q : Array BredrEvent)
    (e : BredrEvent)
    → find_pos left (pos + 1) f q e ≡ find_pos left pos g q e + 1
unfolding find_pos
find_pos_next zero pos f g same q e = refl
find_pos_next (suc left) pos f g same q e =
    ground (arith, same pos, find_pos_next left (pos + 1) f g same q e)
