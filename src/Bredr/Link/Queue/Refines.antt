-- ===== src/Bredr/Link/Queue/Refines.antt =====
-- The ring against a list in the order of first samples: what an insertion makes of the events.
use native.Mathlib.Decide.{dec_lt}
use supertooth.Base.{
  ℕ, suc, ◌+◌, ◌-◌, ◌%◌, ◌<◌, ◌≤◌, ◌≡◌, refl, sym, ap, ap₂, ◌∙◌, subst, arith, true, false, ltb,
  ◌==◌, if◌then◌else◌, u32, flag, List, [], ◌∷◌, Bool-cases, inl, inr, length,
}
use supertooth.Base.Arrays.{Array, update, ring_from}
use supertooth.Models.{BredrEvent}
use supertooth.Bredr.Link.{BredrLink}
use supertooth.Bredr.Link.Queue.{
  queue_index_at, start_of, find_pos, shift_loop, queue_store, queue_insert_event,
}
use supertooth.Bredr.Link.Queue.Ring.{
  contents, insert_by_start, newest_only, is_last, QueueIsValid, shifted, placed, find_pos_bounds,
  placed-insert_by_start, find_pos-is_last, place_lem, ring_length, length-insert_by_start,
  ring_same, find_pos_next,
}

-- What is stored with room for one more event.
store_lem :
    (link : BredrLink) (e : BredrEvent) (fill : ℕ)
    → QueueIsValid link
    → fill < 128
    → let r = queue_store link e fill (find_pos fill 0 (queue_index_at link fill) link.queue e) in
      (contents r
        ≡ insert_by_start e (ring_from 128 link.queue (link.queue_head + 128 - fill) fill))
      × QueueIsValid r
unfolding queue_store placed shifted
store_lem link e fill v h =
    let i : ℕ = link.queue_head + 128 - fill in
    let index = queue_index_at link fill in
    let places = λ (p : ℕ). place_lem link fill p v (omega arith) in
    let p = find_pos fill 0 index link.queue e in
    let bounds = find_pos_bounds i index places fill 0 link.queue e in
    let last = shift_loop (fill - p) p index link.queue e in
    let rounds : fill - p ≡ 0 + fill - p = omega arith in
    let place : link.queue_head ≡ (i + (p + (0 + fill - p))) % 128 =
      omega (arith, v.head_bound, bounds) in
    let written : update last.0 link.queue_head last.1 ≡ placed i index places fill 0 link.queue e =
      ap₂
        (λ (k n : ℕ).
          update (shift_loop n p index link.queue e).0 k (shift_loop n p index link.queue e).1)
        place rounds in
    let size : u32 (fill + 1) ≡ suc fill = omega arith in
    let none_more : i + 0 ≡ i = omega arith in
    let start : ((link.queue_head + 1) % 128 + 128 - suc fill) % 128 ≡ (i + 0) % 128 =
      omega (arith, v.head_bound) in
    (
      ap
            (λ n.
              ring_from 128 (update last.0 link.queue_head last.1)
                ((link.queue_head + 1) % 128 + 128 - n) n)
            size
          ∙ ap (λ f. ring_from 128 f ((link.queue_head + 1) % 128 + 128 - suc fill) (suc fill))
              written
          ∙ ring_same (placed i index places fill 0 link.queue e) (suc fill) _ (i + 0) start
          ∙ placed-insert_by_start i index places fill 0 link.queue e h
          ∙ ap (λ n. insert_by_start e (ring_from 128 link.queue n fill)) none_more,
      record { head_bound = omega arith; fill_bound = omega arith },
    )

newest_short : (xs : List BredrEvent) → length xs ≤ 128 → newest_only xs ≡ xs
newest_short [] h = refl
newest_short (x ∷ xs) h = ground arith

newest_long : (x : BredrEvent) (xs : List BredrEvent) → length xs ≡ 128 → newest_only (x ∷ xs) ≡ xs
newest_long x xs h = ground arith

-- Where the event goes, and the three ways to go on.
abbrev target : BredrLink → BredrEvent → ℕ
target link e = find_pos link.queue_fill 0 (queue_index_at link link.queue_fill) link.queue e

abbrev insert_at : BredrLink → BredrEvent → ℕ → ℕ → ℕ × BredrLink
insert_at link e fill p =
    if fill == 128
    then if p == 0 then (0, link) else (flag (p == fill), queue_store link e (fill - 1) (p - 1))
    else (flag (p == fill), queue_store link e fill p)

insert_at_lem :
    (link : BredrLink) (e : BredrEvent)
    → queue_insert_event link e ≡ insert_at link e link.queue_fill (target link e)
unfolding queue_insert_event
insert_at_lem link e = refl

insert_room :
    (link : BredrLink) (e : BredrEvent) (fill p : ℕ)
    → fill < 128
    → insert_at link e fill p ≡ (flag (p == fill), queue_store link e fill p)
insert_room link e fill p h = let other : (fill == 128) ≡ false = ground arith in rw other

insert_full :
    (link : BredrLink) (e : BredrEvent) (m p : ℕ)
    → m ≡ 127
    → insert_at link e (suc m) (p + 1) ≡ (flag (p + 1 == suc m), queue_store link e m p)
insert_full link e m p h =
    let full : (suc m == 128) ≡ true = ground arith in
    let other : (p + 1 == 0) ≡ false = ground arith in
    let same : p + 1 - 1 ≡ p = omega arith in
    let kept : suc m - 1 ≡ m = omega arith in rw (full, other, same, kept)

insert_refused :
    (link : BredrLink) (e : BredrEvent) (m : ℕ) → m ≡ 127 → insert_at link e (suc m) 0 ≡ (0, link)
insert_refused link e m h = let full : (suc m == 128) ≡ true = ground arith in rw full

find_pos_first :
    (m : ℕ) (f g : ℕ → ℕ) (same : (p : ℕ) → f (p + 1) ≡ g p) (q : Array BredrEvent) (e : BredrEvent)
    → find_pos (suc m) 0 f q e
      ≡ (if ltb (start_of e) (start_of (q (f 0))) then 0 else find_pos m 0 g q e + 1)
unfolding find_pos
find_pos_first m f g same q e = rw (find_pos_next m 0 f g same q e)

-- What the theorem says of a result.
abbrev Inserted : BredrLink → BredrEvent → ℕ × BredrLink → Type 0
Inserted link e r =
    (contents r.1 ≡ newest_only (insert_by_start e (contents link)))
    × (r.0 ≡ flag (is_last e (contents link)))
    × QueueIsValid r.1

room_Inserted :
    (link : BredrLink) (e : BredrEvent)
    → QueueIsValid link
    → link.queue_fill < 128
    → Inserted link e (insert_at link e link.queue_fill (target link e))
room_Inserted link e v h =
    let fill = link.queue_fill in
    let i : ℕ = link.queue_head + 128 - fill in
    let index = queue_index_at link fill in
    let places = λ (p : ℕ). place_lem link fill p v (omega arith) in
    let start : i + 0 ≡ i = omega arith in
    let count : 0 + fill ≡ fill = omega arith in
    let (same, valid) = store_lem link e fill v h in
    let short =
      newest_short (insert_by_start e (contents link))
        (omega (arith, length-insert_by_start e (contents link), ring_length link.queue fill i)) in
    subst (Inserted link e) (sym (insert_room link e fill (target link e) h)) (
      same ∙ sym short,
      ap flag (
          ap (λ n. target link e == n) (sym count)
          ∙ find_pos-is_last i index places fill 0 link.queue e
          ∙ ap (λ n. is_last e (ring_from 128 link.queue n fill)) start),
      valid,
    )

-- A full ring: an event, and `m` others.
module _ (link : BredrLink) (e : BredrEvent) (v : QueueIsValid link) (m : ℕ) (most : m ≡ 127)
    (full : link.queue_fill ≡ suc m) where
  first : BredrEvent
  first = link.queue (link.queue_head % 128)

  others : List BredrEvent
  others = ring_from 128 link.queue (link.queue_head + 1) m

  full_contents : contents link ≡ first ∷ others
  unfolding first others
  full_contents =
      ap (λ n. ring_from 128 link.queue (link.queue_head + 128 - n) n) full
      ∙ ring_same link.queue (suc m) (link.queue_head + 128 - suc m) link.queue_head (omega arith)

  full_target : target link e ≡ (
      if ltb (start_of e) (start_of first)
      then 0
      else find_pos m 0 (queue_index_at link m) link.queue e + 1)
  unfolding first
  full_target =
      let places = λ (p : ℕ).
        place_lem link (suc m) (p + 1) v (omega arith)
        ∙ (let k : (link.queue_head + 128 - suc m + (p + 1)) % 128
                ≡ (link.queue_head + 128 - m + p) % 128 =
              omega arith in
            k)
        ∙ sym (place_lem link m p v (omega arith)) in
      let start : queue_index_at link (suc m) 0 ≡ link.queue_head % 128 =
        place_lem link (suc m) 0 v (omega arith)
        ∙ (let k : (link.queue_head + 128 - suc m + 0) % 128 ≡ link.queue_head % 128 =
              omega arith in
            k) in
      ap (λ n. find_pos n 0 (queue_index_at link n) link.queue e) full
      ∙ find_pos_first m (queue_index_at link (suc m)) (queue_index_at link m) places link.queue e
      ∙ ap
          (λ n.
            if ltb (start_of e) (start_of (link.queue n))
            then 0
            else find_pos m 0 (queue_index_at link m) link.queue e + 1)
          start

  others_size : length others ≡ 127
  unfolding others
  others_size = ring_length link.queue m (link.queue_head + 1) ∙ most

  others_lem : ring_from 128 link.queue (link.queue_head + 128 - m) m ≡ others
  unfolding others
  others_lem =
      ring_same link.queue m (link.queue_head + 128 - m) (link.queue_head + 1) (omega arith)

  full_last : (find_pos m 0 (queue_index_at link m) link.queue e + 1 == suc m) ≡ is_last e others
  full_last =
      let i : ℕ = link.queue_head + 128 - m in
      let p = find_pos m 0 (queue_index_at link m) link.queue e in
      let places = λ (p : ℕ). place_lem link m p v (omega arith) in
      let start : i + 0 ≡ i = omega arith in
      let same : (p + 1 == suc m) ≡ (p == 0 + m) = ground arith in
      same
      ∙ find_pos-is_last i (queue_index_at link m) places m 0 link.queue e
      ∙ ap (λ n. is_last e (ring_from 128 link.queue n m)) start
      ∙ ap (is_last e) others_lem

  -- An event that starts before all others is refused, and any other displaces the first one.
  full_Inserted : Inserted link e (insert_at link e link.queue_fill (target link e))
  full_Inserted =
      let p = find_pos m 0 (queue_index_at link m) link.queue e in
      elim (Bool-cases (ltb (start_of e) (start_of first))) [
        | inl later ↦
            let t : target link e ≡ 0 = full_target ∙ rw later in
            let r = ap₂ (λ n t. insert_at link e n t) full t ∙ insert_refused link e m most in
            let kept : newest_only (insert_by_start e (first ∷ others)) ≡ first ∷ others =
              rw later (newest_long e (first ∷ others) (omega (arith, others_size))) in
            let result : flag (is_last e (first ∷ others)) ≡ 0 = rw later in
            subst (Inserted link e) (sym r) (
              full_contents
                  ∙ sym (ap (λ l. newest_only (insert_by_start e l)) full_contents ∙ kept),
              sym (ap (λ l. flag (is_last e l)) full_contents ∙ result),
              v,
            )
        | inr sooner ↦
            let t : target link e ≡ p + 1 = full_target ∙ rw sooner in
            let r = ap₂ (λ n t. insert_at link e n t) full t ∙ insert_full link e m p most in
            let (same, valid) = store_lem link e m v (omega arith) in
            let size : length (insert_by_start e others) ≡ 128 =
              omega (arith, length-insert_by_start e others, others_size) in
            let kept : newest_only (insert_by_start e (first ∷ others)) ≡ insert_by_start e others =
              rw sooner (newest_long first (insert_by_start e others) size) in
            let result : flag (is_last e (first ∷ others)) ≡ flag (is_last e others) = rw sooner in
            subst (Inserted link e) (sym r) (
              same
                  ∙ ap (insert_by_start e) others_lem
                  ∙ sym (ap (λ l. newest_only (insert_by_start e l)) full_contents ∙ kept),
              ap flag full_last ∙ sym (ap (λ l. flag (is_last e l)) full_contents ∙ result),
              valid,
            )
      ]

-- An insertion keeps the ring valid. The events that it holds after it are those before with the new
-- one in its place in the order of first samples, behind those that start at the same sample,
-- less the one that starts first if there are more than 128; the result tells whether none starts
-- later than the new one.
pub queue_insert_event-insert_by_start :
    (link : BredrLink) (e : BredrEvent)
    → QueueIsValid link
    → (contents (queue_insert_event link e).1 ≡ newest_only (insert_by_start e (contents link)))
      × ((queue_insert_event link e).0 ≡ flag (is_last e (contents link)))
      × QueueIsValid (queue_insert_event link e).1
queue_insert_event-insert_by_start link e v =
    subst (Inserted link e) (sym (insert_at_lem link e)) (elim (dec_lt link.queue_fill 128) [
      | yes h ↦ room_Inserted link e v h
      | no h ↦ full_Inserted link e v 127 refl (omega (arith, v.fill_bound))
    ])
