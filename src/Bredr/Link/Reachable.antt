-- ===== src/Bredr/Link/Reachable.antt =====
-- What every connection keeps, from its start through all events that are added to it. That the
-- registry resets the recovery of a connection after an idle time is not among the steps.
use supertooth.Base.{
  ℕ, ◌+◌, ◌≤◌, ◌≡◌, inl, inr, refl, sym, ◌∙◌, subst, arith, bit_and, Bool, true, false, ◌||◌, not,
  List, [], ◌∷◌, Bytes, ltb, ◌==◌, if◌then◌else◌, Bool-cases, u64, length,
}
use supertooth.Models.{BredrEvent}
use supertooth.Bredr.Link.{BredrLink, link_init, recovery_reset}
use supertooth.Bredr.Link.Queue.{start_of, queue_store, queue_insert_event}
use supertooth.Bredr.Link.Queue.Ring.{contents, insert_by_start, newest_only, QueueIsValid}
use supertooth.Bredr.Link.Queue.Refines.{queue_insert_event-insert_by_start}
use supertooth.Bredr.Link.Packets.{
  has_active_track, record_packet, add_combined, add_directional, drive_recovery, link_add_packet,
}
use supertooth.Bredr.Recovery.Lock.{LockIsValid, no_lock, locked}
use supertooth.Bredr.Recovery.Lock.Process.{recovery_process-LockIsValid}
use supertooth.Bredr.Recovery.Track.{recovery_process}
use supertooth.Bredr.Recovery.Frame.{Holds, recovery_process-Holds}

-- No event of the list starts before `s`.
abbrev pub AllFrom : ℕ → List BredrEvent → Type 0
AllFrom s [] = Unit {0}
AllFrom s (x ∷ xs) = (s ≤ start_of x) × AllFrom s xs

abbrev pub IsSorted : List BredrEvent → Type 0
IsSorted [] = Unit {0}
IsSorted (x ∷ xs) = AllFrom (start_of x) xs × IsSorted xs

AllFrom-le : (s t : ℕ) (xs : List BredrEvent) → s ≤ t → AllFrom t xs → AllFrom s xs
AllFrom-le s t [] h a = tt
AllFrom-le s t (x ∷ xs) h (a, as_) = (omega arith, AllFrom-le s t xs h as_)

if-AllFrom :
    (s : ℕ) (b : Bool) (xs ys : List BredrEvent)
    → AllFrom s xs
    → AllFrom s ys
    → AllFrom s (if b then xs else ys)
if-AllFrom s true xs ys h k = h
if-AllFrom s false xs ys h k = k

insert-AllFrom :
    (s : ℕ) (e : BredrEvent) (xs : List BredrEvent)
    → s ≤ start_of e
    → AllFrom s xs
    → AllFrom s (insert_by_start e xs)
insert-AllFrom s e [] h a = (h, tt)
insert-AllFrom s e (x ∷ xs) h (a, rest) =
    if-AllFrom s (ltb (start_of e) (start_of x)) _ _ (h, (a, rest))
      (a, insert-AllFrom s e xs h rest)

insert-IsSorted :
    (e : BredrEvent) (xs : List BredrEvent) → IsSorted xs → IsSorted (insert_by_start e xs)
insert-IsSorted e [] h = (tt, tt)
insert-IsSorted e (x ∷ xs) (a, s) = elim (Bool-cases (ltb (start_of e) (start_of x))) [
  | inl later ↦
      let low : start_of e ≤ start_of x = ground arith in
      rw later ((low, AllFrom-le (start_of e) (start_of x) xs low a), (a, s))
  | inr sooner ↦
      rw sooner (insert-AllFrom (start_of x) e xs (ground arith) a, insert-IsSorted e xs s)
]

newest-IsSorted : (xs : List BredrEvent) → IsSorted xs → IsSorted (newest_only xs)
newest-IsSorted [] h = tt
newest-IsSorted (x ∷ xs) (a, s) = elim (Bool-cases (ltb 128 (length (x ∷ xs)))) [
  | inl long ↦ rw long s
  | inr short ↦ rw short (a, s)
]

pub record LinkIsValid (link : BredrLink) : Type 0 where
  pub queue_valid : QueueIsValid link
  pub sorted : IsSorted (contents link)
  pub lock_valid : LockIsValid link

-- The connections that the events of a stream lead to.
pub data Reachable (isnan : ℕ → Bool) : BredrLink → Type 0 where
  begun : (lap : ℕ) → Reachable isnan (link_init lap)
  added :
      {link : BredrLink} (stack : Bytes) (event : BredrEvent)
      → Reachable isnan link
      → Reachable isnan (link_add_packet isnan stack link event).1

-- Links that agree on the queue hold the same events.
same_queue :
    (link link' : BredrLink)
    → Holds link.queue link.queue_head link.queue_fill link'
    → QueueIsValid link
    → IsSorted (contents link)
    → QueueIsValid link' × IsSorted (contents link')
same_queue link link' h v s = (
  record {
    head_bound = omega (arith, h.head_is, v.head_bound);
    fill_bound = omega (arith, h.fill_is, v.fill_bound);
  },
  rw (h.queue_is, h.head_is, h.fill_is) s,
)

-- The fields of the lock.
record SameLock (link link' : BredrLink) : Type 0 where
  valid_is : link'.uap_valid ≡ link.uap_valid
  known_is : link'.clk_known ≡ link.clk_known
  state_is : link'.tracking_state ≡ link.tracking_state
  offset_is : link'.clock_offset ≡ link.clock_offset
  drift_is : link'.drift_candidate ≡ link.drift_candidate

same_lock : (link link' : BredrLink) → SameLock link link' → LockIsValid link → LockIsValid link'
same_lock link link' h (no_lock u) = no_lock (record {
  unknown = h.known_is ∙ u.unknown;
  state_range = rw h.state_is u.state_range;
  offset_range = omega (arith, h.offset_is, u.offset_range);
  drift_range = rw h.drift_is u.drift_range;
})
same_lock link link' h (locked valid p c offset old) =
    locked (rw h.valid_is valid) (rw h.state_is p) (rw h.state_is c) (omega (arith, h.offset_is))
      (rw h.drift_is old)

-- Links that agree on both.
same_link :
    (link link' : BredrLink)
    → Holds link.queue link.queue_head link.queue_fill link'
    → SameLock link link'
    → LinkIsValid link
    → LinkIsValid link'
same_link link link' q l v =
    let (valid, sorted) = same_queue link link' q v.queue_valid v.sorted in
    record {
      queue_valid = valid;
      sorted = sorted;
      lock_valid = same_lock link link' l v.lock_valid;
    }

if-LinkIsValid :
    (b : Bool) (x y : BredrLink) → LinkIsValid x → LinkIsValid y → LinkIsValid (if b then x else y)
if-LinkIsValid true x y h k = h
if-LinkIsValid false x y h k = k

if_pair-LinkIsValid :
    (b : Bool) (x y : ℕ × BredrLink)
    → LinkIsValid x.1
    → LinkIsValid y.1
    → LinkIsValid (if b then x else y).1
if_pair-LinkIsValid true x y h k = h
if_pair-LinkIsValid false x y h k = k

link_init-LinkIsValid : (lap : ℕ) → LinkIsValid (link_init lap)
unfolding link_init recovery_reset
link_init-LinkIsValid lap =
    if-LinkIsValid (bit_and lap 0xffffff == 0x9e8b33 || bit_and lap 0xffffff == 0x9e8b00) _ _
      (record {
        queue_valid = record { head_bound = omega arith; fill_bound = omega arith };
        sorted = tt;
        lock_valid = no_lock (record {
          unknown = refl;
          state_range = refl;
          offset_range = omega arith;
          drift_range = omega arith;
        });
      })
      (record {
        queue_valid = record { head_bound = omega arith; fill_bound = omega arith };
        sorted = tt;
        lock_valid = no_lock (record {
          unknown = refl;
          state_range = refl;
          offset_range = omega arith;
          drift_range = omega arith;
        });
      })

-- An insertion leaves the lock alone.
insert-SameLock : (link : BredrLink) (e : BredrEvent) → SameLock link (queue_insert_event link e).1
unfolding queue_insert_event queue_store
insert-SameLock link e = ground arith

insert-LinkIsValid :
    (link : BredrLink) (e : BredrEvent)
    → LinkIsValid link
    → LinkIsValid (queue_insert_event link e).1
insert-LinkIsValid link e v =
    let (same, result, valid) = queue_insert_event-insert_by_start link e v.queue_valid in
    record {
      queue_valid = valid;
      sorted = subst IsSorted (sym same) (
          newest-IsSorted (insert_by_start e (contents link))
            (insert-IsSorted e (contents link) v.sorted));
      lock_valid =
          same_lock link (queue_insert_event link e).1 (insert-SameLock link e) v.lock_valid;
    }

record_packet-LinkIsValid :
    (link : BredrLink) (event : BredrEvent)
    → LinkIsValid link
    → LinkIsValid (record_packet link event).1
unfolding record_packet
record_packet-LinkIsValid link event v =
    let counted = record link { total_packets = u64 (link.total_packets + 1) } in
    let counted_valid = same_link link counted (ground arith) (ground arith) v in
    same_link (queue_insert_event counted event).1 (record_packet link event).1 (ground arith)
      (ground arith) (insert-LinkIsValid counted event counted_valid)

add_combined-LinkIsValid :
    (isnan : ℕ → Bool) (link : BredrLink) (event : BredrEvent)
    → LinkIsValid link
    → LinkIsValid (add_combined isnan link event)
unfolding add_combined
add_combined-LinkIsValid isnan link event v =
    same_link link (add_combined isnan link event) (ground arith) (ground arith) v

add_directional-LinkIsValid :
    (link : BredrLink) (event : BredrEvent)
    → LinkIsValid link
    → LinkIsValid (add_directional link event)
unfolding add_directional
add_directional-LinkIsValid link event v =
    same_link link (add_directional link event) (ground arith) (ground arith) v

drive_recovery-LinkIsValid :
    (stack : Bytes) (link : BredrLink) (event : BredrEvent)
    → LinkIsValid link
    → LinkIsValid (drive_recovery stack link event).1
unfolding drive_recovery
drive_recovery-LinkIsValid stack link event v =
    let driven = (recovery_process stack link event).1 in
    let (valid, sorted) =
      same_queue link driven (recovery_process-Holds stack link event) v.queue_valid v.sorted in
    if_pair-LinkIsValid (event.frame.has_header == 0) _ _ v (record {
      queue_valid = valid;
      sorted = sorted;
      lock_valid = recovery_process-LockIsValid stack link event v.lock_valid;
    })

-- An event keeps a connection valid, whatever it holds.
link_add_packet-LinkIsValid :
    (isnan : ℕ → Bool) (stack : Bytes) (link : BredrLink) (event : BredrEvent)
    → LinkIsValid link
    → LinkIsValid (link_add_packet isnan stack link event).1
unfolding link_add_packet
link_add_packet-LinkIsValid isnan stack link event v =
    let recorded = (record_packet link event).1 in
    let recorded_valid = record_packet-LinkIsValid link event v in
    let newest = (record_packet link event).0 in
    let begun_valid =
      if-LinkIsValid (newest == 0) recorded (add_combined isnan recorded event) recorded_valid
        (add_combined-LinkIsValid isnan recorded event recorded_valid) in
    let driven =
      drive_recovery stack (if newest == 0 then recorded else add_combined isnan recorded event)
        event in
    let driven_valid = drive_recovery-LinkIsValid stack _ event begun_valid in
    if_pair-LinkIsValid (newest == 0) _ _ begun_valid (
      if_pair-LinkIsValid
        (not (has_active_track recorded) || driven.0 == 0 || isnan event.meta.rssi_dbr) _ _
        driven_valid (add_directional-LinkIsValid driven.1 event driven_valid))

-- Every connection that added events lead to from its start is valid: its queue holds at most 128
-- events, in the order of their first samples, its clock is known only while the upper address part
-- is valid and the confidence is 1 to 5, the clock offset is below 64, and a pending drift is at
-- most 2 either way.
pub Reachable-LinkIsValid :
    (isnan : ℕ → Bool) (link : BredrLink) → Reachable isnan link → LinkIsValid link
Reachable-LinkIsValid isnan link (begun lap) = link_init-LinkIsValid lap
Reachable-LinkIsValid isnan link (added stack event r) =
    link_add_packet-LinkIsValid isnan stack _ event (Reachable-LinkIsValid isnan _ r)
