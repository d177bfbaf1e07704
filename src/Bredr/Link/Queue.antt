-- ===== src/Bredr/Link/Queue.antt =====
-- The ring of events of a connection, in the order of their first samples: the `bredr_queue_`
-- functions of src/core/protocol/bredr/bredr_link.c.
pub mod Ring
pub mod Refines
use supertooth.Base.{ℕ, zero, suc, ◌+◌, ◌-◌, ◌%◌, ◌^◌, Bool, ltb, ◌==◌, if◌then◌else◌, u32, flag}
use supertooth.Base.Arrays.{Array, update}
use supertooth.Models.{BredrEvent}
use supertooth.Bredr.Link.{BredrLink}

abbrev pub queue_size : ℕ
queue_size = 128

unfoldable pub queue_oldest_index : BredrLink → ℕ → ℕ
queue_oldest_index link fill = u32 (link.queue_head + queue_size + 2 ^ 32 - fill) % queue_size

unfoldable pub queue_index_at : BredrLink → ℕ → ℕ → ℕ
unfolding queue_oldest_index
queue_index_at link fill logical_pos = (queue_oldest_index link fill + logical_pos) % queue_size

abbrev pub start_of : BredrEvent → ℕ
start_of event = event.meta.radio_start_sample_index

-- The first loop at `insert_pos`, with `left` rounds to go.
unfoldable pub find_pos : ℕ → ℕ → (ℕ → ℕ) → Array BredrEvent → BredrEvent → ℕ
find_pos zero insert_pos index queue event = insert_pos
find_pos (suc left) insert_pos index queue event =
    let rest = find_pos left (insert_pos + 1) index queue event in
    if ltb (start_of event) (start_of (queue (index insert_pos))) then insert_pos else rest

-- The second loop at `pos`, with `left` rounds to go: the array and the event that is carried.
unfoldable pub shift_loop :
    ℕ → ℕ → (ℕ → ℕ) → Array BredrEvent → BredrEvent → Array BredrEvent × BredrEvent
shift_loop zero pos index queue carry = (queue, carry)
shift_loop (suc left) pos index queue carry =
    shift_loop left (pos + 1) index (update queue (index pos) carry) (queue (index pos))

-- What follows the loops, for the number `fill` of events that are kept.
unfoldable pub queue_store : BredrLink → BredrEvent → ℕ → ℕ → BredrLink
unfolding shift_loop queue_index_at
queue_store link event fill insert_pos =
    let (queue, carry) =
      shift_loop (fill - insert_pos) insert_pos (queue_index_at link fill) link.queue event in
    record link {
      queue = update queue link.queue_head carry;
      queue_head = (link.queue_head + 1) % queue_size;
      queue_fill = u32 (fill + 1);
    }

unfoldable pub queue_insert_event : BredrLink → BredrEvent → ℕ × BredrLink
unfolding find_pos queue_index_at queue_store
queue_insert_event link event =
    let fill = link.queue_fill in
    let insert_pos = find_pos fill 0 (queue_index_at link fill) link.queue event in
    let newest = flag (insert_pos == fill) in
    if fill == queue_size
    then if insert_pos == 0
      then (0, link)
      else (newest, queue_store link event (fill - 1) (insert_pos - 1))
    else (newest, queue_store link event fill insert_pos)
