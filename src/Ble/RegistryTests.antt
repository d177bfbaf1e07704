-- ===== src/Ble/RegistryTests.antt =====
-- The theorems on the registry and on the framing of bits at concrete inputs, with tests.
use supertooth.Base.{
  ℕ, zero, suc, bit_and, ◌/◌, ◌%◌, ◌>>>◌, at, ◌+◌, ◌-◌, ◌≡◌, ◌≢◌, inl, refl, arith, Bool, true,
  false, Option, none, some, List, [], ◌∷◌, Bytes, get_or, drop,
}
use supertooth.Models.{RxMetadata, BleEvent, no_metadata}
use supertooth.Ble.Whiten.{dewhiten}
use supertooth.Ble.Crc.{extract_crc}
use supertooth.Ble.Crc.Reverse.{air_crc}
use supertooth.Ble.CrcInit.{fresh}
use supertooth.Ble.Registry.{
  collecting, confirmed, Connection, Registry, Host, registry_init, registry_free, conn_find,
  no_connection, no_link, ConnectionState,
}
use supertooth.Ble.Registry.Table.{conn_victim_index}
use supertooth.Ble.Registry.Submit.{submit}
use supertooth.Ble.Registry.Valid.{RegistryIsValid}
use supertooth.Ble.Registry.Accept.{AcceptedWith}
use supertooth.Ble.Registry.Reachable.{Reachable, begun, submitted, Reachable-RegistryIsValid}
use supertooth.Ble.Registry.Marked.{frame_size, frame_pdu, Marked, submit-AcceptedWith}
use supertooth.Ble.Registry.Learn.{data_event, submit-recovers}
use supertooth.Ble.Bitstream.{BleDecoder, no_cand, decoder_init, ble_error, collect_aa, collect_pdu}
use supertooth.Ble.Bitstream.Drain.{drain, rounds_for, push_bit}
use supertooth.Ble.Bitstream.Sound.{BleDecoderIsValid}
use supertooth.Ble.Bitstream.Safety.{
  stored, decoder_init-BleDecoderIsValid, push_bit-BleDecoderIsValid, drain_ends,
}
use supertooth.Ble.Registry.Victim.{NotAfter, conn_victim_index-spares}

abbrev no_names : ℕ → Option Bytes
no_names company = none

abbrev a_number : ℕ → Bool
a_number float = false

abbrev host : Host
host = record {
  grows_conns = λ size. true;
  grows_devices = λ size. true;
  now = 1700000000000;
  conn_made = 1700000000000;
  device_made = λ addr. 1700000000000;
}

abbrev meta : RxMetadata
meta = record no_metadata { radio_sample_rate_hz = 20000000; channel_index = 9 }

abbrev address : ℕ
address = 0x50655d4b

-- A PDU that is no empty one.
abbrev long_pdu : Bytes
long_pdu = 2 ∷ 3 ∷ 0x11 ∷ 0x22 ∷ 0x33 ∷ []

abbrev long_event : BleEvent
long_event = data_event meta address long_pdu 0x123456 []

abbrev start : Registry
start = registry_init 0 fresh

-- The third frame of an address earns it a connection.
abbrev seen : ℕ → Registry
seen zero = start
seen (suc n) = (submit a_number no_names host long_event (seen n)).2

seen-Reachable : (n : ℕ) → Reachable a_number no_names (seen n)
seen-Reachable zero = begun 0 fresh (inl refl)
seen-Reachable (suc n) = submitted host long_event (seen-Reachable n)

not_yet : conn_find address (seen 2) ≡ none
unfolding conn_find submit registry_init air_crc
not_yet = refl

earned : conn_find address (seen 3) ≡ some 0
unfolding conn_find submit registry_init air_crc
earned = refl

earned_state : (get_or (seen 3).conns 0 no_connection).link.state ≡ collecting
unfolding submit registry_init air_crc
earned_state = refl

-- An empty PDU, whitened for another channel.
abbrev other_meta : RxMetadata
other_meta = record meta { channel_index = 21 }

abbrev empty_event : BleEvent
empty_event = data_event other_meta address (1 ∷ 0 ∷ []) 0x123456 (7 ∷ [])

abbrev learned : Registry
learned = (submit a_number no_names host empty_event (seen 3)).2

learned-Reachable : Reachable a_number no_names learned
learned-Reachable = submitted host empty_event (seen-Reachable 3)

submit-recovers_example :
    let s = submit a_number no_names host long_event learned in
    let pdu_bytes = frame_size long_event - 3 in
    (s.0 ≡ 1)
    × (s.1.frame.crc_ok ≡ 1)
    × (s.1.frame.crc_init ≡ 0x123456)
    × AcceptedWith address
        (frame_pdu long_event)
        pdu_bytes
        (extract_crc (drop pdu_bytes (frame_pdu long_event)))
        s.1.frame.crc_init
        s.2
submit-recovers_example =
    submit-recovers a_number no_names host host other_meta meta address (1 ∷ 0 ∷ []) long_pdu
      0x123456 (7 ∷ []) [] (seen 3) 0
      (Reachable-RegistryIsValid a_number no_names (seen 3) (seen-Reachable 3)) (omega arith) earned
      earned_state (omega arith) refl (omega arith) (omega arith)

reported : (submit a_number no_names host long_event learned).0 ≡ 1
reported =
    (submit-recovers a_number no_names host host other_meta meta address (1 ∷ 0 ∷ []) long_pdu
      0x123456 (7 ∷ []) [] (seen 3) 0
      (Reachable-RegistryIsValid a_number no_names (seen 3) (seen-Reachable 3)) (omega arith) earned
      earned_state (omega arith) refl (omega arith) (omega arith)).0

submit-AcceptedWith_example : Marked long_event (submit a_number no_names host long_event learned)
submit-AcceptedWith_example =
    submit-AcceptedWith a_number no_names host long_event learned
      (Reachable-RegistryIsValid a_number no_names learned learned-Reachable) (omega arith) reported

Reachable-RegistryIsValid_example : RegistryIsValid learned
Reachable-RegistryIsValid_example =
    Reachable-RegistryIsValid a_number no_names learned learned-Reachable

-- A table with a confirmed connection, one that has a candidate, and a busy one without.
abbrev row : ℕ → ConnectionState → List ℕ → ℕ → ℕ → Connection
row aa state candidates packets used = record no_connection {
  link = record no_link {
    access_address = aa;
    state = state;
    candidates = candidates;
    packets_seen = packets;
    last_used_seq = used;
  };
}

abbrev table : List Connection
table =
    row 0x50655d4b confirmed [] 3 1
    ∷ row 0x50655d4d collecting (7 ∷ []) 4 9
    ∷ row 0x50655d4e collecting [] 90 50
    ∷ []

conn_victim_index-spares_example :
    let victim = (get_or table (conn_victim_index table) no_connection).link in
    (victim.state ≡ collecting) × NotAfter victim (get_or table 1 no_connection).link
conn_victim_index-spares_example =
    conn_victim_index-spares table 1 (omega arith, (omega arith, (omega arith, tt))) (omega arith)
      refl

busy_one_leaves : conn_victim_index table ≡ 2
unfolding conn_victim_index
busy_one_leaves = refl

-- An advertising frame on channel 37, without data.
abbrev air_bytes : Bytes
air_bytes =
    0xaa
    ∷ 0xd6
    ∷ 0xbe
    ∷ 0x89
    ∷ 0x8e
    ∷ dewhiten (0x42 ∷ 6 ∷ 1 ∷ 2 ∷ 3 ∷ 4 ∷ 5 ∷ 6 ∷ 7 ∷ 8 ∷ 9 ∷ []) 11 37

abbrev air_bit : ℕ → ℕ
air_bit k = bit_and (at air_bytes (k / 8) >>> (k % 8)) 1

-- The machine after the first `n` bits.
fed : ℕ → BleDecoder
unfolding push_bit
fed zero = decoder_init 37
fed (suc n) = (push_bit (fed n) (air_bit n)).1

fed-BleDecoderIsValid : (n : ℕ) → BleDecoderIsValid 37 (fed n)
unfolding fed
fed-BleDecoderIsValid zero = decoder_init-BleDecoderIsValid 37
fed-BleDecoderIsValid (suc n) =
    (push_bit-BleDecoderIsValid 37 (fed n) (air_bit n) (fed-BleDecoderIsValid n)).1

push_bit-BleDecoderIsValid_example :
    ((push_bit (fed 127) (air_bit 127)).0 ≢ ble_error)
    × BleDecoderIsValid 37 (push_bit (fed 127) (air_bit 127)).1
push_bit-BleDecoderIsValid_example =
    push_bit-BleDecoderIsValid 37 (fed 127) (air_bit 127) (fed-BleDecoderIsValid 127)

drain_ends_example :
    ((drain (rounds_for (stored (fed 127) 1)) (stored (fed 127) 1)).0 ≢ none)
    × (drain (5 + rounds_for (stored (fed 127) 1)) (stored (fed 127) 1)
        ≡ drain (rounds_for (stored (fed 127) 1)) (stored (fed 127) 1))
drain_ends_example = drain_ends 37 (fed 127) 1 5 (fed-BleDecoderIsValid 127)

aa_starts : (push_bit (fed 7) (air_bit 7)).1.state ≡ collect_aa
unfolding fed push_bit decoder_init no_cand
aa_starts = refl

pdu_starts : (push_bit (fed 39) (air_bit 39)).1.state ≡ collect_pdu
unfolding fed push_bit decoder_init no_cand
pdu_starts = refl

-- A registry that is started again has no rows.
started_again : (registry_init 0 (registry_free (seen 3)).crc_tables).conns ≡ []
unfolding registry_init registry_free
started_again = refl
