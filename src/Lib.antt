-- ===== src/Lib.antt =====
-- Supertooth: the codecs, the framing, the connections and the registry of a Bluetooth monitor.
--
-- The program receives samples from a radio, splits them into channels, demodulates each channel
-- to bits, frames the bits (the bitstream decoders), decodes frames to packets (the codecs) and
-- keeps registries of devices and piconets. This library models the codecs, the two bitstream
-- decoders, the registry of Bluetooth LE, and a BR/EDR connection with the recovery of its clock.
-- Bits become frames. A frame of BR/EDR becomes an event of a connection, and the newest event
-- drives the search for its address part and clock, which reads headers and payloads with the
-- codec. A frame of Bluetooth LE goes to the registry: an advertising frame updates the row of a
-- device, and a connection request links two of them; a data frame is counted for its access
-- address until that has earned a connection, teaches the connection the initial value of its
-- checksums, and is reported once its checksum is right.
--
-- Base: what the parts share. Base/Words has the unsigned integers of C with their wrap-around, as
-- native numbers, and byte arrays as lists; Base/Bits, Base/Xor and Base/Masks relate the bitwise
-- operators to arithmetic and to single bits; Base/Arrays has arrays of a fixed size as functions
-- of the index, Base/Keys tables whose rows have different keys, with lookup, replacement and
-- removal, and Base/Int the small signed integers; Base/Linear has the proof method for functions
-- that are linear over exclusive or: two of them agree if they agree on the powers of two.
--
-- Ble: src/core/protocol/ble, with ble_codec.c first.
--   Ble/Whiten: ble_dewhiten, by its loops over bits, bytes and the buffer.
--   Ble/Crc: ble_bit_reverse_byte, ble_crc_calc, ble_extract_crc.
--   Ble/CrcInit: ble_parity32, ble_crc_tables_init, ble_crc_reverse_init_len2. The statics
--     s_t16_inv_rows and s_t16_ready are the record Tables, which the functions take and return.
--   Ble/Frame and Ble/Frame/Payload: ble_frame_t, ble_packet_t and ble_decode_frame with the
--     decoder of each payload. Result -1 is none.
--   Ble/Channels: the maps between RF channel index and link-layer channel.
--   Ble/ConnectInd: ble_connect_ind_parse.
--   Ble/AdvInfo: ble_adv_parse_info and ble_adv_info_merge. An array with its count is a list.
--     Ble/AdvInfo/Parse: the loop over the structures, and Ble/AdvInfo/Items a
--     description of what they say. Ble/AdvInfo/Names: the address and the data of a PDU, and
--     ble_adv_parse_name_manuf. The table of company names, which is generated, is a parameter.
--   Ble/Bitstream: ble_bitstream_decoder.c, the states search, collect_aa and collect_pdu of the
--     machine, its buffer (Ble/Bitstream/Bits) and its queue of frames. Ble/Bitstream/Drain has
--     one round of ble_drain (drain_step), the loop, and ble_bitstream_decoder_push_bit
--     (push_bit).
--   Ble/Registry: ble_registry.c. Ble/Registry/Table: how an address earns a connection and which
--     one is given up. Ble/Registry/Gate: gate_data_pdu and seed_candidate_locked.
--     Ble/Registry/Devices: the table of devices. Ble/Registry/Submit: ble_registry_submit and the
--     other entry points. The lock makes each call one step. What `realloc` and the clock answer
--     is the argument Host, which may differ from call to call. Ids and counters wrap at 64 bits.
--
-- Models: the records of src/core/models/receive_event_models.h, in Models/Rssi the ring of
-- rssi_tracker.c, and in Models/Tally the tally of keys that have no connection yet, which
-- ble_registry.c and bredr_registry.c both have, with its capacity as an argument. A float is the
-- number of its bits, and isnan of the C library a parameter.
--
-- Bredr: src/core/protocol/bredr, bredr_codec.c first.
--   Bredr/Packed: bit fields in packed arrays.
--   Bredr/Fec13 and Bredr/Fec23: the two error-correcting codes. Result -1 is none.
--   Bredr/Whitening: the whitening tables and bredr_xor_whitening_payload.
--   Bredr/PayloadCrc: bredr_reverse_byte and bredr_payload_crc.
--   Bredr/Types: bredr_frame_t, the structures of bredr_codec.h, and the functions of the type
--     code.
--   Bredr/Hec: the header and its check.
--   Bredr/SyncWord: bredr_gen_syncword.
--   Bredr/Air: from the bits on the air to the bytes of a payload.
--   Bredr/Acl and Bredr/Sync: the parsers of ACL payloads, and of SCO and eSCO payloads.
--   Bredr/Decode: bredr_decode_frame. Its local array, which C does not set, is an argument.
--   Bredr/Bitstream: bredr_bitstream_decoder.c. The machine is a record that each push takes and
--     returns with a status; the process-wide limit on errors is an argument.
--   Bredr/Link: bredr_link.c. Link/Queue has the bredr_queue_ functions, Link/Packets
--     bredr_link_add_packet. Arrays within the link are functions of the index.
--   Bredr/Recovery: bredr_clock_recovery.c. Recovery has the reading of a header under a supposed
--     clock, Recovery/Payloads and Recovery/SyncPayloads the checks of payloads, Recovery/Solve the
--     search for address part and clock, Recovery/Track the tracking and bredr_recovery_process.
--     What the array unwhitened holds before it is written is an argument.
--
-- Loops are structural recursion on the number of rounds left. Where C has an open-ended loop the
-- number of rounds is a bound on it: 64 for the bits of a word (popcount64), 98 blocks of 15
-- symbols and one round more than the bits at hand for a checksum (verify_ev4_payload), the number
-- of bytes for the structures of advertising data, of which each has two at least (enough for data
-- of at most 2^32 - 256 bytes; the index of C wraps around beyond that, and the loop need not end),
-- the number of
-- bits held for a search of a preamble, and four rounds for each bit held and three more for
-- ble_drain, whose every round takes bits away or goes on to a later state. Arrays are lists; a
-- read beyond the end of a list is 0, and theorems state the sizes under which the code stays
-- within its arrays. Null pointers are not modelled: a pointer is a value that is there.
--
-- Not modelled: the snapshots that the registry of Bluetooth LE fills for display, which only read
-- it and average in floating point; the registry of BR/EDR but for its tally; the texts of
-- advertising data; the dump of frames to a file and the average of the RSSI tracker; the threads
-- and queues of the services; signal processing in floating point; radios, files, display and the
-- two applications.
pub mod Base
pub mod Models
pub mod Ble
pub mod Bredr
