-- ===== src/Lib.antt =====
-- A verification library for smply, a C++ client of the Simple Management Protocol (SMP) that
-- updates the firmware of devices.
--
-- The parts and how they interact. A transport hands received bytes to the client, whose
-- reassembler splits them into messages by the length fields of their headers. The client matches
-- each message to an outstanding request by sequence number, group, command and operation, and runs
-- the request's callback. The upload driver is such a caller: on each response it asks the upload
-- session what to do next, and sends the chunk that the session chose. An update of the firmware is
-- led by the state machine: each event (a response, a tick, a disconnect) gives the next state and
-- the step that the updater is to carry out. On a serial console a message goes out as framed lines
-- of base64 with a CRC, and the lines that come in are joined to messages again.
--
-- Prelude             names of the libraries passed on; list and bit lemmas
-- Error               include/smply/error.hpp, group.hpp, result.hpp: error values and results
-- Smp.Header          src/smp/codec.cpp, include/smply/smp/header.hpp: `encode`, `decode_header`
--                     (`decode_fixed` is the overload on eight bytes), `response_to`
-- Smp.Assembler       src/smp/assembler.cpp: `feed` with the two branches of its loop (`fast_round`,
--                     `slow_round`), `stash`, `message_size`, `reset`; the sink's calls are a list.
--                     Stream is the abstract view: the parse of a whole stream (`Parses`)
-- Smp.Client          src/smp/client.cpp. State has the records; Retired and Table the searches over
--                     the requests and the retired numbers; Lifecycle `request`, `cancel`, `defer`,
--                     `fail_all`, `deliver_deferred`; Driving `on_bytes`, `on_message`, `poll`,
--                     `on_disconnected`, `rebind_transport`, `shutdown`
-- Upload.Session      src/groups/image/upload_session.cpp: `plan_next`, `resume`, `on_response`
--                     (its branches are `on_failure`, `on_complete`, `on_restart`, `on_offset`); and
--                     of upload_driver.cpp the order of decision and record (`advance`, `exchange`)
-- Upload.State        src/groups/image/upload_session.hpp: the records of a session
-- Upload.Driver       src/groups/image/upload_driver.cpp: `send` and `advance` (`advance_from`) with a
--                     source whose reads may fail
-- Upload.ChunkSize    `compute_chunk_size`, `first_packet_overhead` of upload_session.cpp
-- Image.Source        src/image/image_source.cpp, source_reader.hpp: sources, `read_exact`, fields
-- Image.Values        src/image/image_values.cpp: `ImageHash::from` (`hash_from`), the parse and the
--                     text of versions (`parse_version`, `version_to_string`)
-- Image.Header        src/image/mcuboot_header.cpp: `parse_mcuboot_header`
-- Image.Tlv           src/image/tlv.cpp: `resolve_layout`, `find_image_tlv_hash` with its loop `scan`
-- Dfu.Plan            include/smply/dfu/firmware_updater.hpp: states, modes, the plan, the reports
-- Dfu.SlotTable       include/smply/groups/image.hpp, src/groups/image/image_management.cpp: the slot
--                     table and the searches in it
-- Dfu.Machine         src/dfu/update_state_machine.cpp. State has the events, steps and the context;
--                     Preconditions the refusals; Waiting the boot, the waits and the confirm;
--                     Planning the staging of each image; Deciding the table of the states (`decide`);
--                     Applying `Machine::apply` and its deadlines. Outcome and Sound are what every
--                     event keeps; Owed follows a mark to the report; Protocol is the abstract
--                     order of an update, and what the machine is after each event a run of it
-- Serial              transports/serial/: base64.hpp (Base64), crc16.hpp (Crc16), and of
--                     serial_framing.hpp `LineSplitter` (Splitter), `SerialDeframer` (Deframer)
--                     and `SerialFramer` (Framer, with `plan_frame`);
--                     transports/serial_port/serial_link.hpp (Link)
--
-- Numbers are natural numbers; the wrap-around of the machine's words is written out (`sub64`,
-- `inc32`, `inc64`, `% 256` for sequence numbers). Bytes are numbers below 256. Messages of errors
-- are the source's.
--
-- Fuel. The loop of `feed` gets two rounds more than the input has bytes: every round but the last
-- takes a message of at least eight bytes off the stream, and the theorems on `feed` show that it
-- returns. `deliver_deferred` gets a bound on its batches from its caller, since an application
-- whose deferred work always defers more keeps the code in the loop for ever: `none` says so. The
-- scan of an image's entries is bounded by the code itself (`kMaxImageTlvs`), so it has no fuel of
-- its own. The loop of `plan_from_state` takes as many rounds as there are images from the current
-- one on. The loops on a chunk of serial bytes take a round more than it has bytes, since each line
-- takes one; those that frame a message take as many rounds as it has bytes. `std::to_string` writes a
-- number on fuel for ten digits, which 32 bits need.
--
-- Parameters. The client's `Environment` stands for the application (what it calls, given the events
-- so far), the transport (whether a packet is taken) and the CBOR decoder of device errors. An image
-- source is a size and a read function, as its interface is. The size of the CBOR probe that
-- `first_packet_overhead` encodes is a parameter of `compute_chunk_size`. `start` and `exchange` are
-- those of an upload whose source reads each chunk whole; a read that fails ends the upload, with
-- nothing recorded, and so its exchanges.
--
-- In the update state machine a reference to the context is the context passed on, a pointer into
-- the slot table is the slot with its position, and times are ticks of the updater's clock.
--
-- Not modelled: a callback that polls, rebinds or destroys the client; CBOR; the SHA-256 of an image;
-- the firmware updater, which carries the steps out; the management groups; the serial
-- ports and the other transports; the command-line tools.
pub mod Prelude
pub mod Error
pub mod Smp
pub mod Upload
pub mod Image
pub mod Dfu
pub mod Serial
