-- ===== src/Lib.antt =====
-- A model of the AsteRx recorder driver: the program that configures a Septentrio receiver over a
-- control connection, receives its binary stream (SBF) over a second one, checks the frames in that
-- stream and writes them to files that rotate.
--
-- The program's parts, and the files that model them (paths from the repository's root):
--
--   Sbf/Crc.antt         src/sbf/crc16_xmodem.hpp: make_crc_table and crc_ccitt_xmodem. Its child
--                        Reference has the serial shift register that the checksum is compared with.
--   Sbf/Wire.antt        Frame of src/sbf/frame_sync.hpp, and what a well-formed frame is on the wire.
--   Sbf/Decoder.antt     an independent description of the stream: a relation that reads a list of
--                        bytes, skips what is no frame and gives the frames in order.
--   Sbf/FrameSync.antt   src/sbf/frame_sync.hpp and frame_sync.cpp: SbfFrameSync. `feed` is composed
--                        of `admit` (drain, count, append), `scan` (the state machine, one function
--                        for each State) and `trim`. Its children compare it with the decoder.
--   Recorder.antt        src/sbf_recorder.hpp and sbf_recorder.cpp: SbfRecorder. `record_bytes` is
--                        its feed: it opens a file when none is open, hands the bytes to the
--                        synchronizer, adds up the drop counters and writes each frame.
--   Receiver.antt        src/receiver_config.hpp and receiver_config.cpp: Settings has the structs,
--                        Commands the command builders and the validation, Replies the parsers of the
--                        receiver's answers, Link the control connection, Session the methods of
--                        ReceiverConfigurator. Script, Sending, Valid, Apply, Stop and Login are
--                        on them.
--   Tcp.antt             src/tcp_client.hpp and tcp_client.cpp: TcpClient over its system calls. Its
--                        child Connection makes a client a control connection of the receiver.
--   AppConfig.antt       src/app_config.hpp and app_config.cpp: load_app_config. Document has the
--                        readers of values, Sections the receiver's part of the document.
--   Main.antt            src/main.cpp: Arguments has the command line, Session what follows the
--                        configuration. It composes all of the above.
--   Ntrip.antt           src/ntrip/ins401_ntrip_client.h and ins401_ntrip_client.cpp, which main does not
--                        use: Chunks has ChunkRTCMData, Threads the state that ReceiveThread and
--                        ProcessThread share and their steps, Reconnect HandleReconnect, Request the
--                        texts to the caster and its response, Lifecycle Connect and Disconnect with
--                        what the receiving thread does until it is joined, SourceTable
--                        GetSourceTable, Callback NTRIPCallback. Header, Response and Answered are on
--                        the response, Rows, Rounds and MountPoints on the source table, Connecting,
--                        Untouched, Marks and Closing on the connection.
--   Base.antt            Boolean tests, lists, machine words, texts and the exclusive or of numbers.
--
-- How state and effects are modelled. A method that changes an object takes the object's record and
-- gives the new one. Exceptions are constructors of the result of a method (Outcome in Recorder, End
-- in Receiver/Link and Tcp/Sockets, Result for a pure function that throws ConfigError). Bytes are
-- numbers, a buffer or a string is a list of them, and 16-bit and 64-bit integers keep their wrap
-- around. Code that is not in the repository is a parameter: the file system and the clock (Os), the
-- system calls of a socket (Net), and floating-point numbers with their printing and parsing
-- (Numbers), and the YAML library (Yaml). ReceiverConfigurator takes its connection as an interface
-- (Link), which the TCP client implements. Each answer may depend on the number of calls made before.
--
-- Fuel. The loop of SbfFrameSync::feed gets 4n + 4 passes for a buffer of n bytes: every pass moves
-- on in the buffer or in the states of one candidate, of which there are four. read_until and
-- read_exact get one pass more than the bytes they may take, since a pass that goes on has taken one.
-- write_all takes its fuel as an argument, because a send that is interrupted is repeated; on the
-- control connection only the first calls are interrupted (QuietFrom), which bounds it. The recorder
-- loop of main takes its fuel as an argument, since the program runs until a signal. In Ntrip,
-- ChunkRTCMData gets one round for each byte of its buffer and SendRequest one for each byte of the
-- request; ReceiveResponse and GetSourceTable take their fuel as an argument, since a caster may never
-- end what it sends. The threads of NTRIPClient are steps that come in any order.
--
-- Not modelled: logging, its set-up and the texts of error messages; how a signal sets g_stop, of
-- which main reads arbitrary values; of NTRIPClient OpenSSL, GetStatistics and what its threads do to
-- its connection while it is made, except for an attempt to reconnect that Disconnect waits for;
-- scripts/parser.py. The number seq_ in the names of the recorder's files is not bounded, the results of
-- fflush and fclose, which the recorder does not look at, do not occur, and a write to the file of the
-- correction data always succeeds. In connect the order of the addresses is that of
-- getaddrinfo, and waiting for a connection is one answer.
mod Base
pub mod Sbf
pub mod Recorder
pub mod Receiver
pub mod Tcp
pub mod AppConfig
pub mod Main
pub mod Ntrip
