-- ===== src/Lib.antt =====
-- espshell: a command shell on an ESP32 over an encrypted TCP channel, and its client esp-ctl.
--
-- The firmware (components/core) frames and encrypts each message of a session (proto.c), splits a
-- decrypted line into words and calls the command it names (cmd.c); parts of the firmware register
-- their commands, among them the update of the firmware in chunks (ota.c), which come in hex (hex.c).
-- A session starts with a handshake over a shared token, in which each side derives the key (auth.c);
-- net.c reads lines and frames from the socket. Commands read and write the settings (cfg.c,
-- cmd_builtin.c), the pins and the serial ports (periph_gpio.c, periph_uart.c) and files (fs.c); what is
-- logged goes to the client as events (logger.c).
-- The client (tools/esp-ctl) has its own copies of the frame functions (proto.c, over crypto.c) and of
-- the hex functions (esp-ctl.c), reads its settings from a profile (profile.c), and finds devices over
-- DNS (discover.c).
--
-- Which file models what:
--   Prelude     shared names and lemmas: lists measured by native numbers, slices, bytes, tests, early
--               returns as `Option`
--   Clib        what the sources use of the C library: `isspace`, `strtoul`, `strtol`, `%d`, `%u`, and
--               what they share; Clib/Numbers reading a number that was printed
--   Hex         components/core/src/hex.c; Hex/Client the copies in tools/esp-ctl/src/esp-ctl.c
--   Crypto      tools/esp-ctl/src/crypto.c; Crypto/Ideal what is expected of the cipher; Crypto/Toy an
--               instance of it
--   Proto       components/core/src/proto.c and include/proto.h; Proto/Client tools/esp-ctl/src/proto.c;
--               Proto/Document the frame of docs/protocol.md and Proto/Document/Follows the device against
--               it; Proto/Spec what a frame is in the terms of the code, Proto/Agreement the two codecs
--               against each other, Proto/Sealed and Proto/Wire the exchange between them, Proto/Replay the
--               sequence numbers, Proto/Nonces the nonces
--   Auth        components/core/src/auth.c, and what do_handshake of tools/esp-ctl/src/esp-ctl.c computes:
--               Auth/Agreement the answer and its check, Auth/Keys the session key, Auth/Boot the token
--               over the settings of cfg.c
--   Net         `read_full`, `recv_frame` and `recv_line` of components/core/src/net.c; Net/Shrinks
--               and Net/Takes what a frame takes off a socket
--   Handshake   `do_handshake` of components/core/src/net.c; Handshake/Client that of the client,
--               Handshake/Texts the lines between them, Handshake/Agreement the two against each other,
--               Handshake/Fields the words of an answer, Handshake/Sound what an accepted client has shown
--   Session     `write_full`, `send_frame` and the command loop of components/core/src/net.c: Session/Rounds
--               what is sent, Session/Authentic what it takes for a round to do anything, Session/Answers a command and its answer between client and device,
--               Session/Loop `session_loop` from the handshake to its end, Session/Server the loop of
--               `tcp_server_task` and the events
--   Cmd         components/core/src/cmd.c: Cmd/Registry the table, Cmd/Tokenizer the splitting of a line
--               in its own memory, Cmd/Dispatch the dispatcher
--   Ota         components/core/src/ota.c: the state machine, Ota/Upload and Ota/Commit what an upload
--               holds, Ota/Completes uploads on a platform that does not fail, Ota/Handlers the commands
--   Logger      components/core/src/logger.c, Logger/Lines its lines, Logger/Queue its invariant
--   Cfg         components/core/src/cfg.c, Cfg/Stores what is expected of NVS, Cfg/Toy an instance of it
--   Builtin     components/core/src/cmd_builtin.c: the handlers of settings, logging and the table;
--               Builtin/System those of the chip, Builtin/Secrets what stays secret, Builtin/Settings
--               writing and reading a setting
--   Gpio        components/core/src/periph_gpio.c: the pins; Gpio/Edges the watched pins and their events,
--               Gpio/Slots the loops over the table, Gpio/Watches the table as a map from pins to edges
--   Uart        components/core/src/periph_uart.c; Uart/Streams its streaming tasks between the commands, as
--               steps, and what they keep (Uart/Streams/Switched)
--   Fs          components/core/src/fs.c; Fs/Reads what is read behind a write
--   Ctl         tools/esp-ctl/src/esp-ctl.c behind the handshake: commands and replies; Ctl/Events the
--               events between them, Ctl/Upload `do_ota_upload` over a channel (Ctl/Upload/Device the
--               channel to the commands of ota.c, Ctl/Upload/Runs the calls an upload makes,
--               Ctl/Upload/Reaches what it leaves), Ctl/Main the subcommands, Ctl/Send `send`
--   Profile     tools/esp-ctl/src/profile.c, Profile/Sections the lines and Profile/Loads the file
--   Discover    tools/esp-ctl/src/discover.c: `name_read`, Discover/Response `parse_response` and the table
--               of `do_discover`, Discover/Table its invariant
--
-- How the code is read. Functions keep their names. A C string is the list of its bytes before the
-- terminator; a buffer that is written in place is a list with the terminator in it, pointers into it
-- are indices. A function that changes an object takes it and answers it; `false`, -1 and null are
-- `none`, and what a failed call leaves in an output buffer is modelled only where a caller reads it.
-- Machine integers are natural numbers with their wrap-around written out. PSA, OpenSSL, ESP-IDF and
-- the timers are parameters: records of functions, with their documented behaviour as records of laws.
--
-- Fuel. The inner loops of `tokenize` get the length of the line, and its outer loop recurs on the room
-- in `argv`; `name_read` gets 17 rounds for each byte of the packet, one run over the packet before the
-- first pointer and one for each of the 16 that are followed; `read_full` gets a round for each byte that
-- is wanted and each result of `recv`; `session_loop` and `recv_cmd_reply` get a round for each byte that
-- still comes and one more, since a frame has bytes; an upload gets a round for each byte of the file;
-- printing a number gets more rounds than the number is large.
--
-- Not modelled: Wi-Fi, the other peripherals and services, which are calls of ESP-IDF
-- behind checks of their arguments; the start of the tasks of net.c; the sockets of
-- the client, and what the programs print on stderr. The functions of ota.c in
-- a build without OTA answer false. Pointers that are null where no caller passes null are left out.
pub mod Prelude
pub mod Clib
pub mod Logger
pub mod Cfg
pub mod Handshake
pub mod Hex
pub mod Crypto
pub mod Auth
pub mod Proto
pub mod Cmd
pub mod Ctl
pub mod Gpio
pub mod Fs
pub mod Profile
pub mod Ota
pub mod Net
pub mod Session
pub mod Uart
pub mod Builtin
pub mod Discover
