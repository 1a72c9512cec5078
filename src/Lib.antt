-- ===== src/Lib.antt =====
-- Verification of NetISDN, a Qt program that carries studio audio over IP: a directory server
-- (netsipd), a client (netisdn) with an audio codec, an administration program (netadmin), and the
-- library (lib) that they share.
--
-- The parts that are modelled, and the files that model them:
--
--   Ring     lib/ringbuffer.cpp, the byte ring between the audio threads of the codec. The record
--            `RingBuffer` is `ringbuffer_t`; each method is a function of the same name.
--   Sip      netsipd/netsipd.cpp and netsipd/sipconnection.cpp, the directory server. `Connection` has
--            the record of a connection, the table of them by descriptor and the fields of
--            `MainObject`; `Session`, `Login`, `Call`, `Port` and `Command` have a function for each
--            method, some with helpers for their branches; `Input` has the calls of the slots in
--            sequence. A method returns the new state, or `none` where the code uses a null pointer or
--            reads out of range. `Sound`, `Links` and `Runs` have the invariant and what keeps it.
--   Text     lib/escape_string.cpp, which the server uses for the texts it writes into SQL.
--   Rtp      lib/rtp*.cpp, the header of the packets that the codec sends and receives (`Header`), and
--            the RTCP packets: `Bye`, `Block`, `Sender`, `Reception`, `Source` and `Compound` have the
--            class of rtpbye, rtpreceptionblock, rtpsenderreport, rtpreceptionreport,
--            rtpsourcedescription and rtpcontrolheader. `Wire` has the arrays of 32-bit words that
--            `readBlock` and `writeBlock` work on, `Bytes` their bytes, `Head` the first word that the
--            RTCP packets share. `none` is a read outside of the array. A write outside of it changes
--            nothing in the model; the theorems on what is written ask for room in the array.
--            `readBlock` compares lengths as numbers, without their casts to `int`, which matter from
--            2 ^ 31 words on.
--   Codec    lib/codec.cpp and lib/codec_stats.cpp: `Gpio` has the signal lines, `Sequence` the order of
--            the packets received, `Reports` what the two sides of a call tell each other over RTCP,
--            the last packet of a call included, `Call` the connection state and what a call holds, with
--            the header of the packets sent, which InitEncoder uses (`none`: it is null).
--   Client   lib/controlconnect.cpp, the client's end of the protocol of the directory server (`Connect`;
--            `Framing` and `Calls` have what holds of it alone and with the server), and
--            lib/audiosettings.cpp (`Settings`), the settings of a call that it carries.
--   Config   the configuration file: lib/profile.cpp with its sections and lines, lib/netconfig.cpp
--            (`Database`), and lib/cmd_switch.cpp (`Switches`), the switches of a command line.
--   Meter    lib/meteraverage.cpp, the moving average of the codec's meters.
--   Base64   the Base64 functions of lib/netconf.cpp, which the server and the client use for the
--            metadata fields and the codec for its codebooks.
--
-- `Common` has the shared names: tests on native numbers, lists, `memcpy`, and the laws of `|` and
-- `&` at every width.
--
-- Numbers are native naturals. Arithmetic on `size_t` is taken modulo 2 ^ 64, that of a `uint16_t` or a
-- `uint32_t` modulo 2 ^ 16 or 2 ^ 32. The constructor of the ring shifts an `int` at most to 1 << 30;
-- its loop gets 30 rounds, and `none` stands for the overflow of the next shift.
--
-- `GeneratePort` gets one round more than there are connections, which is enough below 30266 of them.
-- The loop over a compound packet is bounded by the number of words received, since every packet takes a
-- word. Descriptors, user numbers and addresses are naturals; -1 for no call or no link is `none`. The loops
-- of `zombieData` and `pingTimerData` are modelled by their bodies for one connection, since they go on
-- from an iterator that their erase has made invalid.
--
-- Parameters stand for code outside of the repository: `malloc` and `::mlock` (Ring), `htonl` and `ntohl`
-- (`Rtp.Wire.ByteOrder`: the one undoes the other, and `ntohl` returns 32 bits), `rand_r` (Rtp), the
-- conversion of a `QString` to bytes (Text), the
-- `double` of a fraction in parts of 256 (`Rtp.Block.Fractions`), the clock and the load (Codec),
-- the operations on a `double` (Meter), `QStringList::split`, `toInt` and `stripWhiteSpace` (Client,
-- Config), and for the server (`Sip.Outside`) the text and address functions of Qt, `sprintf`, `rand`, MD5, GeoIP, and
-- the database, whose answers are a function of the statements executed before.
--
-- Not modelled: the graphical parts (netisdn, netadmin, the bars of the meters of lib), the database schema,
-- sockets and the audio processing of lib/codec.cpp, which work through Qt, MySQL, JACK and codec libraries.
pub mod Common
pub mod Ring
pub mod Rtp
pub mod Codec
pub mod Base64
pub mod Config
pub mod Sip
pub mod Client
pub mod Meter
pub mod Text
