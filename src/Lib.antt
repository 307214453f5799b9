-- ===== src/Lib.antt =====
-- Verification of the two servers of the course's homework, the IRC daemon of Homework/1/mircd
-- and the name server of Homework/2/dnsd, of the solver of Lab/9/UNIX Domain Sudoku, of
-- the file transfers of Lab/8 and Lab/10, the chat server of Lab/5, the server
-- of Lab/6 that measures throughput, and the unpackers of Lab/2. Paths are from the repository's root.
--
-- Prelude passes on the library names that all modules share, and adds Boolean tests, lists over
-- the native numbers, byte strings with decimal notation, and maps. A `std::map` or
-- `std::unordered_map` is an association list, whose order is the order in which the program walks
-- the map; no statement depends on it.
--
-- Mircd, the IRC daemon (Homework/1/mircd):
--   Wire        src/utils.cpp, include/enums.hpp: CMD_MSG, sendcmds' buffer (render_msgs), parse
--   State       the classes Client, Channel and Database (World)
--   Monad       how a member function ends: it returns, throws a reply or DISCONNECT, or runs into
--               undefined behaviour (fault); what it changed before a throw stays changed
--   Client      src/client.cpp
--   Channel     src/channel.cpp and src/database.cpp
--   Controller  the handlers of src/controller.cpp, client_add and client_del; the table of nicks
--               against the clients, in Controller/Nicks and Controller/InStep
--   Dispatch    USERS, the command table and Controller::call
--   Server      src/server.cpp: new connections, the commands of one read, disconnection
--   Live        the tables of clients and channels in step with each other, under each command and over
--               runs of the event loop
-- The state is the World: the tables of clients, nicks in use and channels, and the list of what was
-- written to each socket. A reference to a client is the address of its node, a serial number, so a
-- node that was erased is told from a later one under the same descriptor. A handler takes the
-- descriptor of its client; Controller::call looks it up, checks, and runs the handler; the server
-- runs call for each line of a read, and sends what call throws.
--
-- Dnsd, the name server (Homework/2/dnsd):
--   Result      the exception classes of include/utils.hpp
--   Word        numbers of 16 and 32 bits in network order
--   Dn          src/dn.cpp: names as lists of labels, the top level first
--   Record      src/record.cpp, include/enum.hpp: questions, records, their data, nip.io names
--   Zone        src/zone.cpp and src/config.cpp: the maps, their additions and look-ups
--   Scan        getline, sscanf and fscanf as the two files use them
--   Load        the constructors of src/zone.cpp and src/config.cpp, which read the files
--   Header      src/header.cpp: parse and dump of messages
--   Server      src/server.cpp: the two functions query
-- A query is parsed, the closest configured zone above its name is searched, and the zone's records
-- fill the header that is dumped; outside all zones the message goes to the upstream server as it
-- came. inet_pton, the enumerators that magic_enum
-- knows by name, the contents of the files and the datagram that the upstream server answers with are
-- arguments. TYPE and CLAS are numbers,
-- since the program keeps values that are no enumerators.
--
-- Sudoku, the solver (Lab/9/UNIX Domain Sudoku/solver.cpp), with the rules in Sudoku/Rules, the
-- search in Sudoku/Search and Sudoku/Solve, and what main sends in Sudoku/Client. An array is a
-- function of its index. The program looks at cells above 9 past the end of its counts; what it
-- does there is not claimed. dfs counts the cells that are left, 9 * 9 - k, in place of k, and needs
-- no fuel. main's buffer behind the first answer is an argument.
--
-- Transfer, the file transfer over datagrams (Lab/8/src): Transfer/Archive is the buffer of files that
-- client.cpp fills and server.cpp and extract.cpp take apart; Transfer/Pieces cuts a buffer into
-- pieces and puts them together; Transfer/Packets is what the client sends and reads,
-- Transfer/Receiver the loop of the server and save_to_file, Transfer/Round a round of the client,
-- and Transfer/System both sides with a network that loses, repeats and reorders: a step relation.
-- An answer is the bit set that its payload is. A packet whose bit lies outside the server's set is
-- none, as is a byte of the buffer that was never written. The client looks up bits beyond its set, which
-- read what the memory has there: the set is any function of the index. zstd is an argument.
-- USE_CHECKSUM and DEBUG are not set, as in the source.
--
-- Chat, the chat server (Lab/5/Say-Hey!-to-Your-Friend/server.cpp): Chat/Log formats lines and cuts
-- tokens, Chat/State is the table of clients and what is sent, Chat/Who the table of /who, Chat/Input
-- the handlers. A forked child is a job: the list of what it writes, from the state that fork copied.
-- A handler returns, exits, or runs into undefined behaviour; the buffers are checked where sprintf
-- writes to them. The text of the clock, the random name and the text of an address are arguments.
-- A write to a socket is taken to send everything.
--
-- Throughput, the server that measures (Lab/6/How-Fast-Can-You-Deliver?/server.cpp): Throughput has its
-- handlers and loop, Throughput/Tables the counts of connections and the sizes of segments,
-- Throughput/Holds and Throughput/Counted what its events keep, Throughput/Measured what is counted between
-- two commands, Throughput/Full a read that fills the buffer. What the kernel tells is an event; the clock
-- and the texts of times and rates are arguments, the latter for the whole of the arithmetic in `long double`. The clients of Lab/6 only connect and write, and are not modelled.
--
-- Pako, the unpackers of archives (Lab/2/PAKO-File-Unpacker): Pako/Structs is unpacker-struct.c, which
-- reads the file to memory and points into it, Pako/Plain is unpacker.c, which reads each field by
-- itself, Pako/Checksum the two loops over words and bytes, Pako/Agree the two against each other.
-- A pointer out of memory is fault; the stack that the array of files takes is not modelled.
--
-- Broadcast, the file transfer over raw sockets (Lab/10/Broadcast-XDP-File-Transfer/src):
-- Broadcast/Packet is utils.hpp, with the checksum of the payload and the sum of the IP header, of which
-- the fields that differ between packets are kept; Broadcast/Loop is the loops of server.cpp and
-- client.cpp, Broadcast/Loop/Damage packets changed on the way, Broadcast/Loop/InOrder and
-- Broadcast/Loop/Whole the server that gets all pieces. The code that Lab 10 shares with Lab 8, the
-- archive, the pieces and the bit set, is that of Transfer.
-- recvfrom that times out leaves the packet before in place, which is a round with that packet again.
--
-- Bounds and fuel: get_labels takes one unit of fuel for each label, and data2dn gives it one
-- more than there are bytes; decimal gives one more than the number, which has fewer digits; the
-- archive is taken apart, the checksums of Pako computed, and the pieces of the client cut, on as much
-- fuel as there are bytes, of which each round takes one or more; the carries of the IP header's sum
-- are added on as much fuel as the sum is; the zones of a configuration are read on one unit more than
-- there are characters. A read past the end of a buffer is none or fault.
-- strtok_r, sprintf, string streams and views::split are modelled as far as the programs use
-- them; views::split is that of C++20 as published, which yields no piece behind a dot at the
-- end of the text, as the zone files of conf/ need.
--
-- Not modelled: sockets, epoll, the opening of files and logging, which are input and output; the
-- clocks and waits of the file transfers, and the checksum of Lab/8, which is not compiled in; the
-- other labs under Lab/, and in the solver the socket, what is shown on the terminal, and print, which
-- is not called.
pub mod Prelude
pub mod Mircd
pub mod Dnsd
pub mod Sudoku
pub mod Throughput
pub mod Transfer
pub mod Chat
pub mod Pako
pub mod Broadcast
