-- ===== src/Lib.antt =====
-- ParDiff-VPN is a VPN service with billing: a modified OpenVPN 2.1.1 in C (src/openvpn-2.1.1), a
-- plugin that checks the clients against the billing database (src/myopenvpn), and web pages. This
-- library models the parts of the C program that decide what is accepted: which packets, which
-- clients and which addresses.
--
-- How the parts interact. A packet from the network is taken apart in a buffer (Buffer). A data
-- packet is decrypted, and its packet id decides whether it is a replay (PacketId, over CircList
-- and Integer). The segment size of a TCP connection that is set up through the tunnel is lowered
-- on the way (Mss). A datagram that is too large for the frame (Frame) is sent in pieces, and put
-- together again on the other side (Fragment). A packet of the control channel goes through the
-- reliability layer into a receive window, from which the TLS object takes packets in order
-- (Reliable, Reliable.Control). When the TLS session is up, the plugin is asked about the user
-- name and password (AuthPlugin), and the server gives the client an address (Pool). Wakeups are
-- computed on times of seconds and microseconds (Otime), and the server keeps those of its clients
-- in a tree (Schedule). It finds a client by its address or name in a hash table (HashTable), and
-- a packet that goes to several clients waits in a queue of shared buffers (Mbuf); tables and
-- queues have a power of two as their size (Misc).
--
-- The files.
-- - Integer: integer.h. Integer.Laws: its lemmas.
-- - CircList: circ_list.h, one function for each macro. CircList.Laws: the list as a bounded
--   queue.
-- - PacketId: packet_id.c and packet_id.h, and the caller in crypto.c (`receive`). PacketId.Window
--   says which ids are fresh or refused in a state, PacketId.Added and PacketId.Reap what
--   packet_id_add and packet_id_reap leave, PacketId.Replay and PacketId.Exact follow whole runs,
--   PacketId.Spec is the independent description, PacketId.Linear is the mode without
--   backtracking, PacketId.Wire the bytes of an id, PacketId.Persist the file of --replay-persist
--   and PacketId.Reload what it does for the next session.
-- - Buffer: buffer.h and a part of buffer.c. Buffer.Splice, Buffer.Contents, Buffer.Numbers: a
--   buffer as a list of bytes.
-- - Reliable: reliable.c and reliable.h. Reliable.Ack: the acknowledgement record.
--   Reliable.AckWire: the record in a packet. Reliable.Control: the two places of ssl.c that
--   receive and deliver. Reliable.Range, Entries, Window, Saved, Order and Deadlock: the ids on
--   their circle and the receive window. Reliable.Due: the entries to send.
-- - Frame: mtu.h and mtu.c. Frame.Room: the room in front of a packet and behind it.
-- - Fragment: fragment.c and fragment.h. Fragment.Header is the header, Fragment.Size the size of
--   the pieces, Fragment.Bits and Fragment.Pieces what they are made of; Fragment.Assemble, Stored
--   and Join follow the pieces into a slot, Fragment.Slots, Travel and Arrive the packets into the
--   receiver, Fragment.Outgoing, Start and Drain the sender, and Fragment.Trip puts both together.
--   Fragment.Receiver and Fragment.Robust are about packets of any content.
-- - Otime: otime.h. Otime.Laws: times as numbers of microseconds.
-- - Pool: pool.c and pool.h. Pool.Address, Pool.Find, Pool.Acquire: addresses and handles.
-- - Schedule: schedule.c and schedule.h. Schedule.Order is the order of its keys,
--   Schedule.Contents the entries in their order, Schedule.Heap, Descend and Insert what the parts
--   of schedule_add_modify do, Schedule.Earliest the public operations.
-- - HashTable: list.c and list.h. HashTable.Bucket and HashTable.Table: a bucket and a table as a
--   map from keys to values. HashTable.Cases, Map and Update: looking up, adding and removing.
-- - Mbuf: mbuf.c and mbuf.h. Mbuf.Ring: the queue as a list. Mbuf.Counts: the reference counts.
--   Mbuf.Extract, Add and Drop: the operations.
-- - Mss: mss.c and macros of proto.h. Mss.Checksum: the correction of a checksum. Mss.Sum, Loop
--   and Segment: what the rounds, the loop and the whole do to the sum of the words.
-- - Misc: adjust_power_of_2 of misc.c. Misc.Power: its loop.
-- - AuthPlugin: src/myopenvpn/myopenvpn.c. AuthPlugin.Grant: when a client is let in.
-- - Prelude: the names shared by all. The modules called Tests apply the theorems to concrete
--   states.
--
-- Conventions. In Mss the byte order of the machine is an argument. A field that is unsigned in C
-- is a native number, with the wrap at 2 ^ 32 written out where the source can wrap; where the C
-- code may go negative the type is the integers of Prelude.Int; the ints of tv_subtract wrap
-- around in 32 bits. The clock `now` is an argument. A failed ASSERT, a fatal message, an access
-- outside an array and a crash on NULL are `none`; where the code also returns NULL or false there
-- is an inner option. A loop over an array is recursion on the list; a loop of the source that
-- counts (packet_id_add, packet_id_reap) is recursion on the number of rounds, which is the exact
-- number, so no fuel can run out. The loop of the caller that takes the pieces of a datagram off
-- fragment_ready_to_send (Fragment.Drain) has fuel, and 32 is enough, the number of pieces at
-- most. In packet_id_add that number is the distance from the first id to the packet's; the window
-- is at most 65536 ids long. The loop of mss_fixup_dowork has the number of bytes of options as
-- fuel, and the theorem on it shows that this is enough. The loop of adjust_power_of_2 has fuel
-- 64, since its number doubles in 64 bits; the theorem on it shows that this is enough.
-- schedule_insert takes random numbers from a list until a priority is free, and the theorem on
-- schedule_add_entry asks for one that is. An array of eight entries is the list of those in use.
--
-- Code outside the repository is a parameter: the MySQL client library and malloc in AuthPlugin
-- (the record Library), the functions that hash and compare the keys of a table (the record
-- KeyOps), the results of random in Schedule, the results of open, flock, read and write in
-- PacketId.Persist. One assumption is made of it, KeepsPlain: mysql_escape_string leaves a text
-- without quotes, backslashes and control characters as it is, which is what its manual says. Of
-- the functions given to a table IsKeyOps says that keys are compared by an equivalence and that
-- equal keys have the same hash value.
--
-- Not modelled: encryption and the TLS negotiation (OpenSSL), compression (LZO), sockets, tun
-- devices and the event loop, options and the management interface, server mode with its routing
-- of clients, the traffic shaper; the printing functions; the web pages and the scripts. These are
-- system code, other libraries, or parts that none of the modelled parts needs.
pub mod Prelude
pub mod Integer
pub mod CircList
pub mod PacketId
pub mod Buffer
pub mod Reliable
pub mod Pool
pub mod Frame
pub mod Otime
pub mod Schedule
pub mod Misc
pub mod Mbuf
pub mod Mss
pub mod HashTable
pub mod Fragment
pub mod AuthPlugin
