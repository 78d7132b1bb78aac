-- ===== src/Lib.antt =====
-- Opticon, a monitoring system, checked part by part: the meters of a host and the packet that
-- carries them, the ports and the bit stream that the packet is written with, the ring between the
-- receiver thread and the collector, the sessions that agents open, the notifications of a tenant,
-- the identifiers of hosts and meters, the watches that make a host's badness of its meters, the
-- children of variables, and the cache of tokens of the API. Agents encode the meters
-- of a host (src/libopticon/host.c, meter.c, codec_pkt.c) to a port (src/libopticon/ioport.c, over
-- src/libopticon/ioport_buffer.c), the collector receives packets into a ring
-- (src/libopticon/packetqueue.c), finds the session that a packet belongs to
-- (src/libopticon/auth.c), decodes it into its own host of that name, and notes hosts in trouble on
-- a list (src/libopticon/notify.c, src/libopticon/tenant.c) that its watcher reports from. The API
-- asks its cache (src/opticon-api/tokencache.c) what a token is worth.
--
-- Prelude: shared names, Boolean tests, C arrays as lists, laws of the bit operations.
-- Links: the doubly linked lists of notify.c, auth.c and host.c. `Heap` is the memory of the nodes,
--   `none` is a fault, `Ends` holds `first` and `last`, and `unlink` is `notifylist_remove` and the
--   same code in auth.c. Cells, Segments, Relink, Unlink and Append give what a list stands for and
--   what unlinking and appending do; Walk and Items, the loops along `next` and a write to one node.
-- Notify: src/libopticon/notify.c, by the C names without `notifylist_`, and
--   `tenant_set_notification` and `tenant_check_notification` of src/libopticon/tenant.c without
--   `tenant_`. Notify.Tenant and Notify.Report set them against plain lists; Notify.Lost is about
--   `notifylist_link` on a list with a node, Notify.Recovery about a host that recovers.
-- Sessions: src/libopticon/auth.c, by its C names. `Db` is `DBSESSIONS` with its memory;
--   Sessions.Buckets reads its 256 lists, Rounds proves the loops over them, and Lookup, Register,
--   Keys, Expire and Revoke the operations.
-- Uuid: src/libopticon/uuid.c, and `uuid2str` of src/libopticon/util.c.
-- MeterId: the meter ids of src/libopticon/util.c; MeterId.Paths has those with a separator.
-- Meter: src/libopticon/meter.c, by the C names without `meter_`. Meter.Values follows the block that
--   holds the values through allocation and writes.
-- Host: src/libopticon/host.c, by the C names without `host_`, the meters on a heap of Links. `IsHost`
--   (Host.Lists) reads them as a list; Adding, Deleting and Update prove `host_get_meter`,
--   `host_delete_meter` and `host_end_update`.
-- PacketCodec: src/libopticon/codec_pkt.c, `pktcodec_decode_host` cut into its parts. Values says what
--   a meter has to be for a packet and what its bytes are; Writing and Reading, Loops, Decoding and
--   RoundTrip prove the two directions over any storage, Buffer joins them, and Retype is about a
--   meter that changes its type.
-- Base64: src/libopticon/base64.c. Table is about `dtable`, RoundTrip about reading what was written,
--   Bounds about the size that `base64_encode` takes for its buffer.
-- Glob: src/libopticon/glob.c. Stars is about `globcmp` on plain patterns and on a star at the end.
-- Watch: src/libopticon/watchlist.c and adjust.c. Watch.Calculate is `calculate_badness`, Badness says
--   what it adds up, Lists follows the two lists.
-- Var: src/libopticon/var.c, the children of a node, by the C names without `var_`. Position is about
--   `var_find_index` and its cache, Key about `var_find_key` and its hash codes, Children about a
--   child more and one less, Deleting about `var_delete_key`.
-- WordList: src/opticon-agent/wordlist.c, `wordlist_split` and what counts its words.
-- Hash: `hash_token` of src/libopticon/hash.c.
-- TokenCache: src/opticon-api/tokencache.c, by the C names without `tokencache_`. Loops and Slots
--   follow its loops, Run keeps the invariant, Store and Revoked say what a lookup answers.
-- Ioport: src/libopticon/ioport.c. `Methods` is the table of function pointers of an ioport,
--   `IoPort` its other fields; `write_bits`, `read_bits` and the rest have the C names without the
--   prefix `ioport_`. Ioport.Strings has `write_encstring` and `read_encstring`, Ioport.Uuids the
--   identifiers and words, Ioport.Encint the encoded integers. A function that returns false is
--   `none`, and so is an index of `write_encstring` outside of its table. Ioport.Stream says what a
--   storage has to do (`Sink`, `Source`); Ioport.BitWriter, BitReader, Flush, Strings and Uuids
--   prove the ports over any such storage.
-- BufferPort: src/libopticon/ioport_buffer.c, and its instances of `Sink` and `Source`. Bytes of a
--   new block are the parameter `junk`. The loop that grows a block is given as many rounds as
--   bytes are written, and each round adds 4096.
-- PacketQueue: src/libopticon/packetqueue.c. `receive` is one round of `packetqueue_run`, with what
--   `intransport_recv` delivers as its argument, and `waitpkt` is a call of `packetqueue_waitpkt`,
--   `none` where it would wait. `run` takes the steps of the two threads in any order: the filling
--   of a slot, its publishing under the mutex, and the two critical sections of the consumer.
--
-- Bounds and fuel. Encoded integers are below 2 ^ 28, since the mask of a higher group is a shift
-- of an `int` that C does not define; reading one takes fuel for four bytes, one for each seven
-- bits. A loop along a list takes fuel, one round for each node and one more; the pass of
-- `session_expire` takes two for each session, since it looks again at one that it marks. A walk
-- that runs out is `none`, and the theorems ask for enough fuel and give the result. Times are
-- natural numbers: a difference that would be negative in the source passes no test there either.
-- `malloc` is an address that the caller of the model gives, not in use and not `NULL`; memory does
-- not run out. Locks make each operation a step, but for the two that wait in the middle, of the
-- packet queue.
--
-- `pktcodec_decode_host` is given an address for each round, which `malloc` may return in it, and one
-- more for the end. An access outside the block of a meter is `none`, and so is one that takes
-- numbers for texts or the other way round, unless the block holds zeroes only.
--
-- Not modelled: floating point (`ioport_write_encfrac` and `ioport_read_encfrac` are parameters
-- of the codec, comparing and adding doubles one of `calculate_badness`, and a double is its bit
-- pattern), the list of the hosts of a tenant and its graphs, the file port, sockets, threads,
-- compression and ciphers, the values and the text of variables, the database on disk, the
-- probes of the agent, the requests of the API and the command line. A character is its byte;
-- `char` is signed, so that a byte from 128 on is a negative character. The cursors of a buffer do
-- not pass 2 ^ 32.
pub mod Prelude
pub mod Links
pub mod Uuid
pub mod MeterId
pub mod Notify
pub mod Sessions
pub mod Ioport
pub mod BufferPort
pub mod PacketQueue
pub mod Hash
pub mod TokenCache
pub mod Meter
pub mod Host
pub mod PacketCodec
pub mod Base64
pub mod Glob
pub mod Watch
pub mod Var
pub mod WordList
