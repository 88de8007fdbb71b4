-- ===== src/Lib.antt =====
-- KVSEV: a key-value store, memcached 1.6.12, that keeps a MAC for each stored item in a Merkle
-- tree. This library models parts of the program and proves what they promise.
--
-- Merkle (src/merkle): the Merkle tree that the store adds the MAC of each stored item to, and
-- verifies a MAC against when the item is read.
--   Merkle/Config: merkle_config.h, the limits and `mt_error_t` (`MtError`).
--   Merkle/ArrayList: mt_array_list.c. A function `mt_al_f` is `f`. The block of an array list is
--     explicit: its size in bytes, the hashes in its slots, and whether the pointer is null, live or
--     freed. Each request for memory is answered by an argument. Byte counts wrap at 2 ^ 32.
--     Memory, Holds, Reserve, Grow, Change, Shrink and Powers prove that the list refines a sequence.
--   Merkle/Hash: mt_crypto.c. SHA-256 is a copy of the code of RFC 6234, and a parameter.
--   Merkle/Tree: mt_impl.c. A function `mt_f` is `f`; a call returns its status and the tree that it
--     leaves, or a fault (`Outcome`) for a failed `assert` or an access out of bounds.
--     Spec is the abstract tree of a sequence of leaves; State, Models, Spine, Climb carry the
--     refinement; Create, Add, Verify, Update, Root and Forge hold the results.
--
-- Assoc (memcached/assoc.c): the hash table. A function `assoc_f` is `f`; `_hashitem_before` is
--   `remove_in`. The loop of assoc_maintenance_thread is `bulk_move`, one argument for each answer of
--   `item_trylock`, and `migrate` is the move of one bucket. Chain, Buckets, Placed, Put, Change, Move,
--   Grow, Migrate and Maintain carry the invariant; Iterate is the walk of the iterator; History holds the table against a map of the keys.
--   The thread holds no lock between its rounds, and waits where it does not expand: a history may
--   have any operation between two rounds, and a round of no locks is an expansion alone.
--
-- Store (memcached/items.c, memcached.c, proto_text.c): how an item is stored and read.
--   Store/Items: the items and `do_item_get`, `do_item_link`, `do_item_unlink` and their like, under
--     these names. The hash table is the map that Assoc proves of it.
--   Store/Command: `do_store_item`, `complete_nread_ascii` with the MAC and `mt_add`, and one key of
--     `process_get_command` with `mt_verify`, on the trees of Merkle. AES-CMAC under the server's key
--     is a parameter, which returns 16 bytes.
--   Store/Process: `process_update_command` and its data (`nread`, the rounds of conn_nread in drive_machine),
--     `process_touch_command` and `process_delete_command`, from the texts of their tokens. A line to the
--     client is a `Line`; the answers of the allocator are arguments.
--   Store/Dispatch: `process_command`, the call of a handler being a `Request`, and a storage command from its
--     line on (`serve_storage`). Line prints storage commands, Counts is about the numbers of
--     tokens, Serve about a whole `set`, and Session about commands one after another.
--   Store/Delta: `do_add_delta` and `process_arithmetic_command`. The text of a number is the parameter `print`.
--   Core and Link prove what the operations on items leave and change; Secured, Set, Get and Hit hold the
--     store against the tree; Process/Complete and Process/Accept hold whole commands against it. One command runs at a time: the item locks and the mutex of the tree are
--     left out.
--
-- Bipbuffer (memcached/bipbuffer.c): the ring buffer of two regions of the logger and the LRU. A
--   function `bipbuf_f` is `f`. Region has the bytes of a region; Queue, Offer, Poll and Views
--   hold the buffer against a queue of bytes.
--
-- Cache (memcached/cache.c): the cache of objects of one size, with the functions' own names. Owned
--   keeps the account of the objects that are out and of the free ones.
--
-- Lru (memcached/items.c): the LRU queues, `do_item_link_q` and `do_item_unlink_q`. Chains has the items linked by
--   `prev` and `next` as a list; Queue and Unlink hold the queues against lists.
--
-- Slabs (memcached/slabs.c): the slab classes under the functions' own names. Classes is about `slabs_clsid`,
--   FreeList and Alloc about the free lists, on the chains of Lru, and Memory about the limit.
--
-- Text (memcached/util.c, proto_text.c, memcached.c): what the commands read from a line. Numbers has
--   `safe_strtoull` and its like, under their names, over `strtoull` in base 10 and the "C" locale (`scan`), and
--   `realtime`; Tokens has `tokenize_command`, a token being an offset and a length.
--
-- StatsPrefix (memcached/stats_prefix.c): the statistics by prefix. A function `stats_prefix_f` is `f`. Accounts
--   is about the counts of prefixes and bytes, Dump about the buffer of the text.
--
-- Bounds. The loops of mt_impl.c over the levels are given TREE_LEVELS rounds, which is the bound of
-- the loop of `mt_add`, and more than the test of the other loops allows. The results on trees are
-- for at most 2 ^ 26 leaves, where the byte counts of mt_array_list.c are exact; at that size its
-- `mt_al_add` fails.
--
-- The sizes of the hash table are 2 ^ hashpower without a bound, as the code computes them up to
-- hashpower 31. The counters of the store wrap at their widths.
--
-- Not modelled: the printers of src/merkle, SHA-256, AES and AES-CMAC (third-party code); what is done
-- with items in chunks (told apart by their size: `finish_update` stops at them), the reuse of their memory, eviction (the store takes the answers of the allocator as arguments,
-- and the queues and the slab classes stand by themselves); slabs_init, which computes in doubles, and the page mover; the meta commands, the other commands and protocols, the threads, logging and storage of memcached; the
-- client and the kernel module, which are I/O.
pub mod Prelude
pub mod Merkle
pub mod Assoc
pub mod Store
pub mod Bipbuffer
pub mod Cache
pub mod Text
pub mod Lru
pub mod Slabs
pub mod StatsPrefix
