-- ===== src/Lib.antt =====
-- The containers and small tools of the C library alib-c: byte buffers, arrays of pointers, memory
-- pools, linked items, string parsers, packets and timer events.
--
-- Parts. includes/RBuff.h is a rotational byte buffer: bytes are pushed behind the end iterator and
-- popped off at the begin iterator, round the end of the memory. includes/RBuffIt.h walks the bytes
-- of such a buffer and reads its fields. includes/BinaryBuffer.h is a growing buffer of bytes, and
-- includes/ComDataCheck.h cuts a stream of received bytes into the packets that were sent, which it
-- collects in such buffers. includes/ArrayList.h is an array of pointers in which NULL marks a free
-- slot; it grows by doubling up to a maximum, and its *_tsafe() functions take a mutex.
-- includes/MemPool.h keeps blocks of memory in such an array and lends them out.
-- includes/ListItemVal.h is a value with a count of references, includes/ListItem.h an item that
-- points to one, and includes/DListItem.h an item of a doubly linked list; includes/ListHistoryItem.h
-- is an item of a singly linked one. includes/TimerEvent.h is an event that calls back when its timer
-- rings. includes/StrRef.h and includes/StrParser.h refer to a part of a string and trim it;
-- includes/alib_types.h says what type the text of a value has. includes/Endianess.h and
-- includes/alib_math.h are single functions, and so are those on memory and strings of
-- includes/alib_string.h.
--
-- Files.
--   Common and below: C integers and tests, arrays as lists, runs that may fault.
--   RBuff: source/RBuff.c, a definition per function, the private helpers included; RBuff_pushback()
--     is pushback with push_fit, push_chunks and push_rest for its three stretches. Below it stand
--     the invariant, the bytes held, and the theorems per operation; Refine compares whole runs with
--     the last bytes of a stream.
--   RBuffIt: source/RBuffIt.c, with the client's walks in RBuffIt/Walk and RBuffIt/Back.
--   BinaryBuffer: source/BinaryBuffer.c; Life holds the constructors, the destructors and the
--     functions on files, and the other files prove.
--   ComDataCheck: source/ComDataCheck.c over BinaryBuffer, with the header of a packet in
--     ComDataCheck/Header, a stream that comes in parts in ComDataCheck/Stream, and sending and
--     receiving in ComDataCheck/Recv.
--   ArrayList and below: source/ArrayList.c. State holds the struct and the shared loops, Resize,
--     Edit, Query and Access the functions, Life the constructors and the destructor, Calls the
--     functions as a client calls them, Guarded and Access the *_tsafe() functions, and Tsafe all of
--     them as a client calls them; the other files prove.
--   MemPool: source/MemPool.c over the model of ArrayList, with reserving in MemPool/Reserve, the
--     filling of new slots in MemPool/Fill and growing in MemPool/Grow.
--   DListItem: source/DListItem.c on a heap of nodes, with the walks in DListItem/Lookup and the
--     functions that unlink and make nodes in DListItem/Pull and DListItem/Moving. Chain says which
--     nodes form a list; the other files prove.
--   ListItem: source/ListItemVal.c and source/ListItem.c, with the references in ListItem/Counting.
--   ListHistoryItem: source/ListHistoryItem.c, the items of a history, with finding and removing in
--     ListHistoryItem/Removal and the life of a list in ListHistoryItem/Freeing.
--   TimerEvent: source/TimerEvent.c, with the end of an event in TimerEvent/Lifetime.
--   StrRef and StrParser: source/StrRef.c and source/StrParser.c, with the loops of StrParser_trim()
--     in StrParser/Trim and the whole function in StrParser/Whole.
--   AlibTypes: source/alib_types.c, with the numbers it accepts in AlibTypes/Parsing.
--   AlibString: memcpy_back() and memcpy_safe() of source/alib_string.c, and in AlibString/Text its
--     functions that search a string or change its letters, and strncpy_fast().
--   Endianess and AlibMath: source/Endianess.c and source/alib_math.c; CornerTests runs both.
--
-- Correspondence. A struct is a record with the source's fields; a pointer to one is an Option, NULL
-- being none, and the new state is returned. A pointer into a buffer, an array or a string is its
-- distance from the start; a pointer to a block of a pool is its number; the nodes of a list and the
-- values of items lie in a map from addresses, so that two pointers may name one object. A size_t is a
-- natural number whose sums and differences wrap at 2^64; where a result goes through int32_t that is
-- written out, and the buffers of the theorems are smaller than 2^31 bytes. A read or write outside an
-- object, or through NULL, is the run `fault`, and so is memcpy() between stretches of one object that
-- overlap, which C leaves undefined; a theorem that a call gives `ok` says that there is none.
-- Allocation is a parameter: `room n` says whether the C library can allocate n pointers or bytes,
-- `junk` is what new memory holds, `grants n` says whether block n of a pool can be made, and the
-- theorems that need memory assume that they can. Parameters are also the comparison by which
-- ArrayList_sort() calls qsort(), strncasecmp(), tolower() and toupper(), what send(), recv(),
-- fseek(), ftell(), fread() and fwrite() return, and what the clock of a timer says. Callbacks are
-- functions or numbers; what is handed to free_item or to another destructor is part of the result.
-- The mutex is whether it is held; taking it a second time is a fault, since the call would never
-- return.
--
-- Loops are structural recursion over the slots, over the characters or over the rounds left. Fuel
-- stands in three places. The client's walk of RBuffIt/Walk has it: as many rounds as there are bytes
-- and two more are enough. The growing of a BinaryBuffer has one round for every byte of the size it
-- aims at, since each round grows the capacity. The walks of DListItem have one for every node they may
-- meet. flip_endianess() has as many rounds as the memory has bytes, since each round reads a later
-- byte.
--
-- Not modelled: the growing strings, the other functions that copy, allocate, print or compare strings,
-- DList, ListHistory, MutexObject, files and directories, sockets, servers, timers and their handlers,
-- threads, the wrappers of other libraries (zlib, curl, json-c, libuv), and the client's data in the
-- blocks of a pool. Of TimerEvent the returned times and
-- the comparison of two events are left out, since they rest on the timer. Interleavings of several
-- threads are not modelled either: the *_tsafe() functions are run by one thread.
pub mod AlibMath
pub mod AlibString
pub mod AlibTypes
pub mod ArrayList
pub mod BinaryBuffer
pub mod ComDataCheck
pub mod Common
pub mod CornerTests
pub mod DListItem
pub mod Endianess
pub mod ListHistoryItem
pub mod ListItem
pub mod MemPool
pub mod RBuff
pub mod RBuffIt
pub mod StrParser
pub mod StrRef
pub mod TimerEvent
