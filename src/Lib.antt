-- ===== src/Lib.antt =====
-- A model of nkvdb, an embedded store of time series, and the theorems about it.
--
-- The program keeps measurements in pages. A page is a mapped file: a header, then one record per
-- measurement from the front, and the value bytes from the back. Beside it stand its write window,
-- the latest measurement of each id, and its index, a B+ tree of records that each name a run of
-- positions, with bounds and Bloom filters for what is in them. Measurements reach a page through
-- caches. Paths below are from the root of the repository.
--
--   Prelude      Boolean tests and 64-bit arithmetic, lists, results with the faults of C++ (an
--                exception, a failed assertion, undefined behaviour, fuel that ran out), bits.
--   Bloom        include/bloom_filter.h.
--   Meas         include/meas.h, libnkvdb/meas.cpp, include/common.h: Meas, setValue, readValue,
--                append_result, checkPastTime and MetaStorage::append of a list.
--   Cache        include/cache.h, libnkvdb/cache.cpp: class Cache, and in Cache.Current class
--                CurValuesCache.
--   CachePool    the same files: class CachePool, over a heap that holds the caches.
--   BTree        include/btree.h, include/btree.hpp, include/btree_common.h: the tree (BTree), its
--                nodes (BTree.Nodes) and insert_to_array (BTree.Array). BTree.Shape says when the
--                node array is a tree, with a record (Ghost) of what the nodes do not store: which
--                of them belong to it, their keys' bounds and their heights. A split is followed
--                in three steps: BTree.Move has what the loops of split_node leave in the nodes,
--                BTree.Shape.Split that such nodes are a tree, and BTree.Split the rounds up to the
--                root, where a new root is taken to stand above the old one before that is split.
--                BTree.Insert has insert as a whole.
--   Index        include/index.h, libnkvdb/index.cpp: records, flush, writeIndexRec, findInIndex.
--   WriteWindow  include/writewindow.h, libnkvdb/writewindow.cpp, and Page::updateWriteWindow.
--   Page         include/page.h, libnkvdb/page.cpp: the header, the memory, read, isFull and close;
--                Page.Append has the two appends.
--   Query        libnkvdb/page.cpp and libnkvdb/readers.cpp: checkValueFlags, backwardRead and
--                timePointRead; in Query.Readers the readers, and the functions that make them.
--   Storage      libnkvdb/storage.cpp and libnkvdb/page_manager.cpp: which pages a query reads, and
--                which page a storage is opened at; in Storage.Writes include/storage.h and the
--                appends, writeCache and flush_and_stop, with the caches that go to the thread; in
--                Storage.Reading StorageReader, in Storage.Times minTime, maxTime and curValues, and
--                in Storage.Queries readInterval, readInTimePoint and loadCurValues.
--   Worker       include/asyncworker.h: the queue and the thread, as a step relation.
--   Manager      include/page_manager.h, libnkvdb/page_manager.cpp: the current page and the files of
--                the others (Page.Files opens and creates a page).
--   Writer       libnkvdb/storage.cpp, class AsyncWriter: a cache is sorted and written to pages.
--
-- How the parts interact. A client fills a cache; the storage marks a full one and puts its address
-- into the queue of the worker, whose thread hands it to the writer. The writer appends to the
-- manager's current page, and has the manager close it and make a new one as often as needed. A
-- query pauses the worker, asks the manager for the headers of all pages, chooses pages by these,
-- and reads each with a reader.
--
-- How the state corresponds. A number of the source is a natural number, and a 64-bit difference
-- that the source lets wrap is written with its wrap (sub64). A pointer to a node is the node's
-- position in the node array, as it is in the file, and a pointer to a cache an address of a heap.
-- The mapped file of a page is a function from positions to records and one from addresses to
-- bytes, where the source has one memory: the two agree with it as long as no value stands where a
-- record does, which Page.Layout is about (IsSound). What is said of pages that are appended to is
-- said of sound pages with room, or with values whose size fills them up (FitsSize), but for the
-- step to an overrun page itself, in Page.Layout.Overrun. Sizes of objects are those of eight-byte
-- words: 224 bytes for the header, 56 for a measurement, 48 for a record. A page's index begins at
-- the state of a new file. The file of a page that is not mapped, with those of its window and its
-- index, is the page as it was when it was closed. What the threads of a worker do is a relation
-- between states, each step of which is one that no lock keeps apart. The queue that the storage
-- sees in Storage.Writes has the cache in front that the thread has taken and not yet written:
-- isBusy does not count it, and flush_and_stop may return before it is in the pages; pause_work
-- waits for it.
--
-- Fuel. The search of the tree and its splits take fuel for the height of the tree, more than which
-- is enough; an insertion takes at most as many free nodes as the tree is high, and two. The loop
-- over its leaves fuel for their number; getCache takes fuel for its calls of itself, and readAll
-- for its calls of readNext. Running out is a fault of its own, and no result takes it for an
-- answer. An append to an index with room for its records uses none of it. The search for a page's
-- name and the writer's loop take fuel for their rounds; for the loop one more than there are
-- measurements is enough. The loops of an append take a list of waits, each with the turns of the
-- thread in it: as many as there are measurements are enough, if the thread has a turn in each, for
-- the append to return or to fail as the writer does. The loop of flush_and_stop takes a list of
-- looks, before one of which the thread must have written what is in the queue.
--
-- Not modelled: the loop of AsyncWorker::stop, the contents of the files byte by byte,
-- Create, Open and Close of a storage, the clock (an argument, with one value for all the
-- measurements of an array), sizes that leave the range of int, logging, the text of exceptions,
-- the benchmarks and the tests.
-- The two filters of the index record of a single measurement, which the source never sets, are
-- arguments.
pub mod Prelude
pub mod Bloom
pub mod Meas
pub mod Cache
pub mod CachePool
pub mod BTree
pub mod Index
pub mod WriteWindow
pub mod Page
pub mod Query
pub mod Storage
pub mod Worker
pub mod Manager
pub mod Writer
