-- ===== src/Lib.antt =====
-- PartitionAlloc, the memory allocator of Chromium, under src/partition_alloc. A partition hands
-- out slots of fixed sizes. The slots of one size belong to a bucket; a bucket takes its slots from
-- slot spans, runs of pages that lie in super pages of 2 MiB; super pages come from a pool, a range
-- of addresses that is reserved once. A slot that a raw_ptr may point to carries a counter of the
-- pointers to it, and is reused only when neither the allocator nor a pointer holds it. A slot span
-- without an allocated slot waits in a ring until its pages are given back to the system.
--
-- Base: Boolean tests on the native numbers, and lists indexed by them.
--
-- Metadata: class InSlotMetadata of in_slot_metadata.h. The atomic word is a number below 2 ^ 64,
-- each method a function from the word and the reports so far to the new ones, or to a crash.
-- Metadata.Refine says what the word stands for, Metadata.Steps how the threads that share a slot
-- may interleave, each of their accesses to the word being one step, and Metadata.Protocol what
-- this comes to.
--
-- Pool: class AddressPoolManager::Pool and AddressPoolManager::Reserve and UnreserveAndDecommit of
-- address_pool_manager.cc, in a 64-bit build. The bitset is a function from the index of a super
-- page. Pool.Scan is the inner loop of FindChunk, Pool.Find the search, Pool.Reserve the other
-- operations.
--
-- SlotSpan: SlotSpanMetadata of partition_page.h, Decommit of partition_page.cc and
-- ProvisionMoreSlotsAndAllocOne of partition_bucket.cc. A slot is its index in the span, the
-- freelist the list of its slots. SlotSpan.States has the four states, SlotSpan.Provision lazy
-- provisioning, SlotSpan.Number the slot number by a reciprocal, SlotSpan.Sorting SortFreelist,
-- with the bitset as a function of the slot.
--
-- Bucket: the active, empty and decommitted lists of PartitionBucket, SetNewActiveSlotSpan and
-- MaintainActiveList of partition_bucket.cc; FreeSlowPath, RegisterEmpty and DecommitIfPossible of
-- partition_page.cc; ShrinkEmptySlotSpansRing of partition_root.cc. A span is an index into a
-- store, a chain through next_slot_span the list of its spans. Bucket.Visit and Bucket.Sweep have
-- the walks over the active list, Bucket.Entries and Bucket.Ring the ring of empty spans,
-- Bucket.Dirty the dirty bytes that are counted for it, Bucket.Free and Bucket.Retire the slow path
-- of a free, Bucket.Sort the sorting of the active list, with std::sort as a parameter.
--
-- Quarantine: LightweightQuarantineBranch of lightweight_quarantine.cc. Quarantine.Purge has the
-- two loops that dequarantine, Quarantine.Capacity the two purges, Quarantine.Insert a whole call
-- of Quarantine.
--
-- Freelist: EncodedNextFreelistEntry of encoded_next_freelist.h, the words that link free slots.
-- Freelist.Chain has the lists that SetNext builds, Freelist.Corrupt the entries that were
-- overwritten and those of the thread cache.
--
-- ThreadCache: class ThreadCache of thread_cache.cc and thread_cache.h, the slots that a thread
-- keeps for itself. ThreadCache.Ledger has its books: where each slot is, by the calls of the
-- central allocator. ThreadCache.Clear, Purge, Put, FillBucket and Get are about one operation
-- each, ThreadCache.Once about slots that would be twice in the cache, ThreadCache.Sessions and
-- ThreadCache.Calls about any sequence of calls.
--
-- Registry: class ThreadCacheRegistry of the same files, over a list of caches. Registry.Limits has
-- the limits of the buckets, which bound the counts of ThreadCache, Registry.Periodic the periodic
-- purge; Registry.Links and its children have the pointers that make up that list.
--
-- Lock: class SpinningMutex of spinning_mutex.cc and spinning_mutex.h on Linux. The state is the
-- word and the place of each thread; the kernel is a parameter, of which futex(2) is the
-- hypothesis. Lock.Exclusion is about who holds the lock, Lock.Progress and Lock.Wakeup about the
-- threads that sleep, Lock.Spin about the loop before a thread blocks.
--
-- SuperPage: how partition_bucket.cc gets a new slot span: AllocNewSlotSpan, AllocNewSuperPageSpan,
-- AllocNewSuperPage, InitializeSuperPage and InitializeSlotSpan, on the pages of a root with the
-- pool of Pool, and FromAddr of partition_page.h, which reads the metadata that they write.
-- SuperPage.Invariant says what holds between two calls; SuperPage.Begin and Grow are about a new
-- super page, SuperPage.Metadata, Place and Carve about a new span in it, SuperPage.Find about
-- FromAddr.
--
-- Sizing: PartitionBucket::Init, ComputeSystemPagesPerSlotSpan and InitCanStoreRawSize of the same
-- file, which choose the slot spans of a bucket. Sizing.Bounds shows that those of every bucket of
-- Lookup meet what SuperPage asks of a geometry.
--
-- Alloc: AllocFromBucket of partition_root.h and SlowPathAlloc of partition_bucket.cc. Alloc.Sweeps
-- has what SetNewActiveSlotSpan leaves, Alloc.Empty the loop over the empty spans, Alloc.Choose the
-- choice of a span, Alloc.Hand the slot that is taken from it, Alloc.Serve a whole call.
--
-- Lookup: class BucketIndexLookup of partition_bucket_lookup.h, which leads a size to a bucket.
-- Lookup.Table has the tables, checked entry by entry, Lookup.Index and Lookup.Denser the lookup in
-- them, Lookup.Neutral the two lookups that leave out buckets.
--
-- How the parts interact: a free that empties a span goes through SlotSpan into FreeSlowPath of
-- Bucket, which calls SetNewActiveSlotSpan and RegisterEmpty, which decommit older empty spans. An
-- allocation goes the other way: AllocFromBucket of Alloc calls SetNewActiveSlotSpan of Bucket,
-- takes slots and provisions them as SlotSpan does, and gets new spans from SuperPage, which
-- reserves super pages of Pool. The thread cache stands before all of this: what it does not hold
-- it takes from a bucket, whose answers are a parameter of its model, for any answers.
--
-- Bounds and fuel: the tries of Acquire run with nine units, which are enough since Acquire tries
-- once and the loop eight times; the loop over the registered caches with their number; FindChunk
-- runs with total_bits + 1 rounds, and each round moves the candidate past a used super page; the
-- ring is walked 1024 times at most, its length; the loop of provisioning runs with as many rounds
-- as the committed bytes plus one, since a slot has at least one byte; CheckFreeList visits one
-- entry for each unit of fuel, and one more than the slots of the list are enough.
-- AllocNewSuperPageSpan initializes as many super pages as it was asked for. The theorems are about
-- the results at this fuel, so that it is enough.
--
-- The build that is modelled: 64-bit pointers, lazy commit, ENABLE_DANGLING_RAW_PTR_CHECKS,
-- kAlignment 16, USE_LARGE_EMPTY_SLOT_SPAN_RING, system pages of 4096 bytes, no memory tagging. A
-- failed PA_CHECK is a crash. In Pool, SlotSpan and Bucket the build has no DCHECKs: a PA_DCHECK
-- does nothing there, as in the release builds. Metadata and Freelist are about a build with
-- DCHECKs, where a failed one is a crash too. Quarantine, ThreadCache, SuperPage and Alloc have as
-- checks those DCHECKs that concern the state they keep, and leave the others out, as a build
-- without DCHECKs does. Locks are not part of the state of the other modules: what runs under a
-- lock is one operation there.
--
-- Not modelled: the pool offset freelist, direct maps, the reservation offset table beyond the tag
-- of a super page, compressed pointers. Not modelled either: the page allocator and the address
-- space, which are system calls; the smart pointer templates, the shim, the stack scanner and
-- thread isolation, which are glue for a platform; the copy of the base library and the third-party
-- headers.
pub mod Base
pub mod Metadata
pub mod Lookup
pub mod Freelist
pub mod Pool
pub mod SlotSpan
pub mod Bucket
pub mod Quarantine
pub mod ThreadCache
pub mod Registry
pub mod Lock
pub mod SuperPage
pub mod Sizing
pub mod Alloc
