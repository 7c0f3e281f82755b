-- ===== src/Lib.antt =====
-- Verification of the core of the Intel Xeon Phi kernel driver.
--
-- The driver couples a host to coprocessor boards. SCIF, its communication layer (micscif/), keeps
-- two byte rings between each pair of nodes, gives out port numbers, and maps host memory into the
-- address space of a board. The development models these parts and proves what makes them correct.
--
-- Parts and files:
--   Common         the names that all models share: Boolean tests, lists indexed by native numbers,
--                  bit masks, signed integers.
--   Kernel         what the driver takes from the Linux kernel, as records of operations with their
--                  documented behaviour: CIRC_CNT and CIRC_SPACE, copies from and to user space.
--   ScifRb         micscif/micscif_rb.c: the ring between two nodes. `Rb` is one end (struct
--                  micscif_rb), `Shared` the memory both ends see; the functions keep their names.
--                  ScifRb/Pipe is the abstract queue of bytes, ScifRb/Refine the refinement,
--                  ScifRb/Delivery what it means for a whole exchange.
--   Ports          micscif/micscif_ports.c: the bit array of ports. `Ports` holds the static data of
--                  the file, a word is a list of 64 bits. Ports/Spec says which ports are free,
--                  Ports/Calls and Ports/Search treat the three calls, Ports/Held their histories,
--                  Ports/Blocked a state where the search stops working.
--   Smpt           micscif/micscif_smpt.c and include/mic/micscif_smpt.h: the table of 32 pages of
--                  16 GiB through which a board reaches host memory. Smpt/Pages counts the bytes of a
--                  range page by page, Smpt/Window is the search, Smpt/Entries the updates,
--                  Smpt/Grant and Smpt/Mapping one mapping, Smpt/Leases all the mappings held.
--   VaGen          micscif/micscif_va_gen.c: the allocator of registration windows. The chains of
--                  node indices are lists. VaGen/Holes is first fit, VaGen/Insert the insertion that
--                  coalesces, VaGen/Grants what callers own, VaGen/Runs whole histories,
--                  VaGen/Aligned allocations with an alignment.
--   VaNodes        micscif/micscif_va_node.c: the slabs of nodes that VaGen's lists are made of.
--                  VaNodes/Chain is the free list, VaNodes/Owners whole histories.
--   RmaList        micscif/micscif_rma_list.c: the lists of registered windows. RmaList/Insert is the
--                  two insertions, RmaList/Query the query of registered windows, RmaList/Temp the
--                  query of the windows that a transfer registers for a time.
--   ComplRing      include/mic/compl_buf_ring.h: the ring of entries that wait for the DMA engine;
--                  ComplRing/Space is the allocation of an entry.
--   Micmem         host/micmem.c: transfers between a board and host pages. Micmem/Pieces is the
--                  plan of copies that a transfer has to make, Micmem/Single and Micmem/Dual follow
--                  it on one and on two channels, Micmem/Outcome says what a transfer may come to,
--                  Micmem/Transfer puts them together. Micmem/Range is the mapping of pinned pages,
--                  Micmem/Range/Unmap its undoing, Micmem/Range/Length how much is mapped.
--   Endpoint       micscif/micscif_nodeqp.c and micscif/micscif_api.c: the endpoints of a node.
--                  Endpoint holds the state and the handlers of messages; Endpoint/Setup is bind,
--                  listen and connect, Endpoint/Accept is accept, which takes a request in one step
--                  and answers it in another, Endpoint/Close flush and close as a thread of steps
--                  under its locks, three to a round of the loop over the accepts.
--                  Endpoint/Close/View is what the thread relies on, Safe that messages and other
--                  threads keep it, Thread the whole close, Accepts, Falls and Ends the count of
--                  the accepts and of the steps. Endpoint/Tally counts requests and answers,
--                  Endpoint/Answered and Endpoint/Requests follow them through all calls.
--                  Endpoint/Setup/Bind uses the theorems of Ports for scif_bind.
--   Stream         micscif/micscif_api.c: _scif_send and _scif_recv as two threads over the ring of
--                  ScifRb, one access of the ring to a step. Stream/Invariant is what holds between
--                  two steps, by ScifRb/Effects; Stream/Sends and Stream/Receives keep it,
--                  Stream/InOrder is what arrives, Stream/Ends that calls return.
--
-- Concurrency: the calls on the ports and on the table run under a spin lock, so each is one step.
-- The two ends of a ring run side by side; each call reads or writes each shared offset at most
-- once, and a run of the model is any sequence of calls of both ends.
--
-- A section of an endpoint call under its lock, and a handler of a message, is one step too. Between
-- two sections of scif_close any message and any call on another endpoint may come. A peer that
-- follows the protocol is assumed where a theorem says so: an acknowledgement goes to an endpoint
-- that waits for it, a SCIF_CNCT_TERM names a request of its own node.
--
-- Integers: all numbers are natural numbers with the wrap-around of the C type written out, 32 bits
-- for ring offsets, 16 for ports, 64 for addresses. Reference counts are integers without a bound.
--
-- Loops run over lists or on fuel that the array bound gives: the counts of a range have the 32
-- places of `ref`, and running past them is `none`. So is a mapping of pinned pages whose page
-- numbers an `int` does not hold.
--
-- Not modelled: memory barriers and the reads that flush posted writes, logging, WARN_ON, the
-- CONFIG_ML1OM variant of the page table, the memory of queue pairs, reference counts of nodes
-- and endpoints, the request of a board for a connection to another board, and the components
-- that only call kernel services (the module glue, sysfs and debugfs files, PCI set-up,
-- sensors, the network and block devices).
pub mod Common
pub mod Kernel
pub mod ScifRb
pub mod Ports
pub mod Smpt
pub mod VaGen
pub mod VaNodes
pub mod RmaList
pub mod ComplRing
pub mod Micmem
pub mod Endpoint
pub mod Stream
