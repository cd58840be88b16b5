-- ===== src/Lib.antt =====
-- A file system that keeps everything in memcached (cachedfs), and the smaller C programs beside it.
--
-- The parts, and how they use each other:
--   cachedfs/main.c      the FUSE operations. They keep no state of their own: a file or directory is a
--                        main value under its path (header_struct), a directory's children are values
--                        under "<n><path>", a file's data under "&<n><path>", extended attributes under
--                        "$<n><path>". All go through memcache.c.
--   cachedfs/memcache.c  builds memcached's text commands and reads its replies.
--   hw1/tokenizer.c      splits a command line of the shell into words.
--   hw1/shell.c          runs a line's words: a built-in command, or a process with redirections.
--   hw2/libhttp.c        parses a request and sends data.
--   malloc-master/mm_alloc.c  malloc, free and realloc over sbrk, with the blocks in a list.
--   hw2/wq.c             the queue of sockets that the server's threads share.
--
-- Files:
--   Prelude        shared names; tests on native numbers, lists with `length`, `take`, `drop` over them.
--   Machine        C's memory. Word: an int is its bit pattern below 2 ^ 32 (`neg n` is -n), and
--                  arithmetic wraps around. Buffer: a block with its size and bytes, and what was never
--                  written is a parameter `junk`. Decimal: sprintf's %d. Cmd: commands on a state, where
--                  `none` stands for undefined behaviour or a loop that does not end.
--   Memcache       Server: memcached itself is a parameter, a record with a state, what it replies to
--                  each request, and laws that state its documented protocol; Dictionary is a concrete
--                  server that satisfies them. Client: cache_get, cache_msg, cache_set of memcache.c.
--                  Replies: what is read
--                  out of a reply. Laws: what the calls do to the server's state.
--   Cachefs        main.c. Layout: the structs. Keys: the keys and the walk to the parent. Counters:
--                  increaseChildrensNum and its kin. Entries: addToParent, hello_mkdir, hello_create,
--                  hello_getattr, hello_access. Startup: hello_init. Listing: hello_readdir. Removal:
--                  hello_rmdir, hello_unlink. Content: hello_read, hello_write. Attributes: the four
--                  xattr operations. The modules below each hold its lemmas: Keys/Distinct on equal keys,
--                  Listing/Laws and Listing/Growth on the entries of a directory, Content/Files what it
--                  means that a file holds bytes, Content/Spliced, Writing, Overwriting, Written,
--                  Splicing and Whole on writing, Content/Reading and Roundtrip on reading,
--                  Listing/Populated and Listing/Added on directories whose entries have their files,
--                  Removal/Entry, Laws, Directory, Cleanup and File on what is removed, and below
--                  Attributes a path's attributes as a list: Stored and Written the bytes of one, Listed
--                  the list, Adding, Finding, NamesLoop, Names, Moved, MovingLast, Places and Removing
--                  the operations on it. Lifecycle: a file from hello_create on. Refinement: sequences of
--                  hello_create and hello_unlink as commands on a set of names.
--   Shell          Tokenizer: tokenizer.c; its Laws and Bounds. Redirection: the loop over a command's
--                  words in main of shell.c, and getDirectory; Laws, Overflow and Search. Commands: the
--                  built-in commands, a new process and the rounds of main; Words, Laws, and Waiting on numBack.
--   Http           libhttp.c; Laws, Sound and Mime.
--   Malloc         mm_alloc.c. Store: bytes at addresses. Outcome: what mm_malloc gives.
--                  Fields and Middle: what its steps leave in the structs. Blocks: the heap as a list
--                  of blocks, and first fit on it; FirstFit, Steps, Walk and First on mm_malloc. Realloc.
--                  Free: the release of a block on the list, Merged, First, Release and Stale on
--                  mm_free.
--   WorkQueue      wq.c, over the list macros as a parameter, with the runs of its threads; Order.
--   Tests          runs of the models and the theorems at concrete inputs.
--
-- Function names are those of the source; a function of main.c takes the server `m`, the memory that it
-- finds (`junk n` is the content of its n-th block) and the path, and is a command on the server's state.
--
-- Bounds and fuel. A path has at most 238 bytes in the theorems, so that the source's arrays of 250 hold
-- every key. A cell has at most 65000 bytes, which cache_get's single read takes. The loop of hello_write
-- has the number of bytes as fuel, since each round writes one at least, and hello_write may call itself
-- once: behind the inner call the length reaches the offset. hello_read's fuel is an argument: a round
-- copies one byte at least, so the size is enough. hello_readdir's loop runs as often as the header says.
-- mm_malloc's fuel is an argument: one more than there are blocks is enough. Its sizes wrap around at
-- 2 ^ 64, and its theorems say for which sizes they hold. A line of the shell has fewer than 4096 bytes
-- in the theorems on commands, as fgets gives it.
--
-- Assumed of the outside: memcached keeps what it stored, each reply arrives in one read, and malloc gives
-- memory. Out of the model: opening and closing the socket, FUSE's own calls (main, the option table, the
-- operations that only return 0), FAST_MODE other than 0, formatting with dprintf, and the terminal, prompts
-- and process groups of the shell. Whether its calls of fork, open and access succeed, what the blocks of
-- getDirectory hold, and PATH are parameters (System). utlist.h is
-- another project's.
pub mod Prelude
pub mod Machine
pub mod Memcache
pub mod Cachefs
pub mod Shell
pub mod Http
pub mod WorkQueue
pub mod Malloc
mod Tests
