-- ===== src/Lib.antt =====
-- tactyk: a virtual instruction set, its program loader and its assembler glue, all of which keep
-- their data in "dblocks". This library models the dblock layer, libtactyk/tactyk_dblock.c with
-- include/tactyk_dblock.h, the arithmetic it takes from libtactyk/tactyk_util.c, the contexts of
-- the virtual machine, parts of the program loader, the compiler and the allocator's table.
--
-- Parts, and the files that model them:
--   Base                 names, Boolean tests, lists, 64-bit words and bit masks for the rest
--   Util/Pow2            tactyk_util__next_pow2, the capacity of a new table
--   Util/Random          rand_range, on the draws it is given
--   Util/Ints            is_intstring, is_uintstring, try_parseint and try_parseuint on C strings
--   Dblock/Block         struct tactyk_dblock__DBlock: `Block` has the plain fields with the memory
--                        as a list of bytes, `DBlock` adds the linked blocks, `Slots` the memory of
--                        a table and `Value` what a table holds
--   Dblock/Hash          update_hash and equals
--   Dblock/Persist       set_persistence_code, shallow_copy, from_c_string
--   Dblock/Table         new_table, table_find, rebuild_table, put, get, delete
--   Dblock/Number        try_parseint, try_parseuint, from_int, from_uint
--   Dblock/Text          new, expand, reallocate, clear, concat, substring, the append family,
--                        contains, contains_char, getchar, lastchar
--   Dblock/Tokens        tokenize: a block is cut into tokens or into lines at a separator
--   Dblock/Lines         remove_blanks and trim on lines linked by next and child
--   Dblock/Links         count_peers, count_children, count_tokens, last_peer, last_token, last_child
--                        and deep_copy along the links of blocks
--   Dblock/Interpolate   interpolate: names in a pattern replaced by what tables hold
--   Dblock/Export        export_cstring
--   Dblock/Container     new_container, new_allocated_container, new_object, index, index_allocated
--   Dblock/Stratify      stratify: lines become a hierarchy by their indentation
--   Dblock/Pool          init, alloc, dispose, weak_dispose, cull: the blocks by address, with the
--                        stack of the unused ones
--   Asmvm                libtactyk/tactyk_asmvm.c with include/tactyk_asmvm.h: bind, unbind,
--                        prepare_invoke, call, invoke, resume; functions are found in a dblock table
--   Pl                   the program loader, libtactyk/tactyk_pl.c with include/tactyk_pl.h:
--                        Pl/Walk has tactyk_pl__load_dblock, which calls the emitter and the
--                        directives by an interface, Pl/Struct tactyk_pl__struct with the constants
--                        it puts in a dblock table, Pl/Memory define_mem, mem and extmem
--   Emit                 the compiler, libtactyk/tactyk_emit.c with include/tactyk_emit.h:
--                        Emit/Script has the labels, commands and codeblocks that the loader makes,
--                        and gives them to Pl/Walk as its interface; Emit/Labels the names of labels;
--                        Emit/Machine, Operands, Operators and Interpreter the operators of the
--                        virtual instruction set and the functions that run them;
--                        Emit/Composite the one that permutes the code it repeats; Emit/Compile
--                        ExecInstruction and the loop of compile over the commands; Emit/Layout the
--                        order in which compile writes their code
--   Alloc                libtactyk/tactyk_alloc.c: the table of mappings of tactyk_alloc__allocate and
--                        tactyk_alloc__free, with what mmap returns as an argument
--
-- The functions have the names of the source without the prefix tactyk_dblock__, tactyk_util__,
-- tactyk_asmvm__, tactyk_pl__, tactyk_emit__ or tactyk_alloc__. The assembled code that `call` runs is a
-- parameter, as it is made by an external assembler.
-- A block is a value: a function that writes to a block returns the new block. A table owns the
-- keys it stores, as the source copies them, so no other block shares their memory; a caller that
-- changes a block after it stored it as a value is not modelled. In Dblock/Pool a block stands at
-- an address and links to addresses; the memory that is freed with a block is left out there. A
-- pointer to anything but a block is a number. A failed `assert`, a reported error, a loop that does
-- not end and a use after free are `none`.
--
-- 64-bit arithmetic wraps (Base/Words). Lengths and capacities are those of memory, so sums of
-- two of them are taken as they are, below 2 ^ 64; where the theorems need a bound, they state it.
-- Words are read from memory the least byte first, as on x86-64. Memory from the allocator is
-- zeroed, as calloc and mmap give it.
--
-- Fuel: `put` calls rebuild_table, which calls `put` on the larger table: two levels are enough.
-- The doubling loops of expand and reallocate have 65 rounds: 64 doublings of 1 pass any length up
-- to 2 ^ 63. `dispose` nests as deep as the links go: a depth above the rank of the block is enough.
-- The decimal digits of a 64-bit number are at most 20. tokenize moves on by a byte in each round,
-- interpolate takes at least one byte in each, and the walk over a program handles a line in each:
-- one round more than bytes or lines is enough. The interpreter of the virtual instruction set takes
-- the depth of its nested calls as fuel, since a subroutine may call itself, and a number of rounds
-- for the loop of composite, which need not end; no theorem needs them.
--
-- Not modelled: floating-point numbers and printing (the C library), reading past the end of a
-- text (a byte beyond the memory reads 0), the assembler, debugger, runtime and the drivers
-- (processes and I/O), and so far the other directives, the aliases and the bus of the program
-- loader, the operator vcode, the virtual-ISA reader, and the programs and
-- stacks of the virtual machine. Labels are chained by their links in the source and listed here. The
-- variable of the template is the block of the template in the source, and put again here whenever
-- the template changes.
-- A directive that the walk of the loader runs leaves the links between lines as they are.
pub mod Base
pub mod Util
pub mod Dblock
pub mod Emit
pub mod Asmvm
pub mod Alloc
pub mod Pl
