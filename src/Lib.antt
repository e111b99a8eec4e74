-- ===== src/Lib.antt =====
-- The Koala language (C): the containers and text buffer that the compiler and the runtime share, type
-- descriptors with their strings, the images of compiled modules, the classes of the object model, the tree
-- of packages, the code generator, and the library of tasks.
--
-- Prelude: tests, lists, numbers and strings that the parts share.
-- Vector (src/vector.c, include/vector.h): the array and its operations; Laws and Methods relate it to a
-- list.
-- HashTable (src/hashtable.c, include/hashtable.h, include/list.h): nodes are addresses in a heap, a chain
-- is a list of addresses. Invariant, Find, Methods, Removal and Load hold what each operation keeps and
-- returns. The hash and the equality of keys are an instance argument with their laws.
-- AtomString (src/atomstring.c): the pool of strings, a client of HashTable; Interning.
-- HashFunc (src/hashfunc.c): the hashes of numbers and strings; Laws.
-- AtomTable (src/atomtable.c, include/atomtable.h): a vector for each type of item and a HashTable over the
-- items that are unique; Laws, Append. The functions of the items are an instance.
-- Properties (src/properties.c): the lists of values by key, on HashTable with the hash of strings; Puts, Laws.
-- StringBuf (src/stringbuf.c, include/stringbuf.h): the buffer as its length, its size and its text; Laws,
-- Format.
-- StringEx (src/stringex.c): string_trim and string_to_int64; Digits has the notations
-- by tables of digits, without the code, and Numbers relates the two.
-- TypeDesc (src/typedesc.c): descriptors as trees. `desc` is the string that TypeDesc_Get_Klass and the
-- functions beside it build through StringBuf, TypeDesc/Print the intended string, TypeDesc/Parse takes
-- a string apart as String_To_TypeDesc and String_ToTypeList do, and TypeDesc/Table makes the calls that
-- enter descriptors into their table. Pieces, Steps, RoundTrip, Total, Equal, Sound and Interning relate
-- these.
-- Image (src/image.c): the items of a compiled module in an AtomTable. Items and Key are the structs and
-- their comparison, Image the functions *Item_Get and *Item_Set, Read the way back to descriptors, Module
-- the functions KImage_Add_* and KImage_Get_*. Ready is the invariant: what an item refers to is in the
-- table. Appends, Types, Parts, Reads, Sets, Lists and Protos lead to Laws, and Module/Growth to Vars and
-- Funcs. Descriptors are read on fuel above their depth.
-- Image/Format: the bytes of an item, and the read of one; Fits, Structs, RoundTrip. Image/File: the header,
-- and the layout of KImage_Finish and KImage_Write_File; its Input is KImage_Read_File. Layout, Maps and
-- Written say where everything lies, Load and Sections what the loops of the reader do there, HeaderBytes,
-- RoundTrip, Whole and Refuses what comes of a file.
-- Klass (src/object.c): classes, the order in which members are looked up, and the places of fields; Line,
-- Layout, Lookup, Fields.
-- PkgNode (src/pkgnode.c): Add_PkgNode and Find_PkgNode on the tree of packages by path; Paths.
-- Buffer (src/buffer.c): the bytes written by the code generator, in blocks; Writes.
-- Codegen (src/codegen.c, src/opcode.c): instructions, blocks, and their bytes through Buffer; Blocks,
-- Bytes.
-- Deque, Scheduler, Join (libtask/locked_linked_deque.c, libtask/task_scheduler_locked.c, libtask/task.c):
-- the linked queue of tasks, the queues of all processors with stealing, and the join of two tasks as
-- interleaved steps.
-- Each part's Tests hold its runs on small inputs.
--
-- An allocation is a parameter `malloc` that says which requests are granted, where the code handles a
-- refusal. Machine integers are natural numbers where they are sizes and counts, which stay far below 2^31
-- for the memory that exists; the bytes of an instruction's arguments are cut to their width. The parser
-- of descriptors and the write loop of Buffer run on fuel, and fuel above twice the length of the string or
-- of the bytes is enough; a package path is cut into names with its length as the fuel, which is enough for
-- each that is not empty.
--
-- Not modelled: the reference counts of descriptors; the constants of an image that are floats
-- or truth values, which the code compares or hashes by address; what only prints; the compiler's front end,
-- evaluation, the members of packages, command lines, the object cache and the built-in objects, which the
-- parts above do not call; and the switches between tasks, which are machine code.
pub mod AtomString
pub mod AtomTable
pub mod Buffer
pub mod Codegen
pub mod Deque
pub mod HashFunc
pub mod HashTable
pub mod Image
pub mod Join
pub mod Klass
pub mod PkgNode
pub mod Prelude
pub mod Properties
pub mod Scheduler
pub mod StringBuf
pub mod StringEx
pub mod TypeDesc
pub mod Vector
