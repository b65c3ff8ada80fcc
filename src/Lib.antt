-- ===== src/Lib.antt =====
-- The Squirrel interpreter (Squirrel3/squirrel) that the GObject library squirrel_gobject wraps:
-- the containers on which its virtual machine, its compiler and its C API stand, the blob of its
-- standard library (Squirrel3/sqstdlib), the sort of its arrays, the closures of the wrapper
-- (src/vm.c), the lexer of its compiler, the state of its code generator with the optimiser, the
-- arithmetic, comparisons and instructions of its virtual machine, its string functions and the
-- compiler of its regular expressions, and the table of its strings.
--
-- Vector (Squirrel3/squirrel/squtils.h, `sqvector`): a block of memory as a list of cells, of
-- which the first `size` are constructed objects. `realloc`, `resize`, `push_back`, `pop_back`,
-- `insert`, `remove`, `copy` and `shrink_to_fit` are the methods of those names; Vector/Memory has
-- the cell lemmas, Vector/Laws and Vector/Shift what each method does to the contents.
--
-- Array (Squirrel3/squirrel/sqarray.h, `SQArray`; `TranslateIndex` and `SQArray::Extend` of
-- Squirrel3/squirrel/sqobject.cpp; the functions sq_array... of Squirrel3/squirrel/sqapi.cpp
-- behind their argument checks): methods over the vector. `Op` lists what a script can ask of an
-- array and `Reply` what it is told, errors included; `step` and `run` make the calls. Array/Spec
-- has the same calls on a plain sequence, and Array/Refine compares the two.
--
-- Table (Squirrel3/squirrel/sqtable.h, sqtable.cpp, `SQTable`): a hash table with its chains in
-- one array of nodes. A pointer to a node is its index. `new_slot` is `NewSlot`, `place` the part
-- of it that finds the node of the key and `settle` the correction of `firstfree`; `get`,
-- `set_value`, `remove`, `rehash`, `clear`, `next` and `create` are the methods. Table/Insert has
-- the invariant of the chains, Table/Valid that of the table; Table/Find, Update, Move, Place,
-- NewSlot and Displace follow the writes of an insertion, and Table/Stores and Table/Remove put
-- them together; Table/Iterate is about `Next`. What two keys need to be compared and hashed is
-- the record `Key`, an argument of the definitions.
--
-- Blob (Squirrel3/sqstdlib/sqstdblobimpl.h, `SQBlob`; `_set` and `_get` of sqstdblob.cpp): a
-- stream of bytes in memory. `write`, `read`, `seek`, `resize` and `grow_buf_of` are the methods
-- of those names; Blob/Memory has `memcpy`, Blob/Laws the methods that change the buffer,
-- Blob/Access those that read it or move the position.
--
-- Closure (src/vm.c, `squirrel_vm_new_closure` and `squirrel_exec_native_closure`; `sq_newclosure`
-- and the stack functions of Squirrel3/squirrel/sqapi.cpp; `Push`, `Pop`, `EnterFrame` and
-- `CallNative` of Squirrel3/squirrel/sqvm.cpp): how the wrapper registers a function with free
-- variables, and what that function sees when it is called. Closure/Laws follows the stack while a
-- closure is made, Closure/Frame the frame of a call, and Closure/Stack has `sq_settop` and
-- `Remove`.
--
-- Sort (`_hsort_sift_down`, `_hsort` and `array_sort` of Squirrel3/squirrel/sqbaselib.cpp): the
-- heap sort of an array. Its comparison is an argument that may fail, change the machine and
-- resize the array, which is found out where it is a function of the script.
--
-- Lexer (Squirrel3/squirrel/sqlexer.cpp, sqlexer.h, `SQLexer`; the tokens of sqcompiler.h): from
-- bytes to tokens. A cursor is what is left of the text with the counters of lines and columns; a
-- result is an answer or the error that `Error` raises. Lexer/Number has `ReadNumber` and
-- `ReadID`, Lexer/Literal `ReadString` and its escapes, Lexer/Scan the comments, the operators and
-- `Lex`. Lexer/Reads, Lexer/Parts and Lexer/Progress follow the cursor through them; Lexer/Decimal
-- is about the value of a number.
--
-- Strings (Squirrel3/sqstdlib/sqstdstring.cpp): `_string_escape`, `_string_strip`,
-- `_string_lstrip`, `_string_rstrip`, `_string_split`, `_string_startswith` and `_string_endswith`
-- behind the reads of their arguments. Strings/Escape and Strings/Quoted bring the escapes
-- together with the lexer; Strings/Strip, Pieces and Affixes are about the others.
--
-- Regex (Squirrel3/sqstdlib/sqstdrex.cpp): the compiler of a pattern. Nodes stand in an array and
-- are linked by their indices, as in the source; an index of -1 is none. Regex/Node has the array
-- and `sqstd_rex_newnode`, Regex/Elements what is read without a call of the compiler by itself,
-- and Regex/Compile `sqstd_rex_element`, `sqstd_rex_list` and `sqstd_rex_compile`; Regex/Match has
-- `sqstd_rex_matchcclass` and `sqstd_rex_matchclass`. Regex/Grows says what it means to append
-- complete nodes; Regex/Pending follows a node that waits for its operands, and Regex/Singles,
-- Links, Classes, Groups, Repetition and Built go through the parts of the compiler, and
-- Regex/Matching is about the classes of characters.
--
-- Func (Squirrel3/squirrel/sqfuncstate.cpp, sqfuncstate.h, `SQFuncState`; the instructions of
-- sqopcodes.h; the records of sqfuncproto.h): what the compiler of a function keeps while it emits
-- code. Func/State has the state, Func/Targets the stack of targets and the local variables, from
-- `AllocStackPos` to `SetStackSize`, and Func/Emit `AddInstruction`, with one function for each
-- case of its switch, `DiscardTarget` and `AddLineInfos`. A name is the identity of an interned
-- string, an instruction's `_arg1` its 32 bits. Func/Frame has the stack that the compiler may
-- rely on, and Func/Represents, Refine and Runs compare the two; Func/Bounds is about the
-- positions that are given out. Func/Fits says which two instructions the optimiser may join,
-- Func/Fused, Joined, Acts, Rules and Optimise what the joined one does on the machine of
-- Vm/Machine. Func/Outers has `GetOuterVariable`, over the list of a function and those around it;
-- Func/Scopes, Names and Capture are about where its variables come from.
--
-- Vm (Squirrel3/squirrel/sqvm.cpp; the types of Squirrel3/include/squirrel.h): Vm/Machine has the
-- loop of `SQVM::Execute` for the instructions that stay in their frame, over registers and an
-- abstract heap; what is behind them is the record `Ops`. Vm/Value, Arith and Compare have
-- `BW_OP`, `ARITH_OP`, `_ARITH_NOZERO`, `NEG_OP`, `ObjCmp`, `CMP_OP`, `IsEqual` and `IsFalse`, and
-- Vm/Execute fills `Ops` with them; accesses and metamethods stay arguments there, and so does the
-- arithmetic of floats, which is the processor's. An SQInteger is its 64 bits, and what C++ leaves
-- undefined is an error of its own; sums and products that overflow wrap. Vm/Same says when two
-- pieces of code act alike, Vm/Division and Vm/Order are about the integers and the order of
-- values.
--
-- Intern (Squirrel3/squirrel/sqstate.cpp, sqstate.h, `SQStringTable`; `_hashstr` of sqstring.h):
-- the table that makes equal strings one. A chain of a slot is a list, a string carries its
-- address. Intern/Strings has `Add`, `Remove` and `Resize`, Intern/Lookup the chains in order,
-- Intern/Rehash the loops of `Resize`, Intern/Laws and Intern/Remove what the table has for some
-- bytes afterwards.
--
-- Bounds and fuel. Sizes and indices count objects in memory and are natural numbers; an SQInteger
-- that comes from a script is an integer, and a size that is decremented wraps at 64 bits. The
-- walk along a chain in `_Get` runs on as much fuel as there are nodes, since the chain of a table
-- in order meets no node twice. The doubling in the constructor runs on the size asked for, since
-- every round adds at least one to the size. `new_slot` carries the depth to which it may call
-- itself through `Rehash`; where it does not rehash, depth one is enough. A walk down the heap
-- runs on two more rounds than the last index: each round goes to a node with a larger index. The
-- walk along a class runs on as many rounds as there are nodes, since each link is a later node.
-- The hash of a string takes one round more than there are characters, since each round passes one
-- at least. The loops of the lexer and the loop over a class of characters run on one more round
-- than there are characters left, since each takes one at least; the compiler of patterns runs on
-- two for each character and two more, since a list of elements begins with an element that may
-- begin with a list only behind a bracket.
--
-- Not modelled: reference counts and destructors of the objects, the chain of the garbage
-- collector, the delegate of a table, `GetStr` and `Clone`; `scstrtod`, which reads the text of a
-- float; the matcher of regular expressions but for its classes; the parser of the compiler, the
-- literals of a function and its prototype; in the virtual machine the calls, generators and
-- traps, the accesses and the metamethods, and registers that a closure shares; the rest of the
-- standard library and the rest of the wrapper (src/vm.c).
--
-- Left out of Array and Table: a negative number as the position to go on from in an iteration,
-- and sizes so large that their bytes wrap around; the sizes that a script asks for are taken for
-- ones whose bytes do not wrap.
pub mod Prelude
pub mod Vector
pub mod Array
pub mod Table
pub mod Blob
pub mod Closure
pub mod Sort
pub mod Lexer
pub mod Strings
pub mod Regex
pub mod Func
pub mod Vm
pub mod Intern
