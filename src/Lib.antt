-- ===== src/Lib.antt =====
-- Verification of the C++ parts of luauc, a compiler from Luau to WebAssembly: the frontend, which turns
-- Luau sources into snapshots for the compiler, and the runtime, which the linked program calls.
--
-- The frontend prunes a closed package (frontend/package_liveness.h), compiles each source with Luau, and
-- writes a snapshot (frontend/frontend_adapter.cpp). The compiler emits metadata with the program, which
-- the runtime (runtime/src/call_frame.cpp) validates and publishes as protos and modules before module
-- code runs and requires other modules.
--
-- Prelude          Boolean tests, lists and words over native numbers.
-- Frontend/Wire    putU16, putU32, putU64, appendRecord, StringTable::intern, makeSections and
--                  buildWireImage. A byte vector is a list of numbers below 256.
-- Frontend/Protos  protoId and collectProtos. The walk runs on fuel, one unit for each level; the limit on
--                  the number of protos bounds its depth.
-- Frontend/Constants sameTableScalar, localScalarConstantId, serializeTableConstant and
--                  serializeVmConstant. The sort by key is an insertion sort.
-- Frontend/Imports decodeImportDescriptors. The loop runs on fuel, one unit for each code word, since
--                  every instruction it accepts has one word at least.
-- Frontend/Liveness package_liveness.h. Syntax is the view of the tree, State the state with unite, merge,
--                  observe, escape, field and store, Eval has eval and call, Exec assign and statement,
--                  Collect the collector, Rewrite the edits, Run the loop and the entry points. The
--                  evaluation is structural on the tree; the loop has the 256 iterations of the code.
--                  Maps are association lists or functions, and their order is that of insertion.
-- Runtime/Metadata validAotConstants, validAotProto, validAotModule, aotImportAux and the records of
--                  runtime/include/aot_runtime_v1.h. A pointer to an array is an optional function.
-- Runtime/Program  luauc_runtime_v1_push_program: valid_program is every test before the first effect,
--                  and name_protos, child_counts, allocate_loop and child_arrays are its loops. Build has the
--                  rest: initialize_loop and import_loop are what of initializeAotProto can raise, and
--                  closure_loop is materializeAotClosureConstants.
-- Runtime/Modules  luauc_runtime_v1_require_static and the module registry. The code of a module is a tree
--                  of requires, and running it nests on fuel. run_module is the code of a module with
--                  what luauc_runtime_v1_enter does at its end, which for the entry completes its record.
-- Runtime/Entry    luauc_runtime_v1_enter and pushEntryModuleRecord: how the record of the entry module
--                  is completed.
-- Runtime/Registers luauc_runtime_v1_return, _prep_varargs, _get_varargs_fixed, _get_varargs_multret and
--                  validateActiveAotEntry. The stack is a function from slots to values.
-- Runtime/Tables   the table helpers: activeAotRegister, activeAotValueOperand, activeAotTable and
--                  luauc_runtime_v1_table_insert_append, _table_set, _table_get, _table_set_number,
--                  _table_get_number, _table_array_set, _table_array_get, _array_set, _array_get,
--                  _table_len and _set_list, and _dup_table, _load_constant, _table_set_string,
--                  _table_get_string, _get_global, _set_global and _get_global_constant. Tables live in a heap, a function from places to tables.
-- Runtime/Fastcall luauc_runtime_v1_fastcall. plan_fastcall is the helper up to the call of the builtin.
-- Runtime/Closures findDirectAotChild, findAotClosureTemplate and luauc_runtime_v1_newclosure_empty,
--                  _newclosure_capture, _dupclosure, _dupclosure_capture, _get_upvalue, _set_upvalue and
--                  _close_upvalues. Capture is one capture, Sequence those of one closure.
-- Runtime/Strings  luauc_runtime_v1_slice_string, _sub_string, _find_string and _match_string. A number
--                  is seen by its value if it is whole and in the range of int.
-- Runtime/Frames   the word aotstate with luauc_runtime_v1_set_location and _exchange_continuation,
--                  validAotSuspension and its parts, activeAotFrameProto, rememberValidAotProto,
--                  luauc_runtime_v1_interrupt, _finish_yielded_op and
--                  luauc_runtime_v1_coverage_hit.
--
-- Parameters: Luau's parser, visitor order and instruction encoding, the allocator of rewritten sources,
-- isspace, the limit of a string's size, the constants of a proto, the code of modules,
-- the closing of upvalues and the growth of the stack, and the virtual machine's own operations on tables,
-- open upvalues and builtin functions.
--
-- Not modelled: the serialisation of protos and IR and the userdata hooks, which work on Luau's own
-- structures; the rest of the runtime's helpers, which mostly call the virtual machine; the garbage
-- collector's barriers and assists; the compiler in Zig; the hosts and the tools.
pub mod Prelude
pub mod Frontend
pub mod Runtime
