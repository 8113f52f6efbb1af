-- ===== src/Lib.antt =====
-- Verification of Cairo Native, the compiler from Sierra to native code by way of MLIR.
--
-- The program. `src/compiler.rs` walks a Sierra program and asks, for each statement, the library
-- function's builder in `src/libfuncs/` to emit MLIR code; `src/types.rs` says how a Sierra type
-- is laid out, `src/utils/range_ext.rs` how wide an integer of a range is. A builder reads the
-- types of the call from the program registry, fails with an error of `src/error.rs` or emits
-- operations that work on bit patterns and at the end jump to a branch of the statement with its
-- results. Next to the compiler, `debug_utils/sierra-emu` interprets the same Sierra programs on
-- values; it is the description that the compiled code is compared with.
--
-- The development.
--   Prelude            the shared names, Boolean tests (Prelude/Tests) and integers of any size
--                      (Prelude/Int), which stand for num-bigint's BigInt
--   Num                the length of a number in bits, words as residues modulo 2 ^ w
--   Error              src/error.rs: Error, Result, native_assert!
--   Mlir               the operations of MLIR that emitted code runs
--   Utils              src/utils/range_ext.rs: RangeExt, its widths and its encoding into bytes;
--                      src/utils.rs: BuiltinCosts, the prices of tokens
--   Metadata           src/metadata/gas.rs: Gas (the costs of statements and functions), Gas/Laws
--                      (they can be paid), Gas/Wallets (calculate_statement_wallets) and
--                      Gas/Flows (the wallets agree along every branch)
--   Types              src/types.rs: the concrete types, integer_range, is_bounded_int; in
--                      Types/Layout the layouts of all types (layout, is_zst,
--                      is_memory_allocated, src/types/circuit.rs, get_layout_for_variants of
--                      src/types/enum.rs, the layout functions of src/utils.rs)
--   Sierra             what a call is told: the library functions and their types
--   Libfuncs           src/libfuncs.rs and src/libfuncs/: Counter (the counters of the builtins),
--                      BoundedInt (bounded_int.rs), Int (int.rs), Felt252 (felt252.rs), Cast
--                      (cast.rs), Gas (gas.rs: Build has the builders, Cost what a statement
--                      costs, Laws what the gas counter does), Bool (bool.rs)
--   Runtime            src/runtime.rs: the dictionary of felts (Dict: the hash map and the buffer of
--                      elements, each with its size), its keys (DictKeys), as a map (DictMap)
--   Starknet           Info and Syscall: the data of cairo-starknet-syscalls/src/lib.rs, and system
--                      calls as computations on a handler and its gas; Stub: the handler of
--                      src/starknet_stub.rs, with Storage (storage, logs, execution information),
--                      Contracts and Calls (classes, deployments, calls), Crypto (hashes and
--                      curves) and Cheatcode; Stub/Replay is the abstract chain, Stub/Follows
--                      and Stub/Runs compare the handler with it, Stub/Context is on calls;
--                      Result: what an entry point returns
--   ExecutionResult    src/execution_result.rs, and Value of src/values.rs
--   Emu                debug_utils/sierra-emu/src: value.rs, utils.rs, vm/bounded_int.rs,
--                      vm/int.rs, vm/cast.rs, vm/array.rs (Array), vm/enum.rs, vm/struct.rs and
--                      vm/nullable.rs (Compound), vm/felt252_dict.rs and vm/felt252_dict_entry.rs
--                      (Dict), vm/bool.rs, vm/felt252.rs, gas.rs and vm/gas.rs (Gas),
--                      vm/circuit.rs (Circuit: Gates has the loop over the gates, Reduced and
--                      Limbs what holds of outputs and limbs), the result of a contract in
--                      dump.rs (Dump), and the machine of vm.rs (Vm): Vm/Frames has what holds of
--                      its frames, Vm/Run its loops, Vm/Ends when they end, Vm/Results what
--                      comes of it
--   Refine             the compiled code against the interpreter: BoundedInt, Int (unsigned types),
--                      Sint (signed types), Felt252, Cast, Bool, Gas; the runtime's dictionary:
--                      Dict
--
-- How code is modelled. A builder is the function of the source's name. It runs when a program is
-- compiled, and its code when the program runs; the model takes both steps at once, so it returns
-- the builder's error or the branch with the bit patterns that are handed on (`Jump`). The types
-- that a builder takes from the signature of its call are its first arguments, in the order of
-- the parameters and then of the branches. A bit pattern of width w is a number below 2 ^ w. An
-- `if` of the emitted code (cond_br, select, scf.if) is an `if` of the model; what both of its
-- sides emit is emitted either way, and its errors come first. `if` in the builder is an `if` of
-- the model likewise. A handler of the interpreter is a function into Option, where none is a
-- panic.
--   stored t r a       the pattern of an integer in a type: its distance from the lower bound
--                      of a `BoundedInt`, its residue modulo 2 ^ w in a plain type
--   Encodes t v p      the pattern p stands for the interpreter's value v in the type t
--   Agree b e j        the interpreter's result e and the jump j take the same branch i, with
--                      results that encode one another in the types b i
--
-- Parameters. MLIR and LLVM are not part of the repository: `Mlir` is a record of their
-- operations, `IsMlir` states what their documentation does, and `Mlir.Wrapping` is an instance.
-- Sierra's `BoundedIntDivRemAlgorithm::try_new` is an argument of the division. The runtime's
-- integer square root and its multiplication and division of felts are arguments of their
-- builders. The registry of Sierra's types is replaced
-- by the types themselves, as trees, and the test that two types have the same id is an argument of
-- the interpreter's handlers. The interpreter's machine takes the program, Sierra's operations on
-- the maps of variables and the handlers as a record; its loops run on fuel. When the statements
-- of a program have bounds on the steps to the return of their function, any fuel above the bound of
-- the first one is enough; a program can loop without end, so there is no fuel for all of them. The
-- test of UTF-8 on the message of a failure is an argument. `Layout` is that of Rust's standard library, for 64 bits, with an
-- alignment given as an exponent of two. A width is a number without bound: the `as u32` on the
-- length of a range, which needs a range of 2 ^ (2 ^ 32) integers to cut anything off, is left
-- out. `bits` counts by recursion on a fuel that is the number itself, which is enough since a
-- number has at most as many bits as its value. The bounds 2 ^ 64 on counters are those of their
-- machine words.
--
-- A handler of system calls takes the state of the chain and the gas, and gives both back with a
-- result or the felts of an error; none is a stop of the process. Its hash maps are functions from
-- their keys. The executor of compiled code, the hash of Pedersen, the permutation of Keccak, the
-- compression functions of SHA-2 and the arithmetic of the curves are its arguments, and so is the
-- price of an entry point. The solution of the gas equations, the list of token kinds, the cost of a
-- library function and the update of a wallet are arguments of the gas metadata. The memory behind
-- the pointer to the prices is a function. Gas counts in words of 64 bits, with the wrap-around of
-- a release build written out. An error of the compiler that stands for a panic is `panic`.
--
-- Not modelled. Building MLIR modules and calling compiled code (compiler, executors, caches,
-- bindings), the runtime's hashes and curves (third-party code), input and output, and, so far,
-- the builders of the library functions on arrays, enumerations, dictionaries, circuits, wide
-- integers and system calls, and the interpreter's handlers for wide integers, hashes and system
-- calls.
pub mod Prelude
pub mod Num
pub mod Error
pub mod Mlir
pub mod Utils
pub mod Metadata
pub mod Types
pub mod Sierra
pub mod Libfuncs
pub mod Runtime
pub mod Starknet
pub mod ExecutionResult
pub mod Emu
pub mod Refine
