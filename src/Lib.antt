-- ===== src/Lib.antt =====
-- Verification of the ToyC compiler: a compiler from a small C with one type of 32-bit integers to
-- RISC-V assembly, in C++ under src/.
--
-- src/main.cpp runs the phases one after the other: the lexer and the parser make the syntax tree
-- (src/ast/AST.h); Sema (src/sema) resolves names, marks constant expressions and rejects what is
-- wrong; IRGen (src/ir) makes blocks of three-address instructions on virtual registers; the passes of
-- src/opt change these; one of two back ends in src/codegen prints assembly.
--
-- Reading is the outcome of a phase that reads its input from left to right: a value, an exception at a
-- line and a column, a read behind the input, or the end of the fuel. Lexer models src/lexer: the bytes of
-- the source are characters, and the bytes from `pos_` on are kept in place of `pos_`, with the line and
-- the column. The loops of `skipTrivia` and `tokenize` run on a unit of fuel more than there are bytes.
--
-- Parser models src/parser, with the tokens from `pos_` on as its state. Parser.State has the operations
-- on the tokens, Parser.Expr the expressions, Parser.Stmt and Parser.Program the rest. The functions from
-- `parseMul` to `parseLOr` are the levels 1 to 6 of one function, and each call takes a unit of fuel, of
-- which `parse_module` has 24 a token and 24 more. Parser.Printer describes expressions on its own, as
-- terms with the tokens that they are written with, and Parser.Printer.Levels is how a level reads on
-- from the one below.
--
-- Ast models src/ast/AST.h. A `Symbol*` is an index into the symbols that the analysis has created, as
-- its writes are seen through every pointer; the tree is rebuilt where the source annotates it in place.
-- Word: `int32_t` and `uint32_t` are the same bit patterns, natural numbers below 2 ^ 32, with signed
-- operations by the sign bit.
--
-- Sema models src/sema. Sema.Scope has the state and `declare`, `lookup`, `pushScope`, `popScope`, with
-- an exception as an error value; Sema.Eval has `evalBin` and `evalUn`; Sema.Expr, Sema.Stmt and
-- Sema.Program have `analyzeExpr`, `analyzeStmt`, `analyzeFunc` and `analyze`.
--
-- Driver puts the lexer, the parser and the analysis together as src/main.cpp does.
--
-- Ir models src/ir/IR.h and `computeCFG`. Ir.Meaning gives the representation a meaning of its own: a
-- store of registers and globals, blocks that run on fuel, callees as a parameter. A run is `none`
-- where it divides by zero, reads a number that is -1 in the source, or needs more fuel. A theorem on
-- runs holds at every fuel, so it is about every run that ends.
--
-- IrGen models src/ir/IRGen.cpp over explicit state: IrGen.State the block under way (`emit`, `termJmp`
-- and so on), IrGen.Expr `genExpr` and `genCond`, IrGen.Stmt `genStmt`, IrGen.Program `genFunc` and
-- `generate`. A null pointer or an index out of range is `none`.
--
-- Opt models parts of src/opt/Passes.cpp: ConstFold, Dce, JumpThreading, Propagate (copyProp and
-- constProp), Cse (cse, which copies a value that the block has computed before), Peephole, Unreachable,
-- MarkUnsigned (markUnsignedDiv) and Magic (signedMagic and unsignedMagic, also in
-- src/codegen/OptCodeGen.cpp). The map of cse from keys to registers is an association list. The
-- arithmetic of constFold is that of the compiler itself, and signed overflow there is `undefined`, which
-- makes the pass `none`. The loop of deadCodeElim runs on the number of instructions plus one as fuel,
-- which is enough, since a round that goes on removes one; the search of unreachableElim runs on the
-- number of blocks, since it takes each block from its stack at most once. The loop of markUnsignedDiv
-- has a round for each register and one more, since a round that goes on flags one. The loop of
-- unsignedMagic has the 33 rounds of the source; that of signedMagic runs on 33 rounds of fuel, which no
-- theorem depends on.
--
-- Opt.RegAlloc models src/opt/RegAlloc.cpp: Liveness the flags at the ends of the blocks, Graph which
-- registers interfere, Colour the choice of registers and slots. `std::sort` is a parameter, of which the
-- theorems ask that it permutes its list. A vector or a set of virtual registers is a function to flags;
-- the numbers in a function are taken to be below its `numVregs`, as the vectors of the source have this
-- length. The loop of the liveness runs on two units of fuel for each block and register and one more,
-- since a round that goes on sets a flag.
--
-- Rv has the registers of src/codegen/Regs.h and the instructions as data; Rv.Machine is what the
-- straight-line ones do by the RISC-V manual, with the linker as a parameter that obeys %hi + %lo =
-- address, and a memory of words that are read and written at the multiples of 4 only; Rv.Exit is where
-- code with branches leaves to. Codegen.Naive models class NaiveCodeGen of src/codegen/CodeGen.cpp, which
-- prints a list of lines; here it returns them.
--
-- Codegen.Optimised models class OptCodeGen of src/codegen/OptCodeGen.cpp over an allocation as
-- Opt.RegAlloc gives it: Access reads and writes the place of a virtual register, Constant has the
-- products, quotients and remainders by a constant, Inst the instructions and calls, Block a block with
-- its terminator and the comparison or division that these take in, Func the prologue, the epilogue and
-- the function. `curMagicVreg_` and `dstOverride_`, which the source sets around a call, are arguments
-- of the call, and what the environment variable TOYC_NAIVE says is one. A search for a magic number
-- that divides by 0 is `none`. Frame, Holds and Computed say what a machine holds and what code leaves
-- as it was; Write, Alu, Operate, Binary and Step carry this through the operations, Refinement and
-- Correct through a block by the sets of Allocated, and Compare and Branch through a branch.
--
-- Not modelled: of src/opt, the inlining, the motion of code out of loops, and the order of the passes;
-- of src/main.cpp, the option, the input and the output, and the phases behind the analysis, which meet
-- in the passes that are left out.
pub mod Prelude
pub mod Word
pub mod Ast
pub mod Reading
pub mod Lexer
pub mod Parser
pub mod Sema
pub mod Driver
pub mod Ir
pub mod IrGen
pub mod Opt
pub mod Rv
pub mod Codegen
pub mod Tests
