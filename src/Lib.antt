-- ===== src/Lib.antt =====
-- A model of the nlang tools, with the theorems that make its parts correct.
--
-- The program is an interpreter for a lattice language. The parser crate turns text into a tree,
-- behind two gates against deep input: one scans the bytes before the grammar runs, the other
-- walks the finished tree before anything recurses over it. The same crate classifies the right
-- side of a declaration by its tier, strips or marks source ranges before a tree is hashed or
-- stored, curries morphisms of several parameters, and prints and reads content addresses. The
-- interpreter crate labels values with effects and asks a grant of privileges which of them a
-- run may discharge, meters evaluations, turns an exhausted budget into an answer, merges such
-- answers, hashes expressions by their bytes, orders numbers and meets ranges of them, ranks the
-- members of order literals, has builtins on texts and integers, records savepoints, decides who
-- may refine, collects the objects of its store that HEAD does not reach, and keeps a table of the
-- peers it knows. The command line tool has a linter, which reads trees alone.
--
-- Parser.Ast: crates/parser/src/ast.rs, the tree, constructor for constructor. The variants of
--   `ExprKind` with two operands and no more are `binary` with a `BinaryOp`; a float is its 64
--   bits; the `Box`es are left out.
-- Parser.Spans: crates/parser/src/ast.rs, `strip_spans` and `mark_spans_unknown`. The two walks
--   agree arm by arm and are one walk here with the span to set.
-- Parser.Tier: crates/parser/src/tier.rs, whole.
-- Parser.Depth: crates/parser/src/lib.rs, `expr_exceeds_ast_depth`, `program_exceeds_ast_depth`,
--   their gates, and `drop_exprs_iteratively`. The worklists are lists whose head is the end of
--   the `Vec`. The fuel of a walk is the number of nodes; which is enough.
-- Parser.Nesting: crates/parser/src/lib.rs, `exceeds_parser_nesting_limit`: one function for the
--   body of the loop, and fuel for a round at each byte, which is enough since each round reads
--   at least one.
-- Parser.Params: crates/parser/src/lib.rs, `fold_multiparam`.
-- Parser.Address: crates/parser/src/lib.rs, `decode_digest_hex`, and crates/parser/src/ast.rs,
--   `encode_digest_hex`. A slice of a text inside a character is the outcome `panicked`.
-- Effects.Tag, Effects.Privilege: crates/interpreter/src/value.rs, `EffectTag` and `Privilege`.
-- Routing.Distance, Routing.Table: crates/interpreter/src/routing.rs, the distance between ids and
--   the table of known peers. Hexadecimal coding is an argument, as it is another crate's.
-- Horizon.Bottom, Horizon.Blur: crates/interpreter/src/value.rs, the causes of bottoms with their
--   durable names, and the details of a blur. Values and their hashes are of any type.
-- Horizon.Trace, Horizon.Observation: crates/interpreter/src/observation.rs, whole. The thread's
--   slot and the flags behind the shared pointers are a state that is passed along.
-- Canon.Leb, Canon.Atoms, Canon.Encode: crates/interpreter/src/bn_serial.rs, the identity bytes of
--   an expression. A function gives the bytes that its call appends; the walk's fuel is the number
--   of its tasks, which is enough. The bytes of a text and the parts of a float are arguments.
-- Horizon.RecordSet: crates/interpreter/src/value.rs, the records of a blur as a sorted set, its
--   content address and the merge of two. A record's digest is an argument, as a number.
-- Horizon.Meter: crates/interpreter/src/lib.rs, `check_resources`, `apply_horizon_config` and the
--   limits of `EvalContext::new`; crates/interpreter/src/eval.rs, `eval`, as a tree of the checks
--   that it makes. The clock, the fields of the configuration and the conversion of an integer to
--   64 bits are arguments. Two paths of crates/interpreter/src/lib.rs around these checks are left
--   out: `force_recursive` gives a cell fuel of its own and restores it, and
--   `force_recursive_metered` keeps the level of a reference that it returns unforced.
-- Gc.Mark, Gc.Sweep: crates/interpreter/src/gc.rs, the mark phase, the plan and the sweep. The
--   store, its codec and the savepoints are the record `Store`; a set is the list of its members,
--   and a collection reads one `Snapshot` for its plan and one for its second walk. A queue that
--   outlasts the fuel is `none`; one round for HEAD and for each link of an object is enough.
-- Savepoint.Frame, Savepoint.Circles, Savepoint.Ancestry: crates/interpreter/src/savepoint.rs, the
--   escaping of texts, `tips_of`, `record`, `record_commit` and `commit_is_ancestor`. The circles
--   are those that were loaded, a new one is an entry, and its name comes from the host. The walk
--   needs a round for each commit that it can meet and one more.
-- Lattice.Numbers, Lattice.Range: crates/interpreter/src/value.rs, `num_cmp`, and
--   crates/interpreter/src/unify.rs, the ranges. A finite float is its floor and the fraction above
--   it; the step test of floats, which their arithmetic rounds, is an argument.
-- Poset: crates/interpreter/src/eval.rs, `compute_ranks`. A map is the function of its lookups and
--   a set the list of its members. The loop over the queue runs on fuel; without cycles the rounds
--   that a height of the members bounds are enough, and on a cycle none are. That over the
--   equations has a round for each name in them and one more.
-- Nlint.Cliques: crates/oo/src/nlint.rs, `bron_kerbosch`. A set of indices is the list of its
--   members in their order; a level for each node and one more is enough.
-- Nlint.Context: crates/oo/src/nlint.rs, the part of `build_context_graph` from the incidence to
--   `omega`. The coordinates and the contexts come from a walk over the tree, which is left out.
-- Nlint.Components: crates/oo/src/nlint.rs, `count_components`. The marks are the list of the nodes
--   that are marked; a flood has fuel for its start and for each edge of each node, which is enough.
-- Nlint.Combinations: crates/oo/src/nlint.rs, `combinations`. The fuel is the number of all sets of
--   the items, which is enough.
-- Nlint.Repeated: crates/oo/src/nlint.rs, the rule R6 on repeated keys. Its table of occurrences
--   keeps the keys in the order of their first introduction, where the code's map has no order;
--   the texts of keys and paths are arguments.
-- Nlint.Sealed: crates/oo/src/nlint.rs, the rule R3, `check_r3`. A set of keys is the list of its
--   members; the texts of paths and of expressions are arguments.
-- Authority: crates/interpreter/src/authority.rs, `verify_refine_authority` and the check of a
--   signature. The crates `hex` and `ring` are arguments.
-- Builtins.Csv, Builtins.Url, Builtins.Math: crates/interpreter/src/builtins/csv.rs, url.rs and
--   math.rs. A text is the list of its code points. Arguments are forced and billed elsewhere; the
--   loops on integers have fuel for each value of what falls in them, which is enough.
--
-- Not modelled: the grammar and the building of the tree from it, which is pest's; the printer
-- and the canonical form; values and evaluation, of which the meter and the ranks are modelled, the
-- unification of anything but ranges, the builtins other than those on texts and integers, the
-- store and its codec, the reading and writing of the savepoints, the network, and the tools other
-- than the linter, of which the graph and the rules R3 and R6 are modelled. They rest on closures
-- and on thunks that are shared and forced in place, on the file system or on sockets.
pub mod Prelude
pub mod Parser
pub mod Effects
pub mod Routing
pub mod Horizon
pub mod Canon
pub mod Gc
pub mod Savepoint
pub mod Lattice
pub mod Nlint
pub mod Authority
pub mod Builtins
pub mod Poset
