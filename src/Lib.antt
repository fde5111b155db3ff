-- ===== src/Lib.antt =====
-- A verification library for aws_explorer, a command-line and terminal explorer of AWS accounts.
--
-- The program collects resources through the AWS SDK, and then answers questions about what it has
-- collected by pure functions over plain records. This library models those functions: definitions
-- are translated clause by clause from the Go source, strings are lists of code points, maps are
-- association lists, pointers that may be nil are `Option`, and a function that returns several
-- values returns a tuple.
--
-- Parts and files:
-- - `Go`: what the source uses of Go's standard library (`strings`, `strconv`, `net`), by the
--   documented algorithms, the order of strings, and the lexicographic order by several of them. Case functions act on ASCII letters.
-- - `Vpc`: internal/vpctui, the connectivity tracer. `Vpc.Types` has the records of vpc.go and the
--   snapshot of findings.go; `Vpc.Match` the protocol, port and CIDR matchers; `Vpc.Explain`
--   sgexplain.go; `Vpc.Lookup`, `Vpc.Groups`, `Vpc.Nacl`, `Vpc.Route` and `Vpc.Trace` the sections of
--   pathtrace.go. `tracePath` is a chain of steps, each of which adds hops or ends the trace, as its
--   early returns do. Ports are `int` of 64 bits and the port parser wraps around as Go's does.
--   `Vpc.Findings` is the linter of findings.go, a child per kind of resource; `Vpc.Effective`,
--   `Vpc.CrossReference`, `Vpc.Exposure`, `Vpc.SnapshotDiff` and `Vpc.NaclExplain` are effrules.go,
--   xref.go, exposure.go, snapshotdiff.go and naclexplain.go. They use the lookups and matchers of the
--   tracer, as the code does. Sets of strings are lists with a membership test.
-- - `Xref`: internal/xref, xref.go and related.go. `Xref.Ident` and `Xref.Kinds` have the identifier
--   helpers and the classification, `Xref.Index` both indexes and `WhereUsed`, `Xref.Walk` the walks of
--   `Related`. The two walks are one loop over a function from an identifier to its hops; the depth
--   bounds the rounds, as in the source, so no other fuel is needed. `Xref.Scan` is
--   scanprofiles.go and `Xref.Advice` has the ambiguous identifiers and the risk of a deletion, risk.go.
-- - `Inventory`: internal/acctsnap, the diff of two account snapshots, and the deduplication of
--   internal/summary, which `Inventory.Dedupe.Merge` restates without its map from ARNs to places.
--   `Go.Map` has the maps with string keys that both are built on; the source ranges over them only to
--   collect keys that it then sorts.
-- - `Fuzzy`: internal/fuzzy, the scores of the resource finder and their ranking. Scores are integers of
--   any size, which the weights keep far from the bounds of an `int`, and texts stand for their bytes.
-- - `Arn`: internal/awsutil, arn.go.
-- - `Triage`: internal/ecstriage, triage.go. Times are ticks since the zero time.
-- - `Security`: internal/findings, the checks of security.go and the gate of finding.go. A policy is
--   decoded by encoding/json, which is a record of functions, `Security.Policy.Json`; times are
--   nanoseconds. A Go map that is ranged over and then sorted is a list.
--
-- Not modelled: the calls of the AWS SDK that collect the data, the terminal screens (bubbletea), the
-- command-line flags, file and network access, and the rendering of tables.
pub mod Prelude
pub mod Go
pub mod Vpc
pub mod Xref
pub mod Inventory
pub mod Security
pub mod Triage
pub mod Arn
pub mod Fuzzy
