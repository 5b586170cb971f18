-- ===== src/Lib.antt =====
-- goko: a cover tree library in Rust, with its point clouds, statistics, and servers.
--
-- A cover tree holds the points of a cloud (pointcloud) in nodes at scales. core_goko packs a scale
-- index and a point index into a 64-bit node address. The builder (goko/src/covertree) splits the
-- covered points of a node, level by level, into the nodes of its children and into singletons, and
-- writes the nodes into layers, each a map with one writer and many readers (goko/src/monomap).
-- Plugins keep label summaries (pointcloud/src/summaries) and discrete distributions over addresses
-- (stats_goko) at the nodes.
--
-- The modules, with the code that each models:
--   Common   the names, lists, integers, bits and results that the others share.
--   Address  core_goko/src/lib.rs: NodeAddress, its conversions in both directions, the derived order
--            and the conversions of slices. Bits are operations on numbers, with the wrap of the
--            shift written out. Words, RoundTrip, Order and Lists hold the theorems.
--   Monomap  goko/src/monomap: Defs has the two copies, the log, refresh, flush, drop and the reads
--            as functions on the handles, over an association list; Spec is one map with a published
--            copy, and Refine and Reads show that the handles implement it; Readers has the accesses
--            of the writer and of the readers as steps that interleave, and Safety their invariants.
--   Points   pointcloud/src/base_traits.rs: Float is an abstract type of distances, Cloud a point
--            cloud with its metric, and Distances the sequential and chunked `distances_to_point`;
--            Glued (glued_data_cloud.rs) is a cloud of several sources.
--   Cover    goko/src/covertree: Node (node.rs) has the insertions, Save the record of a node, and
--            Children and First the nearest and the first child that covers a point;
--            Caches (data_caches.rs) has the first-come caches and their splits; Build (builders.rs)
--            has `split` and `split_first`, and Tree `split_parallel`, with the spawned splits run in
--            place; Conserve and Placed show that no point is lost; Nearest (data_caches.rs) has the caches
--            of the nearest partition, whose centres cover the points and are apart.
--   Query    goko/src/covertree/query_tools: Heap is the heap of a search, Nearest and Pushes show that
--            it keeps the nearest points of those pushed; Pops and Bound are the pops and what pushes keep.
--   Tree     goko/src/covertree/tree.rs and layer.rs: Reader has the layers, the reads of a node and
--            the walks, Layers the layers of `build`, Levels the nodes below an address, Dangling
--            and Final what two of the walks do; Knn is the search for the nearest points with the
--            searches of a node (node.rs), and its children show that it is exact; Paths has the
--            path of a known point and of a query, which Known and Query show to go down from the
--            root.
--   Discrete stats_goko/src/discrete: Params is the store of counts (parameter_store.rs), Updates,
--            Runs and Refine show that it implements a map from addresses to counts; Merge is the
--            iterator over two stores, and Data the merge of two samples (data.rs).
--   Labels   pointcloud/src/summaries and the `SummaryCounter` of base_traits.rs: Category and
--            Vectors are summaries, Counter the counter over the interface that they fill.
--
-- Conventions. `usize` and `u64` are natural numbers; where a computation can leave 64 bits, the
-- wrap is written out. Floats are an abstract type with a comparison and the operations that the
-- code uses, and counts that the code stores as `f64` are whole numbers in the range where sums are
-- exact. The caches, the nodes and the searches read distances one after the other, as Points shows
-- that `distances_to_point` does up to dimension 300000; its panics at dimension 0 and above 300000
-- are modelled in Points alone. A result that may be an error or a panic is an `Option` or an
-- `Outcome`. The random generator is a parameter that draws in range.
--
-- Fuel. `split_loop` runs on the number of uncovered points, and each turn takes at least one of
-- them; `all_chunks` runs on the number of indexes, and each chunk is not empty; `collect` runs on
-- any number above the sum of the two lengths, and each turn takes an item; `split_all` runs on the
-- levels between a node and the least scale, and a child is at least one level below. The walks of
-- a tree run on the number of its nodes, which is finite because children are at lower scales;
-- `cover_thyself` runs on the number of points; a pop of the query heap runs on the number of
-- estimates. The theorems on them state that the result is there.
--
-- Not modelled: the float kernels of the metrics and the densities and divergences of the
-- distributions, memory-mapped files and loaders, the protobuf code that the build generates, the
-- plugins, and the bindings and servers, which pass calls on. Of the nearest partition,
-- `split_nearest` is not modelled.
pub mod Common
pub mod Address
pub mod Monomap
pub mod Cover
pub mod Points
pub mod Discrete
pub mod Labels
pub mod Query
pub mod Tree
