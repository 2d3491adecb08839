-- ===== src/Lib.antt =====
-- A verification library for hvax, a self-hosted gallery of faces: pictures come in, the faces on
-- them are found and embedded, faces of one person are gathered into identities, and a query
-- returns the nearest faces.
--
-- The parts and the files that model them. A path is one from the repository's root.
--   * Hex: include/hvax/util/hex.hpp, digests and hashes as text. A text is the list of its
--     character codes.
--   * SlotFile: include/hvax/util/mmap_slots.hpp, the append-only files of fixed-size records.
--     State is the header, the size of the map, count, capacity and the records; `open_slots` is
--     `open` on the bytes of the disk, and its exceptions are values. SlotFile.View says which
--     table such a file stands for; the gallery is modelled over tables (Prelude.Cells).
--   * Floats, Vectors: `float` and `double` are a parameter, a record of operations without laws.
--     The embeddings and their quantiser are src/embed/arcface.cpp and src/index/exact_scan.cpp.
--   * Types: include/hvax/types.hpp, the records and the flag words. A view has what its slot has
--     and is stood for by it.
--   * Hnsw: src/index/hnsw_index.cpp over usearch, which is a parameter (`Usearch`) with three laws
--     on the keys that it holds. What it finds is not assumed, so that the theorems on search hold
--     for whatever it answers.
--   * Scan: the exact scan of src/index/exact_scan.cpp.
--   * Gallery: src/store/gallery.cpp and src/store/identity.cpp. `Gallery.State` has the fields of
--     the class; `Gallery.Identities`, `Gallery.Faces`, `Gallery.Images`, `Gallery.Upgrade`,
--     `Gallery.Curation`, `Gallery.Search`, `Gallery.Dedup`, `Gallery.Reads`, `Gallery.Counts`,
--     `Gallery.Load`, `Gallery.Queries`, `Gallery.Shared`, `Gallery.Labels`, `Gallery.Recluster`
--     and `Gallery.Impostor` have its operations under the names of the source, without `_locked`.
--     An operation takes the state and returns it; each that changes it holds the exclusive lock of
--     the gallery, so `Gallery.Reach` has the calls as steps. The clock is an argument `now`; where
--     the source reads the clock again within a call, it is the same instant here.
--     `Gallery.Invariant` and `Gallery.Shelf` say what holds between two calls, `Gallery.Load`
--     starts a gallery on the files of another, and `Gallery.Recluster` computes the labels that
--     `Gallery.Labels` writes.
--   * Cluster: src/identity/cluster.cpp and include/hvax/identity/cluster.hpp, the graph and the
--     union-find that batch clustering uses. The loop of `find` runs on fuel, one more than the
--     index it starts at: parents are not above their children, so that is enough.
--   * Processed: src/processed.cpp, faces that a client has computed, as JSON. A JSON value is a
--     tree over the numbers of the library (`JsonLib`), which is a parameter with the laws that a
--     number made of a float or of an integer is read as it; the messages are the constructors of
--     `ParseError` and `ValidateError`.
--   * Engine: the ingest functions of src/engine.cpp, over the gallery. Decoding, digests,
--     perceptual hashes and the face pipeline (OpenCV, ONNX Runtime) are inputs: a `Picture` and a
--     list of faces, or the record `Media`.
--   * Examples: a concrete arithmetic, a concrete index and a small gallery for the tests.
--
-- A function that the source writes in one piece is split where it branches, so that each test
-- stands in a definition of its own; the parts are named for what they do and called in the order
-- of the source. `Prelude` has the names that the modules share: tables, lists on native numbers,
-- the signed integers, the sort of std::sort with std::unique.
--
-- Numbers: counts and rows are natural numbers, and the casts to 32 bits are written out (`u32`).
-- The gallery's rows are 32-bit numbers in the source's lists, so that a theorem that adds faces
-- asks for room below 2^32 rows. The loop of `widen` runs on fuel, one more than the largest pool;
-- each round makes the pool larger, so that is enough. The random draws of impostor_eval run on fuel
-- without such a bound, since their loop need not end. All other loops but that of `find` are
-- recursions on a list or a count. A read outside a table is undefined in the source and reads some
-- cell here; the theorems speak of rows inside. Sorting is an insertion sort; the order of equal
-- keys, which std::sort leaves open, is that of the list.
--
-- Not modelled: the HTTP server and its keys, the client, the command line, the vendored libraries,
-- the work on pixels (decoding, detection, alignment, hashes), the statistics of impostor_eval, and
-- errors of the file system. Nothing is said of two calls that interleave: the source's locks make
-- them follow each other. A run of batch clustering is one step here, though the source lets other
-- calls in while it works; its writes are the step of `Gallery.Labels`, for whatever labels.
pub mod Prelude
pub mod Hex
pub mod SlotFile
pub mod Floats
pub mod Types
pub mod Vectors
pub mod Hnsw
pub mod Scan
pub mod Gallery
pub mod Cluster
pub mod Processed
pub mod Engine
pub mod Examples
