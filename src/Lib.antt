-- ===== src/Lib.antt =====
-- pg_eddy stores a labelled property graph in PostgreSQL. These modules model the storage layer of
-- pg_eddy/src/storage and the lexer of pg_eddy/src/cypher.
--
-- The parts and how they interact. Nodes and edges are items in pages of two relations. A node page
-- keeps, behind its items, a 24 byte adjacency header for each node, which points to the first edge
-- of the node's outgoing and incoming chains; the edges are linked through their records. Property
-- values are encoded to bytes and stored in the items. Each change of the graph is also written to
-- the WAL as a logical message that holds one mutation, and the output plugin turns the messages of
-- a committed transaction into a stream of frames, which uses the same codec. The page changes have
-- WAL records of their own, which crash recovery redoes. Vacuum frees the items of deleted nodes and
-- their adjacency headers. A query comes in as Cypher text, which the lexer turns into tokens.
--
-- The files:
--   Common      booleans, lists, results, bytes, machine integers, UTF-8, positions in a slice
--   Json        serde_json's values; the library's calls are the records SerdeJson and JsonLib
--   Cdc         cdc_protocol.rs: Encode, Reader and Decode have a function for each of the file's;
--               a `&mut Vec<u8>` is passed in and returned, `?` is `>>=`
--   OutputPlugin  wal_decode.rs: a callback takes the transaction and the output so far and
--               returns both or the error that it raises
--   Props       prop_store.rs: the encoder, Decode for decode_value, Scan for the loops and
--               skip_value
--   Page        page.rs: NodeAdjHeader as its 24 bytes
--   Edges       edge_store.rs: records, Scan for the readers, Follow for the traversals, Store for
--               insert_edge, Update for delete_edge and update_edge_props; a page is a function
--               from line pointer numbers
--   Nodes       node_store.rs: Record for the bytes of a node, Scan for the readers and the scan,
--               Locate for find_node_location, Store for insert_node, delete_node_by_id and
--               update_node; a page has its items, the raw bytes of an overflow block and its
--               special area
--   Vacuum      vacuum.rs: vacuum_relation, with the loop over a page's items and the reclaiming
--   Wal         wal.rs: the bytes of each record, and rmgr_redo with what recovery says of the block
--   Lexer       cypher/lexer.rs: Strings, Numbers, Keywords, Step for a round of the loop of `lex`,
--               Scan for the loop; a query is its bytes
-- An operation on a store appends to its log what it would write to the WAL. The files Tests and
-- InsertTests have concrete runs.
--
-- Numbers. Integers are naturals or the integers of Common/Int; where Rust truncates or wraps, the
-- modulus is written out. A float is its 64 bits.
--
-- Fuel. decode_value and skip_value call themselves on nested values, at positions that grow by
-- five bytes at least, so fuel for the bytes left is enough. The stack is taken to be as deep as
-- that. The loops of decode and decode_selected take the number of bytes plus one. follow_chain
-- takes the number of places of the chain plus one; on a cyclic chain the program does not end.
-- The lexer's loops take the number of bytes that are left, which each round makes smaller.
--
-- Parameters. serde_json, whether the allocator grants what Vec::with_capacity asks for, the
-- property key registry, PostgreSQL's page functions, its transaction status,
-- TransactionIdPrecedes and the test of a snapshot, the cache of node locations, and the reading
-- of a float. The edge store takes the search for a node as a parameter, which Nodes models.
--
-- Not modelled: buffer pins and the locks of edge pages, LSNs, what other backends do between the two
-- locks of a page in vacuum, a read of a block that the relation does not have, the registration and
-- description of WAL records, the second block of an insert's record, which is an image that
-- PostgreSQL restores, the catalog, the Cypher parser, planner and executor, and the SQL
-- functions, of which much is a call of PostgreSQL.
pub mod Common
pub mod Json
pub mod Cdc
pub mod OutputPlugin
pub mod Props
pub mod Page
pub mod Edges
pub mod Nodes
pub mod Vacuum
pub mod Wal
pub mod Lexer
