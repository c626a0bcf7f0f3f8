-- ===== src/Graphql.antt =====
-- transport/graphql: cursors and connections (cursor.go), with the child modules for base64 and for
-- filters (spec_filter.go). Strings are lists of bytes.
pub mod Base64
pub mod Cursor
pub mod Filter
