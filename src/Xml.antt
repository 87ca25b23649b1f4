-- ===== src/Xml.antt =====
-- The nodes that DBGp replies are made of: src/lib/xml.c, with xdebug_xmlize of src/lib/var.c. The
-- code's pointer to a node, with its first child and its next sibling, is a binary tree.
pub mod Encode
pub mod Build
pub mod Reader
pub mod Strings
pub mod Built
