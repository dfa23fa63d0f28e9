-- ===== src/Interface.antt =====
-- The types of lib.rs that the client and the server share.
pub data ErrorKind : Type 0 where
  timeout capacity parameter : ErrorKind
