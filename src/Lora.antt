-- ===== src/Lora.antt =====
-- src/olora_route.c: which LoRA files a prompt or an edit task is routed to, by the operator's JSON.
-- The routing of a prompt is modelled without an embedding model loaded (OMNISERVE_NATIVE_LORA_EMBED_DIR
-- not set): only the keywords count. A C string ends before its first NUL. `strtod`, `isfinite`, the
-- cast to `float`, NAN and `access` are parameters; characters are classed as in the C locale. Reading
-- the file and the environment is I/O.

pub mod Text
pub mod Pick
pub mod Match
pub mod Safe
pub mod Select
mod Tests
