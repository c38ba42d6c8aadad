-- ===== src/Fs/Open.antt =====
-- `open` of src/fs.rs: `fopen path` says whether the C function `fopen` returns a handle.
use derusting.Prelude.{Bool, ◌&&◌, Bytes}
use derusting.Fs.Path.{prefix}
use derusting.Std.Slice.{starts_with}

-- `open(path, mode).is_ok()`
unfoldable pub open_ok : (Bytes → Bool) → Bytes → Bool
open_ok fopen path = starts_with prefix path && fopen path
