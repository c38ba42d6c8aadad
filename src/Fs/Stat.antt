-- ===== src/Fs/Stat.antt =====
-- `stat` of src/fs.rs. `f_stat` is FatFs' function, the path given without its closing nul byte; an
-- error is never `FResult::Ok`.
use derusting.Prelude.{
  ℕ, ◌≤◌, ◌≡◌, refl, Bool, true, false, Option, none, some, ◌++◌, [], length, length-append, drop,
  elem, elem-append, if◌then◌else◌, arith, Bytes, codes,
}
use derusting.Prelude.Result.{Result, ok, err, ◌>>=◌}
use derusting.Kinds.{Uuid}
use derusting.Std.Slice.{starts_with}
use derusting.Heapless.Texts.{Texts}
use derusting.Fs.Path.{prefix, extension, path_text, IsHyphenated}

pub record FilInfo : Type 0 where
  pub fsize : ℕ
  pub fdate : ℕ
  pub ftime : ℕ
  pub fattrib : ℕ
  pub altname : Bytes
  pub fname : Bytes

-- `FResult` but for `Ok`.
pub data FResult : Type 0 where
  disk_err int_err not_ready no_file no_path invalid_name denied exist invalid_object : FResult
  write_protected invalid_drive not_enabled no_filesystem mkfs_aborted timeout locked : FResult
  not_enough_core too_many_open_files invalid_parameter : FResult

abbrev pub or_invalid_name : Option Bytes → Result Bytes FResult
or_invalid_name none = err invalid_name
or_invalid_name (some text) = ok text

-- The path of FatFs for a path below "/usb".
unfoldable pub native_path : Texts → Bytes → Result Bytes FResult
native_path texts path = do
  drive ← or_invalid_name (texts.extend 64 [] (codes "0:"))
  or_invalid_name (texts.extend 64 drive (drop 4 path))

unfoldable pub stat : Texts → (Bytes → Result FilInfo FResult) → Bytes → Result FilInfo FResult
stat texts f_stat path =
    if starts_with prefix path then native_path texts path >>= f_stat else err invalid_name

-- `Display` of `FResult`.
unfoldable pub show_error : FResult → Bytes
show_error FResult.disk_err = codes "A hard error occurred in the low level disk I/O layer"
show_error FResult.int_err = codes "Assertion failed (internal FatFs error)"
show_error FResult.not_ready = codes "The physical drive cannot work"
show_error FResult.no_file = codes "Could not find the file"
show_error FResult.no_path = codes "Could not find the path"
show_error FResult.invalid_name = codes "The path name format is invalid"
show_error FResult.denied = codes "Access denied due to prohibited access or directory full"
show_error FResult.exist = codes "Access denied due to prohibited access"
show_error FResult.invalid_object = codes "The file/directory object is invalid"
show_error FResult.write_protected = codes "The physical drive is write protected"
show_error FResult.invalid_drive = codes "The logical drive number is invalid"
show_error FResult.not_enabled = codes "The volume has no work area"
show_error FResult.no_filesystem = codes "There is no valid FAT volume"
show_error FResult.mkfs_aborted = codes "The f_mkfs() aborted due to any problem"
show_error FResult.timeout =
    codes "Could not get a grant to access the volume within defined period"
show_error FResult.locked = codes "The operation is rejected according to the file sharing policy"
show_error FResult.not_enough_core = codes "LFN working buffer could not be allocated"
show_error FResult.too_many_open_files = codes "Number of open files > FF_FS_LOCK"
show_error FResult.invalid_parameter = codes "Given parameter is invalid"

length-drop_path :
    (show : Uuid → Bytes) (guid : Uuid) (partial : Bool)
    → IsHyphenated (show guid)
    → length (drop 4 (path_text show guid partial)) ≤ 45
unfolding path_text
length-drop_path show guid true h =
    omega (arith, length-append (show guid) (codes ".partial"), h.size)
length-drop_path show guid false h =
    omega (arith, length-append (show guid) (codes ".gcode"), h.size)

no_nul-drop_path :
    (show : Uuid → Bytes) (guid : Uuid) (partial : Bool)
    → IsHyphenated (show guid)
    → elem 0 (drop 4 (path_text show guid partial)) ≡ false
unfolding path_text elem
no_nul-drop_path show guid true h =
    ground (arith, elem-append 0 (show guid) (codes ".partial"), h.no_nul)
no_nul-drop_path show guid false h =
    ground (arith, elem-append 0 (show guid) (codes ".gcode"), h.no_nul)

no_nul-drive : elem 0 (codes "0:") ≡ false
unfolding elem
no_nul-drive = refl

starts_with-path_text :
    (show : Uuid → Bytes) (guid : Uuid) (partial : Bool)
    → starts_with prefix (path_text show guid partial) ≡ true
unfolding path_text starts_with
starts_with-path_text show guid partial = refl

-- For the path that `make_path` makes of an identifier in its documented form of 36 characters, `stat`
-- asks FatFs for the file of that name in drive 0 and answers what it answers: the path is never
-- refused as too long or as being outside of "/usb/".
pub stat-path_text :
    (texts : Texts) (f_stat : Bytes → Result FilInfo FResult) (show : Uuid → Bytes) (guid : Uuid)
    (partial : Bool)
    → IsHyphenated (show guid)
    → stat texts f_stat (path_text show guid partial)
      ≡ f_stat (codes "0:/" ++ (show guid ++ extension partial))
unfolding stat native_path path_text
stat-path_text texts f_stat show guid partial h =
    let path = path_text show guid partial in
    let drive = texts.extend_fits 64 [] (codes "0:") no_nul-drive (omega arith) in
    let rest =
      texts.extend_fits 64 (codes "0:") (drop 4 path) (no_nul-drop_path show guid partial h)
        (omega (arith, length-drop_path show guid partial h)) in
    rw (starts_with-path_text show guid partial, drive, rest) refl
