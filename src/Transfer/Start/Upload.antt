-- ===== src/Transfer/Start/Upload.antt =====
-- server/src/gawdxfer/manager.rs, `init_upload`.
pub mod Checked
use Prim.Native.String.{◌++◌ as ◌+++◌}
use sctl.Prelude.{
  ℕ, ◌*◌, max, Bool, true, false, not, ◌&&◌, ◌||◌, List, [], ◌∷◌, ◌++◌, Option, none, some, String,
  str_eq, ltb, ◌==◌, if◌then◌else◌, codes, contains, back, string_eq,
}
use sctl.Prelude.Map.{insert}
use sctl.Transfer.Types.{
  upload, Transfer, TransferManager, Code, TransferError, make_error, Outcome, ok, err, panic,
  ◌>>=◌, ◌>>◌, reject_if, Io, done, fault, Metadata, FsCall, create, set_len, remove_file, Event,
  transfer_start,
}
use sctl.Transfer.Start.{
  validate_transfer_path, stat, check_limit, check_disk_space, compute_chunks, counted,
  fresh_progress,
}

pub record InitUpload : Type 0 where
  pub path : String
  pub filename : String
  pub file_size : ℕ
  pub file_hash : String
  pub chunk_size : ℕ
  pub total_chunks : ℕ
  pub mode : Option String

pub record InitUploadResult : Type 0 where
  pub transfer_id : String
  pub chunk_size : ℕ
  pub total_chunks : ℕ

pub record UploadAnswers : Type 0 where
  pub metadata : Io Metadata
  pub statvfs : Option ℕ
  pub uuid : String
  pub create : Io (Unit {0})
  pub set_len : Io (Unit {0})
  pub now : ℕ

abbrev pub ends_with_slash : List ℕ → Bool
ends_with_slash s = elim (back s) [ none ↦ false | some c ↦ c == b'/' ]

-- `Path::join` with a relative name
unfoldable pub join : String → String → String
join dir name = if ends_with_slash (codes dir) then dir +++ name else dir +++ "/" +++ name

unfoldable pub is_bad_filename : String → Bool
is_bad_filename name =
    str_eq name "" || contains b'/' (codes name) || contains 92 (codes name) || str_eq name ".."

-- All that is checked before the temporary file is made: the directory, the chunk size and count.
unfoldable pub check_upload :
    TransferManager → InitUpload → UploadAnswers → Outcome (String × ℕ × ℕ)
unfolding stat counted
check_upload m req a = do
  dir ← validate_transfer_path req.path
  meta ← stat a.metadata
  reject_if (not meta.is_dir) (make_error "" Code.invalid_path false)
  reject_if (is_bad_filename req.filename) (make_error "" Code.invalid_path false)
  reject_if (ltb m.config.max_file_size req.file_size) (make_error "" Code.file_too_large false)
  check_limit m
  check_disk_space a.statvfs req.file_size
  let size = max req.chunk_size 1024
  total ← counted (compute_chunks req.file_size size)
  reject_if (not (req.total_chunks == total)) (make_error "" Code.invalid_request false)
  ok (dir, size, total)

abbrev pub temp_name : String → String
temp_name uuid = ".gx_tmp_" +++ uuid

upload_of : String → ℕ → ℕ → InitUpload → UploadAnswers → Transfer
unfolding fresh_progress
upload_of dir size total req a = record {
  spec = record {
    transfer_id = a.uuid;
    direction = upload;
    path = dir;
    filename = req.filename;
    file_size = req.file_size;
    file_hash = req.file_hash;
    chunk_size = size;
    total_chunks = total;
    mode = req.mode;
    created_at = a.now;
    source_mtime = none;
  };
  progress = fresh_progress total a.now (join dir (temp_name a.uuid));
}

-- The temporary file is made and given its length; if that fails it is removed again.
allocate : String → ℕ → UploadAnswers → List FsCall × Outcome (Unit {0})
allocate temp_path size a = elim a.create [
  | fault _ ↦ (create temp_path ∷ [], err (make_error "" Code.io_error false))
  | done _ ↦ elim a.set_len [
    | fault _ ↦ (
      create temp_path ∷ set_len temp_path size ∷ remove_file temp_path ∷ [],
      err (make_error "" Code.disk_full false),
    )
    | done _ ↦ (create temp_path ∷ set_len temp_path size ∷ [], ok tt)
  ]
]

insert_upload : TransferManager → Transfer → TransferManager × InitUploadResult × List Event
insert_upload m t = (
  record m { transfers = insert t.spec.transfer_id t m.transfers },
  record {
    transfer_id = t.spec.transfer_id;
    chunk_size = t.spec.chunk_size;
    total_chunks = t.spec.total_chunks;
  },
  transfer_start t.spec.transfer_id ∷ [],
)

-- What follows the checks.
start_upload :
    TransferManager
    → InitUpload
    → UploadAnswers
    → Outcome (String × ℕ × ℕ)
    → List FsCall × Outcome (TransferManager × InitUploadResult × List Event)
unfolding upload_of allocate insert_upload
start_upload m req a panic = ([], panic)
start_upload m req a (err e) = ([], err e)
start_upload m req a (ok (dir, size, total)) =
    let (calls, made) = allocate (join dir (temp_name a.uuid)) req.file_size a in
    (calls, made >> ok (insert_upload m (upload_of dir size total req a)))

unfoldable pub init_upload :
    TransferManager
    → InitUpload
    → UploadAnswers
    → List FsCall × Outcome (TransferManager × InitUploadResult × List Event)
unfolding start_upload
init_upload m req a = start_upload m req a (check_upload m req a)
