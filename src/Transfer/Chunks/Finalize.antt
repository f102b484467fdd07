-- ===== src/Transfer/Chunks/Finalize.antt =====
-- server/src/gawdxfer/manager.rs: the end of an upload:
-- the hash of the whole file is checked, and the temporary file is renamed.
use sctl.Prelude.{
  ℕ, ◌+◌, ◌*◌, ◌^◌, false, ◌&&◌, List, [], ◌∷◌, ◌++◌, Option, none, some, String, str_eq, leb, ltb,
  if◌then◌else◌, codes, ◌==◌, ◌-◌, string_eq,
}
use sctl.Prelude.Map.{lookup, insert}
use sctl.Transfer.Types.{
  upload, complete, failed, Transfer, TransferManager, Code, make_error, Outcome, ok, err, Io, done,
  fault, FsCall, set_mode, rename, remove_file, Event, gx_complete, transfer_complete,
}
use sctl.Transfer.Start.Upload.{join}
use sctl.Transfer.Chunks.{with_phase, complete_of}

-- The digits of `u32::from_str_radix(s, 8)`; `none` for any other character, or past 32 bits.
octal_from : ℕ → List ℕ → Option ℕ
octal_from n [] = some n
octal_from n (c ∷ s) =
    let next = n * 8 + (c - b'0') in
    let rest = octal_from next s in
    if leb b'0' c && leb c b'7' && ltb next (2 ^ 32) then rest else none

-- A leading `+` is accepted, an empty text is not.
unfoldable pub parse_octal : List ℕ → Option ℕ
unfolding octal_from
parse_octal [] = none
parse_octal (c ∷ []) = if c == b'+' then none else octal_from 0 (c ∷ [])
parse_octal (c ∷ d ∷ s) = if c == b'+' then octal_from 0 (d ∷ s) else octal_from 0 (c ∷ d ∷ s)

-- `set_permissions`, whose failure is passed over, where the mode is given and parses.
set_mode_calls : String → Option String → List FsCall
set_mode_calls path none = []
set_mode_calls path (some mode) = elim (parse_octal (codes mode)) [
  | none ↦ []
  | some n ↦ set_mode path n ∷ []
]

-- `mode` is what `set_permissions` would be given; `hash_file` and `rename` are the answers.
pub record UploadAnswers : Type 0 where
  pub write : Io (Unit {0})
  pub hash_file : Io String
  pub rename : Io (Unit {0})
  pub now : ℕ

-- What the checks before the I/O have read of the transfer.
pub record Snapshot : Type 0 where
  pub temp_path : String
  pub file_hash : String
  pub file_size : ℕ
  pub final_path : String
  pub mode : Option String

abbrev pub snapshot : Transfer → Snapshot
snapshot t = record {
  temp_path = t.progress.temp_path;
  file_hash = t.spec.file_hash;
  file_size = t.spec.file_size;
  final_path = join t.spec.path t.spec.filename;
  mode = t.spec.mode;
}

pub record Finished (A : Type 0) : Type 0 where
  pub manager : TransferManager
  pub calls : List FsCall
  pub events : List Event
  pub result : Outcome A

unfoldable pub with_hash : String → Transfer → Transfer
with_hash h t = record t { spec = record (t.spec) { file_hash = h } }

-- A change of one transfer, if it is still there.
unfoldable pub adjust : TransferManager → String → (Transfer → Transfer) → TransferManager
adjust m id f = elim (lookup id m.transfers) [
  | none ↦ m
  | some t ↦ record m { transfers = insert id (f t) m.transfers }
]

abbrev pub hash_failure : String
hash_failure = "Whole-file hash mismatch after all chunks received"

-- What follows the rename.
unfoldable pub after_rename :
    TransferManager → String → Snapshot → ℕ → Io (Unit {0}) → Finished (Unit {0})
unfolding adjust set_mode_calls
after_rename m id s now (fault _) = record {
  manager = m;
  calls =
      set_mode_calls s.temp_path s.mode
      ++ rename s.temp_path s.final_path ∷ remove_file s.temp_path ∷ [];
  events = [];
  result = err (make_error id Code.io_error false);
}
after_rename m id s now (done _) = record {
  manager = adjust m id (λ t. with_phase t complete);
  calls = set_mode_calls s.temp_path s.mode ++ rename s.temp_path s.final_path ∷ [];
  events = elim (lookup id m.transfers) [
    | none ↦ []
    | some t ↦
        gx_complete (complete_of t upload s.final_path s.file_size now) ∷ transfer_complete id ∷ []
  ];
  result = ok tt;
}

-- What follows the hash of the temporary file.
unfoldable pub after_hash :
    TransferManager → String → Snapshot → UploadAnswers → Io String → Finished (Unit {0})
unfolding adjust with_hash
after_hash m id s a (fault _) = record {
  manager = m;
  calls = [];
  events = [];
  result = err (make_error id Code.io_error false);
}
after_hash m id s a (done actual) =
    if str_eq s.file_hash ""
    then after_rename (adjust m id (with_hash actual)) id s a.now a.rename
    else if str_eq actual s.file_hash
    then after_rename m id s a.now a.rename
    else record {
      manager = adjust m id (λ t. with_phase t (failed hash_failure));
      calls = remove_file s.temp_path ∷ [];
      events = [];
      result = err (make_error id Code.hash_mismatch false);
    }

unfoldable pub verify_and_finalize :
    TransferManager → String → Snapshot → UploadAnswers → Finished (Unit {0})
unfolding after_hash
verify_and_finalize m id s a = after_hash m id s a a.hash_file
