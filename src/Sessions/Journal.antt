-- ===== src/Sessions/Journal.antt =====
-- server/src/sessions/journal.rs: what is read back from a journal file. The parsers of serde_json
-- are parameters; the lines are those that could be read. An exit code is the bit pattern of an
-- `i32`.
pub mod Written
use sctl.Prelude.{
  ℕ, ◌-◌, ◌^◌, ◌%◌, Bool, true, false, ◌⊎◌, inl, inr, List, [], ◌∷◌, ◌++◌, Option, none, some,
  String, codes, str_eq, ◌==◌, leb, if◌then◌else◌, starts_with, drop, length, trim, digits_from,
  parse_unsigned,
}
use sctl.Prelude.Map.{map_option}
use sctl.Sessions.Entry.{OutputEntry, JournalEntry, to_output_entry}

pub record SessionMetadata : Type 0 where
  pub v : ℕ
  pub pid : ℕ
  pub shell : String
  pub working_dir : String
  pub persistent : Bool
  pub pty : Bool
  pub created : ℕ

pub record ArchivedSession : Type 0 where
  pub session_id : String
  pub metadata : SessionMetadata
  pub entries : List OutputEntry
  pub exit_code : Option ℕ

-- `strip_prefix`
abbrev pub strip_prefix : List ℕ → List ℕ → Option (List ℕ)
strip_prefix p s = if starts_with p s then some (drop (length p) s) else none

-- `parse()` of an `i32`: a minus sign or a number below 2^31.
abbrev pub negated : Option ℕ → Option ℕ
negated none = none
negated (some n) = if leb n (2 ^ 31) then some ((2 ^ 32 - n) % 2 ^ 32) else none

unfoldable pub parse_i32 : List ℕ → Option ℕ
parse_i32 [] = none
parse_i32 (c ∷ []) = if c == b'-' then none else parse_unsigned (2 ^ 31) (c ∷ [])
parse_i32 (c ∷ d ∷ s) =
    if c == b'-'
    then negated (digits_from (2 ^ 32) 0 (d ∷ s))
    else parse_unsigned (2 ^ 31) (c ∷ d ∷ s)

abbrev pub exit_prefix : List ℕ
exit_prefix = codes "Process exited with code "

abbrev pub trimmed_i32 : Option (List ℕ) → Option ℕ
trimmed_i32 none = none
trimmed_i32 (some s) = parse_i32 (trim s)

unfoldable pub parse_exit_code : String → Option ℕ
unfolding parse_i32
parse_exit_code msg = trimmed_i32 (strip_prefix exit_prefix (codes msg))

-- The entries and the exit code so far.
abbrev pub Read : Type 0
Read = List OutputEntry × Option ℕ

abbrev pub or_before : Option ℕ → Option ℕ → Option ℕ
or_before none before = before
or_before (some code) before = some code

-- Only a system message gives an exit code.
unfoldable pub code_after : JournalEntry → Option ℕ → Option ℕ
unfolding parse_exit_code
code_after je before = if je.t == b'x' then or_before (parse_exit_code je.d) before else before

module _ (parse_entry : String → Option JournalEntry)
    (parse_metadata : String → Option SessionMetadata) where
  -- A line that cannot be parsed is skipped.
  abbrev pub read_entry : Option JournalEntry → Read → Read
  read_entry none r = r
  read_entry (some je) r = (r.0 ++ (to_output_entry je ∷ []), code_after je r.1)

  abbrev pub read_line : String → Read → Read
  read_line line r = if str_eq line "" then r else read_entry (parse_entry line) r

  unfoldable pub read_lines : List String → Read → Read
  unfolding code_after
  read_lines [] r = r
  read_lines (line ∷ lines) r = read_lines lines (read_line line r)

  abbrev pub archive : String → Read → SessionMetadata → ArchivedSession
  archive session_id r metadata = record {
    session_id = session_id;
    metadata = metadata;
    entries = r.0;
    exit_code = r.1;
  }

  -- `None` for an empty file and for metadata that cannot be parsed.
  unfoldable pub recover_single_journal : String → List String → Option ArchivedSession
  unfolding read_lines
  recover_single_journal session_id [] = none
  recover_single_journal session_id (meta ∷ lines) =
      map_option (archive session_id (read_lines lines ([], none))) (parse_metadata meta)

  -- Every file with the extension, by its stem; one that cannot be read is skipped.
  abbrev pub and_then : Option ArchivedSession → List ArchivedSession → List ArchivedSession
  and_then none rest = rest
  and_then (some a) rest = a ∷ rest

  unfoldable pub recover_sessions : List (String × List String) → List ArchivedSession
  unfolding recover_single_journal
  recover_sessions [] = []
  recover_sessions ((id, lines) ∷ files) =
      and_then (recover_single_journal id lines) (recover_sessions files)
