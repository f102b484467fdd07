-- ===== src/Sessions/Journal/Written.antt =====
-- server/src/sessions/journal.rs: what is read back from a journal that was written in full.
use sctl.Prelude.{
  All, false, str_eq, ℕ, ◌≡◌, refl, sym, ap, ◌∙◌, false, List, [], ◌∷◌, ◌++◌, map, Option, none,
  some, String, str_eq, append_assoc, append-nil,
}
use sctl.Sessions.Entry.{
  OutputStream, stdout, stderr, system, OutputEntry, JournalEntry, from_output_entry, stream_char,
  to_output_entry-from_output_entry,
}
use sctl.Sessions.Journal.{
  archive, SessionMetadata, parse_exit_code, or_before, code_after, Read, read_line, read_lines,
  recover_single_journal,
}

-- The exit code that an entry tells.
abbrev pub exit_of : OutputStream → String → Option ℕ
exit_of stdout text = none
exit_of stderr text = none
exit_of system text = parse_exit_code text

-- That of the last entry that tells one.
abbrev pub last_exit : List OutputEntry → Option ℕ
last_exit [] = none
last_exit (e ∷ es) = or_before (last_exit es) (exit_of e.stream e.payload)

or_before-none : (a : Option ℕ) → or_before a none ≡ a
or_before-none none = refl
or_before-none (some x) = refl

or_before_assoc : (a b c : Option ℕ) → or_before a (or_before b c) ≡ or_before (or_before a b) c
or_before_assoc none b c = refl
or_before_assoc (some x) b c = refl

code_after-from :
    (stream : OutputStream) (e : OutputEntry) (c : Option ℕ)
    → code_after (from_output_entry (record e { stream = stream })) c
      ≡ or_before (exit_of stream e.payload) c
unfolding code_after from_output_entry stream_char
code_after-from stdout e c = refl
code_after-from stderr e c = refl
code_after-from system e c = refl

module _ (parse_entry : String → Option JournalEntry)
    (parse_metadata : String → Option SessionMetadata) (print_entry : JournalEntry → String)
    (print_metadata : SessionMetadata → String) where
  abbrev pub written : List OutputEntry → List String
  written es = map (λ e. print_entry (from_output_entry e)) es

  -- The line of the entry is not empty and is read as what was printed.
  abbrev pub Readable : OutputEntry → Type 0
  Readable e =
      (str_eq (print_entry (from_output_entry e)) "" ≡ false)
      × (parse_entry (print_entry (from_output_entry e)) ≡ some (from_output_entry e))

  read_line-written :
      (e : OutputEntry) (r : Read)
      → Readable e
      → read_line parse_entry parse_metadata (print_entry (from_output_entry e)) r
        ≡ (r.0 ++ (e ∷ []), or_before (exit_of e.stream e.payload) r.1)
  read_line-written e r (filled, parses) = rw filled (
      rw parses (λ i.
        (r.0 ++ (to_output_entry-from_output_entry e i ∷ []), code_after-from e.stream e r.1 i)))

  read_lines-written :
      (es : List OutputEntry) (r : Read)
      → All Readable es
      → read_lines parse_entry parse_metadata (written es) r
        ≡ (r.0 ++ es, or_before (last_exit es) r.1)
  unfolding read_lines
  read_lines-written [] r h = λ i. (sym (append-nil r.0) i, r.1)
  read_lines-written (e ∷ es) r (h, hs) =
      ap (read_lines parse_entry parse_metadata (written es)) (read_line-written e r h)
      ∙ read_lines-written es (r.0 ++ (e ∷ []), or_before (exit_of e.stream e.payload) r.1) hs
      ∙ (λ i. (
        append_assoc r.0 (e ∷ []) es i,
        or_before_assoc (last_exit es) (exit_of e.stream e.payload) r.1 i,
      ))

  -- A journal whose lines were all written is read back with the same entries, and with the exit
  -- code of the last entry that tells one, if the JSON parsers read what was printed and no line is
  -- empty.
  pub recover-written :
      (id : String) (m : SessionMetadata) (es : List OutputEntry)
      → parse_metadata (print_metadata m) ≡ some m
      → All Readable es
      → recover_single_journal parse_entry parse_metadata id (print_metadata m ∷ written es)
        ≡ some (record { session_id = id; metadata = m; entries = es; exit_code = last_exit es })
  unfolding recover_single_journal
  recover-written id m es meta hs = rw meta (λ i. some (
      archive parse_entry parse_metadata id
        ((read_lines-written es ([], none) hs ∙ (λ j. (es, or_before-none (last_exit es) j))) i) m))
