-- ===== src/Sessions/Buffer/Tests.antt =====
-- server/src/sessions/buffer.rs: runs of the buffer, and instances of its laws.
use sctl.Prelude.{◌≡◌, refl, List, [], ◌∷◌, some, arith}
use sctl.Sessions.Entry.{stdout, stderr, system, OutputEntry, from_output_entry}
use sctl.Sessions.Buffer.{new, set_journal, push, read_since, oldest_available}
use sctl.Sessions.Buffer.History.{Pushed, push_all}
use sctl.Sessions.Buffer.Reading.{read_since-push_all}

abbrev hello : Pushed
hello = record { stream = stdout; payload = "hello"; now = 10 }

abbrev oops : Pushed
oops = record { stream = stderr; payload = "oops"; now = 20 }

abbrev bye : Pushed
bye = record { stream = system; payload = "bye"; now = 30 }

abbrev three : List Pushed
three = hello ∷ oops ∷ bye ∷ []

abbrev bye_entry : OutputEntry
bye_entry = record { seq = 3; stream = system; payload = "bye"; timestamp_ms = 30 }

abbrev oops_entry : OutputEntry
oops_entry = record { seq = 2; stream = stderr; payload = "oops"; timestamp_ms = 20 }

reads_two_of_three : read_since (push_all (new 2) three) 0 ≡ (oops_entry ∷ bye_entry ∷ [], 1)
unfolding read_since push new oldest_available
reads_two_of_three = refl

-- A buffer of size 0 holds one entry.
size_zero_keeps_one : read_since (push_all (new 0) three) 0 ≡ (bye_entry ∷ [], 2)
unfolding read_since push new oldest_available
size_zero_keeps_one = refl

journals_entry :
    (push (set_journal (new 2)) stderr "oops" 20).1
    ≡ some (record { s = 1; t = b'e'; d = "oops"; ts = 20 })
unfolding push set_journal new from_output_entry
journals_entry = refl

read_since-push_all_example :
    read_since (push_all (new 2) three) 0 ≡ (oops_entry ∷ bye_entry ∷ [], 1)
read_since-push_all_example = read_since-push_all 2 three 0 (omega arith)
