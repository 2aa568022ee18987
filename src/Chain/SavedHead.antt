-- ===== src/Chain/SavedHead.antt =====
-- The file of internal/chain/chain.go that keeps the id of the head.
use basiccoin.Base.{ℕ, Option, none, some, List}
use basiccoin.Base.Result.{Result, err, no_save_dir, no_head_file}
use basiccoin.Base.Text.{trim}
use basiccoin.Collections.DiskSyncMap.{Written, saved, write_failed}
use basiccoin.Hash.{HashT, string, new_hash_from_string}

-- The file `head` in the directory: its text, if it can be read, and how the next write will end.
pub record HeadFile : Type 0 where
  pub text : Option (List ℕ)
  pub next_write : Written

abbrev pub text_after : List ℕ → Written → Option (List ℕ)
text_after text saved = some text
text_after text (write_failed left) = left

unfoldable pub save_head_to_file : HashT → HeadFile → HeadFile
save_head_to_file head file = record file { text = text_after (string head) file.next_write }

-- An error of the write is only printed.
abbrev pub save_head : HashT → Option HeadFile → Option HeadFile
save_head head none = none
save_head head (some file) = some (save_head_to_file head file)

abbrev pub read_text : Option (List ℕ) → Result HashT
read_text none = err no_head_file
read_text (some raw) = new_hash_from_string (trim raw)

unfoldable pub load_head_from_file : Option HeadFile → Result HashT
load_head_from_file none = err no_save_dir
load_head_from_file (some file) = read_text file.text
