-- ===== src/Udp/FirstBlock.antt =====
-- The loop over the pieces of a block in epoll+tpool/server/udp.c counts in the variable of the loop
-- over the blocks.
use model_lib.Base.{ℕ, List, leb, if◌then◌else◌, take, drop, length}
use model_lib.CString.{Text}
use model_lib.Transfer.{blocksize, Head}
use model_lib.Transfer.Rebuild.{partial}
use model_lib.Transfer.Receive.{createfile}
use model_lib.Udp.{Layout}

-- The size of the first block.
unfoldable pub first_size : ℕ → ℕ
first_size size = if leb size blocksize then size else blocksize

abbrev pub first_head : Text → ℕ → Head
first_head fname size = record { filename = fname; id = 0; offset = 0; bs = first_size size }

module _ (y : Layout) (fname : Text) (file : List ℕ) where
  abbrev pub size : ℕ
  size = length file

  -- The mapped part of the file before its first block.
  abbrev pub mapped_part : List ℕ
  mapped_part = take size (createfile (y.old fname) size)

  -- What is left of the file: its first block, and behind it what was there.
  abbrev pub cut : List ℕ
  cut = partial file (first_size size) (drop (first_size size) mapped_part)
