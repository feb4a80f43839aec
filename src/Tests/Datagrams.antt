-- ===== src/Tests/Datagrams.antt =====
-- A file of two blocks that is sent in datagrams.
use model_lib.Base.{true, ℕ, zero, suc, List, [], ◌∷◌}
use model_lib.Transfer.{FileInfo, Head}
use model_lib.Transfer.Blocks.{info_of}
use model_lib.Udp.{Layout, Datagram}

-- A structure as the list of its numbers and of its name.
abbrev read_info : Datagram → FileInfo
read_info (a ∷ b ∷ c ∷ name) = record { filename = name; filesize = a; count = b; bs = c }
read_info d = record { filename = []; filesize = 0; count = 0; bs = 0 }

abbrev read_head : Datagram → Head
read_head (a ∷ b ∷ c ∷ name) = record { filename = name; id = a; offset = b; bs = c }
read_head d = record { filename = []; id = 0; offset = 0; bs = 0 }

abbrev simple : Layout
simple = record {
  info_bytes = λ f. f.filesize ∷ f.count ∷ f.bs ∷ f.filename;
  info_of = read_info;
  head_bytes = λ h. h.id ∷ h.offset ∷ h.bs ∷ h.filename;
  head_of = read_head;
  opens = λ name. true;
  old = λ name. [];
}

-- A file one byte longer than a block, so that it has two.
unfoldable long_file : (n : ℕ) → List ℕ
long_file zero = []
long_file (suc n) = 7 ∷ long_file n

abbrev two_blocks : List ℕ
two_blocks = long_file 67108865
