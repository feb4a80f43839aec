-- ===== src/Client/Datagrams.antt =====
-- The sender to the server of datagrams: udp_fileinfo, udp_filedata and udpfile of
-- epoll+tpool/client/work.c.
use model_lib.Base.{ℕ, Option, none, some, List, [], ◌∷◌, ◌++◌, length, pos}
use model_lib.CString.{Text}
use model_lib.Transfer.{FileInfo, Head, send_fileinfo, send_filedata, file_heads}
use model_lib.Udp.{Layout, Datagram}
use model_lib.Client.{Env, C, pure, ◌>>=◌, ◌>>◌, modify, or_fault}
use model_lib.Client.Console.{scanf_word, string_of, press_anykey}
use model_lib.Client.Files.{announce, opened}

-- The sizes of the file, in one datagram, and the size of the last block. The code in front of the
-- `sendto` is that of send_fileinfo.
unfoldable pub udp_fileinfo : Layout → Text → (st_size : ℕ) → Option (Datagram × FileInfo × ℕ)
udp_fileinfo y fname st_size = elim (send_fileinfo fname st_size) [
  | none ↦ none
  | some r ↦ some (y.info_bytes r.0, r.0, r.1)
]

-- A block: its head, and its pieces, cut like those of send_filedata.
unfoldable pub udp_filedata : Layout → List ℕ → Head → Option (List Datagram)
udp_filedata y file h = elim (send_filedata file h) [
  | none ↦ none
  | some r ↦ some (y.head_bytes r.0 ∷ r.1)
]

abbrev join : Option (List Datagram) → Option (List Datagram) → Option (List Datagram)
join none later = none
join (some ds) none = none
join (some ds) (some es) = some (ds ++ es)

unfoldable pub udp_blocks : Layout → List ℕ → List Head → Option (List Datagram)
unfolding udp_filedata
udp_blocks y file [] = some []
udp_blocks y file (h ∷ hs) = join (udp_filedata y file h) (udp_blocks y file hs)

abbrev in_front : Datagram → Option (List Datagram) → Option (List Datagram)
in_front d none = none
in_front d (some ds) = some (d ∷ ds)

-- All the datagrams of a file. `tempid` stays 0.
unfoldable pub udp_datagrams : Layout → Text → List ℕ → Option (List Datagram)
unfolding udp_fileinfo udp_blocks
udp_datagrams y name file = elim (udp_fileinfo y name (length file)) [
  | none ↦ none
  | some (d, finfo, last_bs) ↦ in_front d (udp_blocks y file (file_heads finfo last_bs name 0))
]

module _ (e : Env) (y : Layout) where
  -- The file is announced over the connection to the server, and goes out in datagrams.
  unfoldable pub udpfile : C (List Datagram)
  unfolding udp_datagrams
  udpfile = do
    modify λ s. record s { flag = pos 0 }
    filename ← scanf_word []
    announce e filename
    name ← string_of filename
    file ← opened e (e.file name)
    ds ← or_fault (udp_datagrams y name file)
    _ ← press_anykey e
    modify λ s. record s { flag = pos 1 }
    pure ds
