-- ===== src/Handle/Common.antt =====
-- Loops and buffer writes that the handlers of handle.c share.
use model_lib.Base.{List, [], ◌∷◌}
use model_lib.CString.{Text, Buf, copy_str, put_str, max_size}
use model_lib.Server.{M, pure, ◌>>=◌, or_fault}

-- `memcpy(field, src, strlen(src))` on an array of a packet.
unfoldable pub memcpy_str : Buf → Text → M Buf
memcpy_str field src = or_fault (copy_str max_size field src)

-- `strcpy(field, src)` and `sprintf(field, …)` on an array of a packet.
unfoldable pub strcpy : Buf → Text → M Buf
strcpy field src = or_fault (put_str max_size field src)

-- A loop over a list that carries a local packet from round to round.
unfoldable pub fold_each : {A B : Type 0} → List A → B → (B → A → M B) → M B
fold_each [] b body = pure b
fold_each (x ∷ xs) b body = do b' ← body b x; fold_each xs b' body
