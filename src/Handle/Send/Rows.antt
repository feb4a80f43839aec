-- ===== src/Handle/Send/Rows.antt =====
-- Rows whose two texts handle.c copies with strcpy or sprintf, so with their NUL.
use model_lib.Base.{◌≡◌, [], ◌∷◌, ◌++◌, if◌then◌else◌, ℤ}
use model_lib.CString.{Text, max_size, c_str-put}
use model_lib.CString.Decimal.{IsInt}
use model_lib.Packet.{SendPack, zero_pack, success, fail}
use model_lib.Server.{Env, Server, ok}
use model_lib.Work.Copy.{IsString}
use model_lib.Sqlite.Write.{c_string, insert_data}
use model_lib.Sqlite.Insert.{entry_stmt, executed, insert_data-entry}
use model_lib.Handle.Show.Listing.{strcpy-nil}
use model_lib.Handle.Send.{group_row}

abbrev pub text_pack : Text → ℤ → Text → SendPack
text_pack kind id message = record zero_pack {
  send_msg0 = kind ++ 0 ∷ [];
  send_msg1 = message ++ 0 ∷ [];
  send_id1 = id;
}

module _ (kind : Text) (id : ℤ) (message : Text) (k : IsString kind) (str : IsString message) where
  pub group_row-ok : (s : Server) → group_row kind id message s ≡ ok (text_pack kind id message) s
  unfolding group_row
  group_row-ok s = rw (strcpy-nil kind s k.fits, strcpy-nil message s str.fits)

  pub insert_text :
      (e : Env) (table : Text) (s : Server)
      → IsString table
      → IsInt id
      → insert_data e table (text_pack kind id message) 6 s
        ≡ ok
            (if (e.exec s.db (entry_stmt table kind id message)).rc_ok then success else fail)
            (executed s (entry_stmt table kind id message))
  insert_text e table s t i =
      insert_data-entry e (text_pack kind id message) s table kind message t.fits
        (c_str-put max_size kind [] k.clean k.fits) k.fits
        (c_str-put max_size message [] str.clean str.fits) str.fits i

pub c_string-put : (t : Text) (s : Server) → IsString t → c_string (t ++ 0 ∷ []) s ≡ ok t s
unfolding c_string
c_string-put t s str = rw (c_str-put max_size t [] str.clean str.fits)
