-- ===== src/Sqlite/Rows.antt =====
-- The callbacks `inport_data`, `count_data` and `exchange_data` of sqlite.c.
use mathlib.Core.Option
use model_lib.Base.{Option, none, some, [], ◌∷◌, if◌then◌else◌, int_inc}
use model_lib.CString.{Text, Buf, text, copy_str, str_eq, max_size}
use model_lib.CString.Decimal.{atoi}
use model_lib.Packet.{Node, zero_node}
use model_lib.Server.{Row, M, crash, ◌>>=◌, modify, or_fault}

-- `memcpy(field, value, strlen(value))`; `strlen(NULL)` is a fault.
unfoldable pub copy_value : Buf → Option Text → Option Buf
copy_value field none = none
copy_value field (some value) = copy_str max_size field value

-- `if(strcmp(key, column_name[c]) == 0) …`
unfoldable pub on_column : Text → Text → (Node → Option Node) → Node → Option Node
unfolding str_eq
on_column key column body new = if str_eq key column then body new else some new

infixl 5 ◌>=>◌
abbrev ◌>=>◌ : (Node → Option Node) → (Node → Option Node) → Node → Option Node
◌>=>◌ f g new = elim (f new) [ none ↦ none | some new' ↦ g new' ]

-- One round of the loop of `inport_data`, its tests in the order of the source.
unfoldable pub inport_column : Text × Option Text → Node → Option Node
unfolding on_column text
inport_column (column, value) =
    on_column (text "name") column
      (λ new. Option.map (λ b. record new { name = b }) (copy_value new.name value))
    >=> on_column (text "name1") column
        (λ new. Option.map (λ b. record new { name1 = b }) (copy_value new.name1 value))
    >=> on_column (text "name2") column
        (λ new. Option.map (λ b. record new { name2 = b }) (copy_value new.name2 value))
    >=> on_column (text "name3") column
        (λ new. Option.map (λ b. record new { name3 = b }) (copy_value new.name3 value))
    >=> on_column (text "id1") column (λ new. Option.map (λ t. record new { id1 = atoi t }) value)
    >=> on_column (text "id2") column (λ new. Option.map (λ t. record new { id2 = atoi t }) value)
    >=> on_column (text "pswd") column
        (λ new. Option.map (λ b. record new { pswd = b }) (copy_value new.pswd value))
    >=> on_column (text "ques") column
        (λ new. Option.map (λ b. record new { ques = b }) (copy_value new.ques value))
    >=> on_column (text "answ") column
        (λ new. Option.map (λ b. record new { answ = b }) (copy_value new.answ value))
    >=> on_column (text "message") column
        (λ new. Option.map (λ b. record new { message = b }) (copy_value new.message value))
    >=> on_column (text "dec") column
        (λ new. Option.map (λ b. record new { dec = b }) (copy_value new.dec value))

unfoldable pub inport_row : Row → Node → Option Node
inport_row [] new = some new
inport_row (c ∷ row) new = elim (inport_column c new) [
  | none ↦ none
  | some new' ↦ inport_row row new'
]

-- The new node goes to the front of `cb_head`'s list.
unfoldable pub inport_data : Row → M (Unit {0})
inport_data row = do
  new ← or_fault (inport_row row zero_node)
  modify λ s. record s { cb_list = new ∷ s.cb_list; flag = int_inc s.flag }

unfoldable pub count_data : Row → M (Unit {0})
count_data row = modify λ s. record s { flag = int_inc s.flag }

-- The first column of the last row stays in `temp_name`.
unfoldable pub exchange_data : Row → M (Unit {0})
exchange_data [] = crash
exchange_data ((column, value) ∷ row) = do
  name ← or_fault (copy_value [] value)
  modify λ s. record s { temp_name = name; flag = int_inc s.flag }
