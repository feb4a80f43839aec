-- ===== src/Sqlite/Sql.antt =====
-- The statements that epoll+tpool/server/sqlite.c prints, as texts.
use model_lib.Base.{◌≡◌, refl, ◌++◌, ℤ, pos, negsuc}
use model_lib.CString.{Text, text}
use model_lib.CString.Decimal.{show_int, show_nat}

-- `'%s'`
unfoldable pub quote : Text → Text
unfolding text
quote t = text "'" ++ (t ++ text "'")

-- `insert into %s(…) values(…);`
unfoldable pub insert_stmt : (table columns values : Text) → Text
insert_stmt table columns values =
    text "insert into "
    ++ (table ++ (text "(" ++ (columns ++ (text ") values(" ++ (values ++ text ");")))))

-- `create table if not exists %s(…);`
unfoldable pub create_stmt : (table columns : Text) → Text
create_stmt table columns =
    text "create table if not exists " ++ (table ++ (text "(" ++ (columns ++ text ");")))

-- The three forms of the `select` in `search_data`.
unfoldable pub select_all : (table : Text) → Text
select_all table = text "select * from " ++ (table ++ text ";")

unfoldable pub select_int : (table column : Text) → ℤ → Text
select_int table column id =
    text "select * from "
    ++ (table ++ (text " where " ++ (column ++ (text "=" ++ (show_int id ++ text ";")))))

unfoldable pub select_text : (table column content : Text) → Text
select_text table column content =
    text "select * from "
    ++ (table ++ (text " where " ++ (column ++ (text "='" ++ (content ++ text "';")))))

-- `update %s set %s=… where %s=…;`, the two values printed by the caller.
unfoldable pub update_stmt : (table column value select_column select_value : Text) → Text
update_stmt table column value select_column select_value =
    text "update "
    ++ (table
        ++ (text " set "
            ++ (column
                ++ (text "="
                    ++ (value
                        ++ (text " where "
                            ++ (select_column ++ (text "=" ++ (select_value ++ text ";")))))))))

-- `delete from %s where %s=…;`
unfoldable pub delete_stmt : (table column value : Text) → Text
delete_stmt table column value =
    text "delete from "
    ++ (table ++ (text " where " ++ (column ++ (text "=" ++ (value ++ text ";")))))

select_by_name :
    select_text (text "userdata") (text "name") (text "bob")
    ≡ text "select * from userdata where name='bob';"
unfolding select_text text
select_by_name = refl

select_by_id :
    select_int (text "userdata") (text "id1") (negsuc 11)
    ≡ text "select * from userdata where id1=-12;"
unfolding select_int text show_int show_nat
select_by_id = refl

insert_message :
    insert_stmt (text "bob") (text "dec,id1,message") (
      quote (text "unchecked")
      ++ (text "," ++ (show_int (pos 7) ++ (text "," ++ quote (text "hi")))))
    ≡ text "insert into bob(dec,id1,message) values('unchecked',7,'hi');"
unfolding insert_stmt quote show_int show_nat
insert_message = refl

update_name :
    update_stmt (text "userdata") (text "name") (quote (text "eve")) (text "id1") (show_int (pos 3))
    ≡ text "update userdata set name='eve' where id1=3;"
unfolding update_stmt quote show_int show_nat
update_name = refl
