-- ===== src/Sqlite/Import.antt =====
-- What `inport_data` of sqlite.c makes of a row of the table `userdata`.
use model_lib.Base.{◌≡◌, refl, ◌≤◌, Option, some, [], ◌∷◌, arith, length, ℤ, ap, ◌∙◌}
use model_lib.CString.{Text, Buf, text, copy_str-nil, max_size}
use model_lib.CString.Decimal.{show_int, atoi-show_int}
use model_lib.Packet.{Node, zero_node}
use model_lib.Server.{Row}
use model_lib.Sqlite.Rows.{copy_value, inport_column, inport_row}

pub copy_value-nil : (v : Text) → length v ≤ max_size → copy_value [] (some v) ≡ some v
unfolding copy_value
copy_value-nil v h = copy_str-nil max_size v h

module _ (new : Node) (v : Text) (b : Buf) where
  inport_column-name :
      copy_value new.name (some v) ≡ some b
      → inport_column (text "name", some v) new ≡ some (record new { name = b })
  unfolding inport_column
  inport_column-name c = ground (arith, c)

  inport_column-name1 :
      copy_value new.name1 (some v) ≡ some b
      → inport_column (text "name1", some v) new ≡ some (record new { name1 = b })
  unfolding inport_column
  inport_column-name1 c = ground (arith, c)

  inport_column-name2 :
      copy_value new.name2 (some v) ≡ some b
      → inport_column (text "name2", some v) new ≡ some (record new { name2 = b })
  unfolding inport_column
  inport_column-name2 c = ground (arith, c)

  inport_column-name3 :
      copy_value new.name3 (some v) ≡ some b
      → inport_column (text "name3", some v) new ≡ some (record new { name3 = b })
  unfolding inport_column
  inport_column-name3 c = ground (arith, c)

  inport_column-pswd :
      copy_value new.pswd (some v) ≡ some b
      → inport_column (text "pswd", some v) new ≡ some (record new { pswd = b })
  unfolding inport_column
  inport_column-pswd c = ground (arith, c)

  inport_column-ques :
      copy_value new.ques (some v) ≡ some b
      → inport_column (text "ques", some v) new ≡ some (record new { ques = b })
  unfolding inport_column
  inport_column-ques c = ground (arith, c)

  inport_column-answ :
      copy_value new.answ (some v) ≡ some b
      → inport_column (text "answ", some v) new ≡ some (record new { answ = b })
  unfolding inport_column
  inport_column-answ c = ground (arith, c)

  inport_column-message :
      copy_value new.message (some v) ≡ some b
      → inport_column (text "message", some v) new ≡ some (record new { message = b })
  unfolding inport_column
  inport_column-message c = ground (arith, c)

  inport_column-dec :
      copy_value new.dec (some v) ≡ some b
      → inport_column (text "dec", some v) new ≡ some (record new { dec = b })
  unfolding inport_column
  inport_column-dec c = ground (arith, c)

inport_column-id1 :
    (new : Node) (id : ℤ)
    → inport_column (text "id1", some (show_int id)) new ≡ some (record new { id1 = id })
unfolding inport_column
inport_column-id1 new id = ap (λ t. some (record new { id1 = t })) (atoi-show_int id)

inport_row-cons :
    (c : Text × Option Text) (row : Row) (new new' : Node)
    → inport_column c new ≡ some new'
    → inport_row (c ∷ row) new ≡ inport_row row new'
unfolding inport_row
inport_row-cons c row new new' e = ground (arith, e)

inport_row-nil : (new : Node) → inport_row [] new ≡ some new
unfolding inport_row
inport_row-nil new = refl

-- A row of `userdata`, in the order of the table's columns.
abbrev pub user_row : (name pswd ques answ : Text) → ℤ → Row
user_row name pswd ques answ id =
    (text "name", some name)
    ∷ (text "pswd", some pswd)
    ∷ (text "ques", some ques)
    ∷ (text "answ", some answ)
    ∷ (text "id1", some (show_int id))
    ∷ []

abbrev pub user_node : (name pswd ques answ : Text) → ℤ → Node
user_node name pswd ques answ id = record zero_node {
  name = name;
  pswd = pswd;
  ques = ques;
  answ = answ;
  id1 = id;
}

-- The texts fit into the arrays of a node.
pub record Fits (name pswd ques answ : Text) : Type 0 where
  pub name_fits : length name ≤ max_size
  pub pswd_fits : length pswd ≤ max_size
  pub ques_fits : length ques ≤ max_size
  pub answ_fits : length answ ≤ max_size

-- A row of userdata whose texts fit into their arrays becomes the node with each value in the field
-- of its column's name, the id as the number that was stored.
pub inport_row-user_row :
    (name pswd ques answ : Text) (id : ℤ)
    → Fits name pswd ques answ
    → inport_row (user_row name pswd ques answ id) zero_node
      ≡ some (user_node name pswd ques answ id)
inport_row-user_row name pswd ques answ id f =
    let n1 = record zero_node { name = name } in
    let n2 = record n1 { pswd = pswd } in
    let n3 = record n2 { ques = ques } in
    let n4 = record n3 { answ = answ } in
    inport_row-cons _ _ zero_node n1
      (inport_column-name zero_node name name (copy_value-nil name f.name_fits))
    ∙ inport_row-cons _ _ n1 n2 (inport_column-pswd n1 pswd pswd (copy_value-nil pswd f.pswd_fits))
    ∙ inport_row-cons _ _ n2 n3 (inport_column-ques n2 ques ques (copy_value-nil ques f.ques_fits))
    ∙ inport_row-cons _ _ n3 n4 (inport_column-answ n3 answ answ (copy_value-nil answ f.answ_fits))
    ∙ inport_row-cons _ _ n4 (record n4 { id1 = id }) (inport_column-id1 n4 id)
    ∙ inport_row-nil _

-- A row of a table of messages, members or friends.
abbrev pub entry_row : (dec : Text) → ℤ → (message : Text) → Row
entry_row dec id message =
    (text "dec", some dec) ∷ (text "id1", some (show_int id)) ∷ (text "message", some message) ∷ []

-- A row of a user's or a group's own table whose texts fit becomes a node with its kind, id and
-- message, and without a name.
pub inport_row-entry_row :
    (dec message : Text) (id : ℤ)
    → length dec ≤ max_size
    → length message ≤ max_size
    → inport_row (entry_row dec id message) zero_node
      ≡ some (record zero_node { dec = dec; id1 = id; message = message })
inport_row-entry_row dec message id d m =
    let n1 = record zero_node { dec = dec } in
    let n2 = record n1 { id1 = id } in
    inport_row-cons _ _ zero_node n1 (inport_column-dec zero_node dec dec (copy_value-nil dec d))
    ∙ inport_row-cons _ _ n1 n2 (inport_column-id1 n1 id)
    ∙ inport_row-cons _ _ n2 (record n2 { message = message })
        (inport_column-message n2 message message (copy_value-nil message m))
    ∙ inport_row-nil _

-- A row of grouplist becomes a node with the group's name and id.
pub inport_row-group :
    (name : Text) (id : ℤ)
    → length name ≤ max_size
    → inport_row ((text "name", some name) ∷ (text "id1", some (show_int id)) ∷ []) zero_node
      ≡ some (record zero_node { name = name; id1 = id })
inport_row-group name id h =
    let n1 = record zero_node { name = name } in
    inport_row-cons _ _ zero_node n1
      (inport_column-name zero_node name name (copy_value-nil name h))
    ∙ inport_row-cons _ _ n1 (record n1 { id1 = id }) (inport_column-id1 n1 id)
    ∙ inport_row-nil _

-- A row of filelist, in the order of the table's columns.
abbrev pub filelist_row : (name name1 name2 name3 : Text) → ℤ → Row
filelist_row name name1 name2 name3 id =
    (text "name", some name)
    ∷ (text "name1", some name1)
    ∷ (text "name2", some name2)
    ∷ (text "name3", some name3)
    ∷ (text "id1", some (show_int id))
    ∷ []

-- Such a row becomes a node with the four names and the id.
pub inport_row-filelist_row :
    (name name1 name2 name3 : Text) (id : ℤ)
    → Fits name name1 name2 name3
    → inport_row (filelist_row name name1 name2 name3 id) zero_node
      ≡ some
          (record zero_node { name = name; name1 = name1; name2 = name2; name3 = name3; id1 = id })
inport_row-filelist_row name name1 name2 name3 id f =
    let n1 = record zero_node { name = name } in
    let n2 = record n1 { name1 = name1 } in
    let n3 = record n2 { name2 = name2 } in
    let n4 = record n3 { name3 = name3 } in
    inport_row-cons _ _ zero_node n1
      (inport_column-name zero_node name name (copy_value-nil name f.name_fits))
    ∙ inport_row-cons _ _ n1 n2
        (inport_column-name1 n1 name1 name1 (copy_value-nil name1 f.pswd_fits))
    ∙ inport_row-cons _ _ n2 n3
        (inport_column-name2 n2 name2 name2 (copy_value-nil name2 f.ques_fits))
    ∙ inport_row-cons _ _ n3 n4
        (inport_column-name3 n3 name3 name3 (copy_value-nil name3 f.answ_fits))
    ∙ inport_row-cons _ _ n4 (record n4 { id1 = id }) (inport_column-id1 n4 id)
    ∙ inport_row-nil _
