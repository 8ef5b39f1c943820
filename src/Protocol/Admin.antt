-- ===== src/Protocol/Admin.antt =====
-- grumpydb-protocol/src/parser.rs: the arguments of the commands on users, databases, collections,
-- indexes and the cluster.
use grumpydb.Prelude.{not, none, some, ◌++◌, ok, err, ◌>>=◌, ◌>>◌, if◌then◌else◌}
use grumpydb.Prelude.Map.{is_same}
use grumpydb.Protocol.Text.{Text, text, is_empty, to_ascii_uppercase, eq_ignore_ascii_case}
use grumpydb.Protocol.Command.{
  Command, login, create_database, drop_database, list_databases, set_database_consistency,
  reset_database_consistency, show_database_consistency, create_collection, drop_collection,
  list_collections, create_index, drop_index, list_indexes, create_user, drop_user, list_users,
  create_tenant, drop_tenant, list_tenants, schema_version, schema_status,
}
use grumpydb.Protocol.Words.{
  Parsed, missing_argument, unknown_command, expect, require_arg, first_word, split_first_word,
  parse_database_consistency_settings,
}

unfoldable pub parse_login : Text → Parsed Command
parse_login rest = do
  (tenant, rest) ← first_word rest (text "LOGIN requires <tenant> <username> <password>")
  (username, rest) ← first_word rest (text "LOGIN requires <username>")
  expect (not (is_empty rest)) (text "LOGIN requires <password>")
  ok (login tenant username rest)

unfoldable pub parse_create_index : Text → Parsed Command
parse_create_index rest = do
  (collection, rest) ←
      first_word rest (text "CREATE INDEX requires <collection> <index_name> <field_path>")
  (index_name, rest) ← first_word rest (text "CREATE INDEX requires <index_name>")
  field_path ← require_arg rest (text "CREATE INDEX") (text "field_path")
  ok (create_index collection index_name field_path)

unfoldable pub parse_create_user : Text → Parsed Command
parse_create_user rest = do
  (username, rest) ← first_word rest (text "CREATE USER requires <username> <password>")
  expect (not (is_empty rest)) (text "CREATE USER requires <password>")
  ok (create_user username rest)

-- The last arms of a `match` on a second word.
unfoldable pub no_match : Text → Text → Text → Parsed Command
no_match sub message prefix =
    if is_empty sub then err (missing_argument message) else err (unknown_command (prefix ++ sub))

unfoldable pub parse_create : Text → Parsed Command
parse_create rest =
    let p = split_first_word rest in
    let sub = to_ascii_uppercase p.0 in
    if is_same sub (text "DATABASE")
    then (do
      name ← require_arg p.1 (text "CREATE DATABASE") (text "name")
      ok (create_database name))
    else if is_same sub (text "COLLECTION")
    then (do
      name ← require_arg p.1 (text "CREATE COLLECTION") (text "name")
      ok (create_collection name))
    else if is_same sub (text "INDEX")
    then parse_create_index p.1
    else if is_same sub (text "USER")
    then parse_create_user p.1
    else if is_same sub (text "TENANT")
    then (do name ← require_arg p.1 (text "CREATE TENANT") (text "name"); ok (create_tenant name))
    else no_match p.0 (text "CREATE requires DATABASE|COLLECTION|INDEX|USER|TENANT")
        (text "CREATE ")

unfoldable pub parse_drop_index : Text → Parsed Command
parse_drop_index rest = do
  (collection, rest) ← first_word rest (text "DROP INDEX requires <collection> <index_name>")
  index_name ← require_arg rest (text "DROP INDEX") (text "index_name")
  ok (drop_index collection index_name)

unfoldable pub parse_drop : Text → Parsed Command
parse_drop rest =
    let p = split_first_word rest in
    let sub = to_ascii_uppercase p.0 in
    if is_same sub (text "DATABASE")
    then (do name ← require_arg p.1 (text "DROP DATABASE") (text "name"); ok (drop_database name))
    else if is_same sub (text "COLLECTION")
    then (do
      name ← require_arg p.1 (text "DROP COLLECTION") (text "name")
      ok (drop_collection name))
    else if is_same sub (text "INDEX")
    then parse_drop_index p.1
    else if is_same sub (text "USER")
    then (do name ← require_arg p.1 (text "DROP USER") (text "username"); ok (drop_user name))
    else if is_same sub (text "TENANT")
    then (do name ← require_arg p.1 (text "DROP TENANT") (text "name"); ok (drop_tenant name))
    else no_match p.0 (text "DROP requires DATABASE|COLLECTION|INDEX|USER|TENANT") (text "DROP ")

unfoldable pub parse_list : Text → Parsed Command
parse_list rest =
    let p = split_first_word rest in
    let sub = to_ascii_uppercase p.0 in
    if is_same sub (text "DATABASES")
    then ok list_databases
    else if is_same sub (text "COLLECTIONS")
    then ok list_collections
    else if is_same sub (text "INDEXES")
    then (do
      coll ← require_arg p.1 (text "LIST INDEXES") (text "collection")
      ok (list_indexes coll))
    else if is_same sub (text "USERS")
    then ok (list_users (if is_empty p.1 then none else some p.1))
    else if is_same sub (text "TENANTS")
    then ok list_tenants
    else no_match p.0 (text "LIST requires DATABASES|COLLECTIONS|INDEXES|USERS|TENANTS")
        (text "LIST ")

-- `if !sub.eq_ignore_ascii_case("DATABASE")`, of ALTER and of SHOW
unfoldable pub expect_database : Text → Text → Text → Parsed (Unit {0})
expect_database sub message prefix =
    if eq_ignore_ascii_case sub (text "DATABASE")
    then ok tt
    else if is_empty sub
    then err (missing_argument message)
    else err (unknown_command (prefix ++ sub))

unfoldable pub parse_alter : Text → Parsed Command
parse_alter rest = do
  let p = split_first_word rest
  expect_database p.0 (text "ALTER requires DATABASE") (text "ALTER ")
  (database, rest) ← first_word p.1 (text "ALTER DATABASE requires <name> SET|RESET CONSISTENCY")
  let q = split_first_word rest
  let t = split_first_word q.1
  let set = do
    expect (eq_ignore_ascii_case t.0 (text "CONSISTENCY"))
        (text "ALTER DATABASE <name> SET requires CONSISTENCY")
    (r, w) ← parse_database_consistency_settings t.1
    ok (set_database_consistency database r w)
  let reset = do
    target ← require_arg q.1 (text "ALTER DATABASE <name> RESET") (text "CONSISTENCY")
    expect (eq_ignore_ascii_case target (text "CONSISTENCY"))
        (text "ALTER DATABASE <name> RESET requires CONSISTENCY")
    ok (reset_database_consistency database)
  (if eq_ignore_ascii_case q.0 (text "SET")
      then set
      else if eq_ignore_ascii_case q.0 (text "RESET")
      then reset
      else err (missing_argument (text "ALTER DATABASE <name> requires SET|RESET CONSISTENCY")))

unfoldable pub parse_show : Text → Parsed Command
parse_show rest = do
  let p = split_first_word rest
  expect_database p.0 (text "SHOW requires DATABASE") (text "SHOW ")
  (database, rest) ← first_word p.1 (text "SHOW DATABASE requires <name> CONSISTENCY")
  target ← require_arg rest (text "SHOW DATABASE <name>") (text "CONSISTENCY")
  expect (eq_ignore_ascii_case target (text "CONSISTENCY"))
      (text "SHOW DATABASE <name> requires CONSISTENCY")
  ok (show_database_consistency database)

unfoldable pub parse_schema : Text → Parsed Command
parse_schema rest =
    let p = split_first_word rest in
    let sub = to_ascii_uppercase p.0 in
    if is_same sub (text "VERSION")
    then ok schema_version
    else if is_same sub (text "STATUS")
    then ok schema_status
    else no_match p.0 (text "SCHEMA requires VERSION|STATUS") (text "SCHEMA ")
