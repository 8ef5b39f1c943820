-- ===== src/Protocol/Line/Admin.antt =====
-- The lines of the commands on users, databases, collections and indexes:
-- grumpydb-protocol/src/parser.rs.
use grumpydb.Prelude.{ℕ, Option, ◌≡◌, refl, none, some, [], ok}
use grumpydb.Protocol.Text.{Text, text, is_whitespace, to_ascii_uppercase, eq_ignore_ascii_case}
use grumpydb.Protocol.Command.{
  login, set_database_consistency, create_database, drop_database, list_databases,
  reset_database_consistency, show_database_consistency, create_collection, drop_collection,
  list_collections, create_index, drop_index, list_indexes, create_user, drop_user, list_users,
  create_tenant, drop_tenant, list_tenants, schema_version, schema_status,
}
use grumpydb.Protocol.Wire.{
  IsWord, IsArg, lead, first_word-lead, split-lead, require_arg-IsArg, IsTrimmed-lead, split-word,
}
use grumpydb.Protocol.Line.{IsConcern, IsSome, concerns}
use grumpydb.Protocol.Line.Concerns.{concerns-IsTrimmed, parse_settings-concerns}
use grumpydb.Protocol.Admin.{
  parse_login, parse_create, parse_create_index, parse_create_user, parse_drop, parse_drop_index,
  parse_list, parse_alter, parse_show, parse_schema, expect_database,
}

pub parse_login_lem :
    (t u p : Text)
    → IsWord t
    → IsWord u
    → IsArg p
    → parse_login (lead t (lead u p)) ≡ ok (login t u p)
unfolding parse_login
parse_login_lem t u p ht hu hp =
    rw (first_word-lead t (lead u p) _ ht (IsTrimmed-lead u p hu hp.1))
      (rw (first_word-lead u p _ hu hp.1) (rw (hp.0) refl))

module _ (d : Text) (hd : IsArg d) where
  pub create_database_line : parse_create (lead (text "DATABASE") d) ≡ ok (create_database d)
  unfolding parse_create to_ascii_uppercase text is_whitespace
  create_database_line =
      rw (split-lead (text "DATABASE") d (refl, refl) hd.1)
        (rw (require_arg-IsArg d (text "CREATE DATABASE") (text "name") hd.0) refl)

  pub create_collection_line : parse_create (lead (text "COLLECTION") d) ≡ ok (create_collection d)
  unfolding parse_create to_ascii_uppercase text is_whitespace
  create_collection_line =
      rw (split-lead (text "COLLECTION") d (refl, refl) hd.1)
        (rw (require_arg-IsArg d (text "CREATE COLLECTION") (text "name") hd.0) refl)

  pub create_tenant_line : parse_create (lead (text "TENANT") d) ≡ ok (create_tenant d)
  unfolding parse_create to_ascii_uppercase text is_whitespace
  create_tenant_line =
      rw (split-lead (text "TENANT") d (refl, refl) hd.1)
        (rw (require_arg-IsArg d (text "CREATE TENANT") (text "name") hd.0) refl)

  pub drop_database_line : parse_drop (lead (text "DATABASE") d) ≡ ok (drop_database d)
  unfolding parse_drop to_ascii_uppercase text is_whitespace
  drop_database_line =
      rw (split-lead (text "DATABASE") d (refl, refl) hd.1)
        (rw (require_arg-IsArg d (text "DROP DATABASE") (text "name") hd.0) refl)

  pub drop_collection_line : parse_drop (lead (text "COLLECTION") d) ≡ ok (drop_collection d)
  unfolding parse_drop to_ascii_uppercase text is_whitespace
  drop_collection_line =
      rw (split-lead (text "COLLECTION") d (refl, refl) hd.1)
        (rw (require_arg-IsArg d (text "DROP COLLECTION") (text "name") hd.0) refl)

  pub drop_user_line : parse_drop (lead (text "USER") d) ≡ ok (drop_user d)
  unfolding parse_drop to_ascii_uppercase text is_whitespace
  drop_user_line =
      rw (split-lead (text "USER") d (refl, refl) hd.1)
        (rw (require_arg-IsArg d (text "DROP USER") (text "username") hd.0) refl)

  pub drop_tenant_line : parse_drop (lead (text "TENANT") d) ≡ ok (drop_tenant d)
  unfolding parse_drop to_ascii_uppercase text is_whitespace
  drop_tenant_line =
      rw (split-lead (text "TENANT") d (refl, refl) hd.1)
        (rw (require_arg-IsArg d (text "DROP TENANT") (text "name") hd.0) refl)

  pub list_indexes_line : parse_list (lead (text "INDEXES") d) ≡ ok (list_indexes d)
  unfolding parse_list to_ascii_uppercase text is_whitespace
  list_indexes_line =
      rw (split-lead (text "INDEXES") d (refl, refl) hd.1)
        (rw (require_arg-IsArg d (text "LIST INDEXES") (text "collection") hd.0) refl)

  pub list_users_line : parse_list (lead (text "USERS") d) ≡ ok (list_users (some d))
  unfolding parse_list to_ascii_uppercase text is_whitespace
  list_users_line = rw (split-lead (text "USERS") d (refl, refl) hd.1) (rw (hd.0) refl)

pub list_databases_line : parse_list (text "DATABASES") ≡ ok list_databases
unfolding parse_list to_ascii_uppercase text is_whitespace
list_databases_line = rw (split-word (text "DATABASES") (refl, refl)) refl

pub list_collections_line : parse_list (text "COLLECTIONS") ≡ ok list_collections
unfolding parse_list to_ascii_uppercase text is_whitespace
list_collections_line = rw (split-word (text "COLLECTIONS") (refl, refl)) refl

pub list_tenants_line : parse_list (text "TENANTS") ≡ ok list_tenants
unfolding parse_list to_ascii_uppercase text is_whitespace
list_tenants_line = rw (split-word (text "TENANTS") (refl, refl)) refl

pub schema_version_line : parse_schema (text "VERSION") ≡ ok schema_version
unfolding parse_schema to_ascii_uppercase text is_whitespace
schema_version_line = rw (split-word (text "VERSION") (refl, refl)) refl

pub schema_status_line : parse_schema (text "STATUS") ≡ ok schema_status
unfolding parse_schema to_ascii_uppercase text is_whitespace
schema_status_line = rw (split-word (text "STATUS") (refl, refl)) refl

pub list_users_all : parse_list (text "USERS") ≡ ok (list_users none)
unfolding parse_list to_ascii_uppercase text is_whitespace
list_users_all = rw (split-word (text "USERS") (refl, refl)) refl

module _ (c : Text) (hc : IsWord c) where
  pub create_user_line :
      (p : Text) → IsArg p → parse_create (lead (text "USER") (lead c p)) ≡ ok (create_user c p)
  unfolding parse_create parse_create_user to_ascii_uppercase text is_whitespace
  create_user_line p hp =
      rw (split-lead (text "USER") (lead c p) (refl, refl) (IsTrimmed-lead c p hc hp.1))
        (rw (first_word-lead c p _ hc hp.1) (rw (hp.0) refl))

  pub drop_index_line :
      (i : Text) → IsArg i → parse_drop (lead (text "INDEX") (lead c i)) ≡ ok (drop_index c i)
  unfolding parse_drop parse_drop_index to_ascii_uppercase text is_whitespace
  drop_index_line i hi =
      rw (split-lead (text "INDEX") (lead c i) (refl, refl) (IsTrimmed-lead c i hc hi.1)) (
        rw (first_word-lead c i _ hc hi.1)
          (rw (require_arg-IsArg i (text "DROP INDEX") (text "index_name") hi.0) refl))

  pub create_index_line :
      (i f : Text)
      → IsWord i
      → IsArg f
      → parse_create (lead (text "INDEX") (lead c (lead i f))) ≡ ok (create_index c i f)
  unfolding parse_create parse_create_index to_ascii_uppercase text is_whitespace
  create_index_line i f hi hf =
      let rest = IsTrimmed-lead i f hi hf.1 in
      rw
        (split-lead (text "INDEX") (lead c (lead i f)) (refl, refl)
          (IsTrimmed-lead c (lead i f) hc rest))
        (rw (first_word-lead c (lead i f) _ hc rest) (
          rw (first_word-lead i f _ hi hf.1)
            (rw (require_arg-IsArg f (text "CREATE INDEX") (text "field_path") hf.0) refl)))

  pub show_line :
      parse_show (lead (text "DATABASE") (lead c (text "CONSISTENCY")))
      ≡ ok (show_database_consistency c)
  unfolding parse_show expect_database eq_ignore_ascii_case text is_whitespace
  show_line =
      rw
        (split-lead (text "DATABASE") (lead c (text "CONSISTENCY")) (refl, refl)
          (IsTrimmed-lead c (text "CONSISTENCY") hc (refl, refl)))
        (rw (first_word-lead c (text "CONSISTENCY") _ hc (refl, refl)) (
          rw
            (require_arg-IsArg (text "CONSISTENCY") (text "SHOW DATABASE <name>")
              (text "CONSISTENCY") refl)
            refl))

  pub reset_line :
      parse_alter (lead (text "DATABASE") (lead c (lead (text "RESET") (text "CONSISTENCY"))))
      ≡ ok (reset_database_consistency c)
  unfolding parse_alter expect_database eq_ignore_ascii_case text is_whitespace
  reset_line =
      let reset = lead (text "RESET") (text "CONSISTENCY") in
      let rest = IsTrimmed-lead (text "RESET") (text "CONSISTENCY") (refl, refl) (refl, refl) in
      rw (split-lead (text "DATABASE") (lead c reset) (refl, refl) (IsTrimmed-lead c reset hc rest))
        (rw (first_word-lead c reset _ hc rest) (
          rw (split-lead (text "RESET") (text "CONSISTENCY") (refl, refl) (refl, refl)) (
            rw
              (require_arg-IsArg (text "CONSISTENCY") (text "ALTER DATABASE <name> RESET")
                (text "CONSISTENCY") refl)
              refl)))

  pub set_line :
      (r w : Option ℕ)
      → IsConcern r
      → IsConcern w
      → IsSome r w
      → parse_alter (
          lead
            (text "DATABASE")
            (lead c (lead (text "SET") (lead (text "CONSISTENCY") (concerns r w [])))))
        ≡ ok (set_database_consistency c r w)
  unfolding parse_alter expect_database eq_ignore_ascii_case text is_whitespace
  set_line r w hr hw h =
      let end = concerns-IsTrimmed r w [] (tt, tt) in
      let settings = lead (text "CONSISTENCY") (concerns r w []) in
      let rest = IsTrimmed-lead (text "CONSISTENCY") (concerns r w []) (refl, refl) end in
      let set = lead (text "SET") settings in
      let tail = IsTrimmed-lead (text "SET") settings (refl, refl) rest in
      rw (split-lead (text "DATABASE") (lead c set) (refl, refl) (IsTrimmed-lead c set hc tail)) (
        rw (first_word-lead c set _ hc tail) (
          rw (split-lead (text "SET") settings (refl, refl) rest) (
            rw (split-lead (text "CONSISTENCY") (concerns r w []) (refl, refl) end)
              (rw (parse_settings-concerns r w hr hw h) refl))))
