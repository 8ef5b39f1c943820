-- ===== src/Protocol/Line/Documents.antt =====
-- The lines of the commands on documents: grumpydb-protocol/src/parser.rs.
use grumpydb.Prelude.{◌≡◌, refl, none, some, ok}
use grumpydb.Protocol.Text.{Text, text}
use grumpydb.Protocol.Command.{insert, get, update, delete, put_with_vc, scan, query, query_range}
use grumpydb.Protocol.Wire.{
  IsWord, IsArg, lead, first_word-lead, split-lead, require_arg-IsArg, split_last_word-lead,
  IsWord-IsTrimmed, IsTrimmed-lead, IsTrimmed, split-word, first_word-word, is_empty-lead, lead_arg,
  IsArg-lead_arg,
}
use grumpydb.Protocol.Documents.{
  parse_insert, parse_get, parse_update, parse_delete, parse_put_with_vc, parse_scan, parse_query,
  parse_queryrange,
}

module _ (c k : Text) (hc : IsWord c) (hk : IsWord k) where
  key : IsTrimmed k
  key = IsWord-IsTrimmed k hk

  pub parse_insert_lem : (v : Text) → IsArg v → parse_insert (lead c (lead k v)) ≡ ok (insert c k v)
  unfolding parse_insert
  parse_insert_lem v hv =
      rw (first_word-lead c (lead k v) _ hc (IsTrimmed-lead k v hk hv.1))
        (rw (first_word-lead k v _ hk hv.1) (rw (hv.0) refl))

  pub parse_update_lem : (v : Text) → IsArg v → parse_update (lead c (lead k v)) ≡ ok (update c k v)
  unfolding parse_update
  parse_update_lem v hv =
      rw (first_word-lead c (lead k v) _ hc (IsTrimmed-lead k v hk hv.1))
        (rw (first_word-lead k v _ hk hv.1) (rw (hv.0) refl))

  pub parse_query_lem : (v : Text) → IsArg v → parse_query (lead c (lead k v)) ≡ ok (query c k v)
  unfolding parse_query
  parse_query_lem v hv =
      rw (first_word-lead c (lead k v) _ hc (IsTrimmed-lead k v hk hv.1))
        (rw (first_word-lead k v _ hk hv.1) (rw (hv.0) refl))

  pub parse_queryrange_lem :
      (s e : Text)
      → IsWord s
      → IsArg e
      → parse_queryrange (lead c (lead k (lead s e))) ≡ ok (query_range c k s e)
  unfolding parse_queryrange
  parse_queryrange_lem s e hs he =
      let rest = IsTrimmed-lead s e hs he.1 in
      rw (first_word-lead c (lead k (lead s e)) _ hc (IsTrimmed-lead k (lead s e) hk rest)) (
        rw (first_word-lead k (lead s e) _ hk rest)
          (rw (first_word-lead s e _ hs he.1) (rw (he.0) refl)))

  pub parse_put_with_vc_lem :
      (v vc : Text)
      → IsArg v
      → IsWord vc
      → parse_put_with_vc (lead c (lead k (lead_arg v vc))) ≡ ok (put_with_vc c k v vc)
  unfolding parse_put_with_vc
  parse_put_with_vc_lem v vc hv hvc =
      let rest = IsArg-lead_arg v vc hv hvc in
      rw
        (first_word-lead c (lead k (lead_arg v vc)) _ hc
          (IsTrimmed-lead k (lead_arg v vc) hk rest.1))
        (rw (first_word-lead k (lead_arg v vc) _ hk rest.1)
          (rw (rest.0) (rw (split_last_word-lead v vc hv hvc) (rw (hv.0, hvc.0) refl))))

  pub parse_get_lem : parse_get (lead c k) ≡ ok (get c k)
  unfolding parse_get
  parse_get_lem =
      rw (first_word-lead c k _ hc key)
        (rw (require_arg-IsArg k (text "GET") (text "uuid") hk.0) (rw (split-word k hk) refl))

  pub parse_delete_lem : parse_delete (lead c k) ≡ ok (delete c k)
  unfolding parse_delete
  parse_delete_lem =
      rw (first_word-lead c k _ hc key)
        (rw (require_arg-IsArg k (text "DELETE") (text "uuid") hk.0) (rw (split-word k hk) refl))

  pub parse_scan_lem :
      (e : Text) → IsWord e → parse_scan (lead c (lead k e)) ≡ ok (scan c (some k) (some e))
  unfolding parse_scan
  parse_scan_lem e he =
      let end = IsWord-IsTrimmed e he in
      rw (first_word-lead c (lead k e) _ hc (IsTrimmed-lead k e hk end)) (
        rw (split-lead k e hk end)
          (rw (is_empty-lead k e hk) (rw (he.0) (rw (split-word e he) refl))))

pub parse_scan_all : (c : Text) → IsWord c → parse_scan c ≡ ok (scan c none none)
unfolding parse_scan
parse_scan_all c hc = rw (first_word-word c _ hc) refl
