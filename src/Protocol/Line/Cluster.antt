-- ===== src/Protocol/Line/Cluster.antt =====
-- The lines of GRANT and REVOKE, and of the commands on the cluster:
-- grumpydb-protocol/src/parser.rs.
use grumpydb.Prelude.{◌≡◌, refl, none, some, ok}
use grumpydb.Protocol.Text.{Text, text, is_whitespace, to_ascii_uppercase, eq_ignore_ascii_case}
use grumpydb.Protocol.Command.{
  grant, revoke, elect_writer, plan_rebalance_add_node, plan_rebalance_remove_node,
  execute_rebalance_add_node, execute_rebalance_remove_node,
}
use grumpydb.Protocol.Wire.{
  IsWord, lead, first_word-lead, split-lead, require_arg-IsArg, IsWord-IsTrimmed, IsTrimmed-lead,
  split-word, first_word-word,
}
use grumpydb.Protocol.Cluster.{parse_elect_writer, parse_rebalance, parse_grant, parse_revoke}

module _ (n d : Text) (hn : IsWord n) (hd : IsWord d) where
  pub elect_database_line : parse_elect_writer (lead n d) ≡ ok (elect_writer n d none)
  unfolding parse_elect_writer
  elect_database_line =
      rw (first_word-lead n d _ hn (IsWord-IsTrimmed d hd)) (rw (first_word-word d _ hd) refl)

  pub elect_collection_line :
      (c : Text)
      → IsWord c
      → parse_elect_writer (lead n (lead d c)) ≡ ok (elect_writer n d (some c))
  unfolding parse_elect_writer
  elect_collection_line c hc =
      let last = IsWord-IsTrimmed c hc in
      rw (first_word-lead n (lead d c) _ hn (IsTrimmed-lead d c hd last))
        (rw (first_word-lead d c _ hd last) (rw (hc.0) (rw (split-word c hc) refl)))

  pub execute_add_line :
      parse_rebalance (lead (text "EXECUTE") (lead (text "ADD-NODE") (lead n d)))
      ≡ ok (execute_rebalance_add_node n d)
  unfolding parse_rebalance to_ascii_uppercase text is_whitespace
  execute_add_line =
      let last = IsWord-IsTrimmed d hd in
      let rest = IsTrimmed-lead n d hn last in
      rw
        (split-lead (text "EXECUTE") (lead (text "ADD-NODE") (lead n d)) (refl, refl)
          (IsTrimmed-lead (text "ADD-NODE") (lead n d) (refl, refl) rest))
        (rw (split-lead (text "ADD-NODE") (lead n d) (refl, refl) rest) (
          rw (first_word-lead n d _ hn last) (
            rw (require_arg-IsArg d (text "REBALANCE EXECUTE ADD-NODE") (text "collection") hd.0)
              (rw (split-word d hd) refl))))

  pub execute_remove_line :
      parse_rebalance (lead (text "EXECUTE") (lead (text "REMOVE-NODE") (lead n d)))
      ≡ ok (execute_rebalance_remove_node n d)
  unfolding parse_rebalance to_ascii_uppercase text is_whitespace
  execute_remove_line =
      let last = IsWord-IsTrimmed d hd in
      let rest = IsTrimmed-lead n d hn last in
      rw
        (split-lead (text "EXECUTE") (lead (text "REMOVE-NODE") (lead n d)) (refl, refl)
          (IsTrimmed-lead (text "REMOVE-NODE") (lead n d) (refl, refl) rest))
        (rw (split-lead (text "REMOVE-NODE") (lead n d) (refl, refl) rest) (
          rw (first_word-lead n d _ hn last) (
            rw (require_arg-IsArg d (text "REBALANCE EXECUTE REMOVE-NODE") (text "collection") hd.0)
              (rw (split-word d hd) refl))))

module _ (n : Text) (hn : IsWord n) where
  pub plan_add_line :
      parse_rebalance (lead (text "PLAN") (lead (text "ADD-NODE") n))
      ≡ ok (plan_rebalance_add_node n)
  unfolding parse_rebalance to_ascii_uppercase text is_whitespace
  plan_add_line =
      let last = IsWord-IsTrimmed n hn in
      rw
        (split-lead (text "PLAN") (lead (text "ADD-NODE") n) (refl, refl)
          (IsTrimmed-lead (text "ADD-NODE") n (refl, refl) last))
        (rw (split-lead (text "ADD-NODE") n (refl, refl) last) (
          rw (require_arg-IsArg n (text "REBALANCE PLAN ADD-NODE") (text "node_id") hn.0)
            (rw (split-word n hn) refl)))

  pub plan_remove_line :
      parse_rebalance (lead (text "PLAN") (lead (text "REMOVE-NODE") n))
      ≡ ok (plan_rebalance_remove_node n)
  unfolding parse_rebalance to_ascii_uppercase text is_whitespace
  plan_remove_line =
      let last = IsWord-IsTrimmed n hn in
      rw
        (split-lead (text "PLAN") (lead (text "REMOVE-NODE") n) (refl, refl)
          (IsTrimmed-lead (text "REMOVE-NODE") n (refl, refl) last))
        (rw (split-lead (text "REMOVE-NODE") n (refl, refl) last) (
          rw (require_arg-IsArg n (text "REBALANCE PLAN REMOVE-NODE") (text "node_id") hn.0)
            (rw (split-word n hn) refl)))

module _ (r o u : Text) (hr : IsWord r) (ho : IsWord o) (hu : IsWord u) where
  pub grant_line :
      parse_grant (lead r (lead (text "ON") (lead o (lead (text "TO") u)))) ≡ ok (grant r o u)
  unfolding parse_grant eq_ignore_ascii_case text is_whitespace
  grant_line =
      let last = IsWord-IsTrimmed u hu in
      let to_user = IsTrimmed-lead (text "TO") u (refl, refl) last in
      let resource = IsTrimmed-lead o (lead (text "TO") u) ho to_user in
      let on_resource =
        IsTrimmed-lead (text "ON") (lead o (lead (text "TO") u)) (refl, refl) resource in
      rw (first_word-lead r (lead (text "ON") (lead o (lead (text "TO") u))) _ hr on_resource) (
        rw (split-lead (text "ON") (lead o (lead (text "TO") u)) (refl, refl) resource) (
          rw (first_word-lead o (lead (text "TO") u) _ ho to_user) (
            rw (split-lead (text "TO") u (refl, refl) last) (
              rw (require_arg-IsArg u (text "GRANT") (text "username") hu.0)
                (rw (split-word u hu) refl)))))

  pub revoke_line :
      parse_revoke (lead r (lead (text "ON") (lead o (lead (text "FROM") u)))) ≡ ok (revoke r o u)
  unfolding parse_revoke eq_ignore_ascii_case text is_whitespace
  revoke_line =
      let last = IsWord-IsTrimmed u hu in
      let to_user = IsTrimmed-lead (text "FROM") u (refl, refl) last in
      let resource = IsTrimmed-lead o (lead (text "FROM") u) ho to_user in
      let on_resource =
        IsTrimmed-lead (text "ON") (lead o (lead (text "FROM") u)) (refl, refl) resource in
      rw (first_word-lead r (lead (text "ON") (lead o (lead (text "FROM") u))) _ hr on_resource) (
        rw (split-lead (text "ON") (lead o (lead (text "FROM") u)) (refl, refl) resource) (
          rw (first_word-lead o (lead (text "FROM") u) _ ho to_user) (
            rw (split-lead (text "FROM") u (refl, refl) last) (
              rw (require_arg-IsArg u (text "REVOKE") (text "username") hu.0)
                (rw (split-word u hu) refl)))))
